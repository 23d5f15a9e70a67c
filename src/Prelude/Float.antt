-- ===== src/Prelude/Float.antt =====
-- `f64`: the type and its operations are parameters of what uses them.
use Prim.Native.Nat.{ℕ}

-- `lit m e` is the literal with the digits `m` and `e` decimal places; `as_u64` is the saturating
-- cast.
pub record Floats : Type 1 where
  pub F : Type 0
  pub lit : ℕ → ℕ → F
  pub of_u64 : ℕ → F
  pub max : F → F → F
  pub mul : F → F → F
  pub div : F → F → F
  pub clamp : F → F → F → F
  pub round : F → F
  pub ceil : F → F
  pub as_u64 : F → ℕ
