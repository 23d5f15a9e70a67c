-- ===== src/Partitions.antt =====
-- source/mod.rs: `range_partitions`, the split of a key range into partitions. The i128 sums are
-- exact: every caller passes bounds that were i64 values.
mod Steps
pub mod Cover
pub mod Count
pub mod Tests
use quickhouse.Prelude.{
  ℕ, zero, suc, ◌+◌, ◌-◌, ◌/◌, ◌^◌, max, Option, none, some, List, [], ◌∷◌, ◌++◌, ltb, ◌==◌,
  if◌then◌else◌, ℤ, pos, negsuc, ◌+ℤ◌, ◌-ℤ◌, min_ℤ, leb_ℤ, pos_part,
}
use quickhouse.Sql.{Cond, ge, le, both}
use quickhouse.Prelude.Text.{Text, codes, show_ℕ}

-- One stream of a partitioned read.
pub record Partition : Type 0 where
  pub label : Text
  pub predicate : Option Cond

-- `x as u128` and `x as i128`.
abbrev pub as_u128 : ℤ → ℕ
as_u128 (pos n) = n
as_u128 (negsuc n) = 2 ^ 128 - n - 1

abbrev pub as_i128 : ℕ → ℤ
as_i128 n = if ltb n (2 ^ 127) then pos n else negsuc (2 ^ 128 - n - 1)

abbrev pub div_ceil : ℕ → ℕ → ℕ
div_ceil a b = (a + (b - 1)) / b

pub range_part : Text → ℕ → ℤ → ℤ → Partition
range_part quoted_col idx start end = record {
  label = codes "range-" ++ show_ℕ idx;
  predicate = some (both (ge quoted_col start) (le quoted_col end));
}

-- `while start <= hi`, by recursion on a bound for the rounds left.
pub range_loop : ℕ → Text → ℤ → ℤ → ℤ → ℕ → List Partition
range_loop zero quoted_col hi step start idx = []
range_loop (suc fuel) quoted_col hi step start idx =
    let end = min_ℤ (start +ℤ step -ℤ pos 1) hi in
    let rest = range_loop fuel quoted_col hi step (end +ℤ pos 1) (idx + 1) in
    if leb_ℤ start hi then range_part quoted_col idx start end ∷ rest else []

-- `none` is the panic of `div_ceil` at zero partitions.
unfoldable pub range_partitions : ℤ → ℤ → ℕ → Text → Option (List Partition)
unfolding range_loop range_part
range_partitions lo hi n quoted_col =
    let span = as_u128 (hi -ℤ lo +ℤ pos 1) in
    let step = max (div_ceil span n) 1 in
    if n == 0 then none else some (range_loop (suc span) quoted_col hi (as_i128 step) lo 0)
