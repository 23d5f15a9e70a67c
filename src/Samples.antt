-- ===== src/Samples.antt =====
-- Test data: instances of the parameters, and small values that several tests use.
use quickhouse.Prelude.{
  ℕ, ◌+◌, ◌-◌, ◌*◌, ◌/◌, ◌^◌, ◌<◌, ◌≡◌, refl, Option, none, some, arith, max, min, leb,
  if◌then◌else◌, ℤ,
}
use quickhouse.Prelude.Text.{Text, codes, parse_ℤ}
use quickhouse.Prelude.Float.{Floats}
use quickhouse.Memory.{Semaphore}
use quickhouse.Sql.{Row}
use quickhouse.Units.{Chrono}

-- Numbers with no fraction.
abbrev pub whole : Floats
whole = record {
  F = ℕ;
  lit = λ m e. m / 10 ^ e;
  of_u64 = λ n. n;
  max = max;
  mul = λ a b. a * b;
  div = λ a b. a / max b 1;
  clamp = λ x lo hi. min (max x lo) hi;
  round = λ x. x;
  ceil = λ x. x;
  as_u64 = λ x. x;
}

pub acquire : ℕ → ℕ → Option ℕ
acquire n s = if leb n s then some (s - n) else none

pub acquired : (n s s' : ℕ) → acquire n s ≡ some s' → s ≡ s' + n
unfolding acquire
acquired n s s' e = ground arith

pub refused : (n s : ℕ) → acquire n s ≡ none → s < n
unfolding acquire
refused n s e = ground arith

-- A semaphore that is the number of its free permits.
abbrev pub counter : Semaphore
counter = record {
  Sem = ℕ;
  max_permits = 2 ^ 32;
  new_sem = λ n. n;
  available = λ s. s;
  try_acquire_many = acquire;
  release = λ n s. s + n;
  u32_fits = omega arith;
  available-new_sem = λ n h. refl;
  acquired = acquired;
  refused = refused;
  available-release = λ n s. refl;
}

-- Instants written as whole microseconds, all without a zone.
abbrev pub micros_only : Chrono
micros_only = record {
  parse_zoned = λ f v. none;
  parse_naive = λ f v. parse_ℤ v;
  parse_date = λ f v. none;
  format_micros = λ f z. some (codes "t");
  format_seconds = λ f z. some (codes "d");
}

abbrev pub id_col : Text
id_col = codes "`id`"

-- A row with this key in every column.
abbrev pub keyed : ℤ → Row
keyed k col = some k
