-- ===== src/Partitions/Steps.antt =====
-- One round of `range_loop`, and the width of a partition.
use quickhouse.Prelude.{
  ℕ, zero, suc, ◌+◌, ◌^◌, ◌≤◌, ◌<◌, ◌≡◌, false, [], arith, ◌==◌, max, ap, inl, inr, ◌<ℤ◌, ℤ, pos,
  ◌+ℤ◌, ◌-ℤ◌, ◌≤ℤ◌, min_ℤ, int_laws, IsI64, pos_part, neg_part, leb_ℤ-cases,
}
use quickhouse.Prelude.Text.{Text}
use quickhouse.Partitions.{range_loop, as_u128, as_i128, div_ceil}

pub step_facts :
    (start step hi : ℤ)
    → pos 1 ≤ℤ step
    → start ≤ℤ hi
    → let end = min_ℤ (start +ℤ step -ℤ pos 1) hi in
      (start ≤ℤ end) × (end ≤ℤ hi) × (start <ℤ end +ℤ pos 1)
step_facts start step hi grows h = omega int_laws

pub span_fits : (lo hi : ℤ) → lo ≤ℤ hi → hi -ℤ lo +ℤ pos 1 ≡ pos (as_u128 (hi -ℤ lo +ℤ pos 1))
unfolding ◌+ℤ◌ ◌-ℤ◌
span_fits lo hi le = ground arith

pub div_ceil-le : (a n : ℕ) → 0 < n → div_ceil a n ≤ a + 1
div_ceil-le a zero h = elim h [ ]
div_ceil-le a (suc n) h = grind arith

small_as_i128 : (a : ℕ) → a < 2 ^ 66 → as_i128 (max a 1) ≡ pos (max a 1)
small_as_i128 a h = ground arith

-- The width of a partition fits an i128.
pub step_as_i128 :
    (lo hi : ℤ) (n : ℕ)
    → IsI64 lo
    → IsI64 hi
    → lo ≤ℤ hi
    → 0 < n
    → let step = max (div_ceil (as_u128 (hi -ℤ lo +ℤ pos 1)) n) 1 in as_i128 step ≡ pos step
step_as_i128 lo hi n l h le n_pos =
    let span = hi -ℤ lo +ℤ pos 1 in
    small_as_i128 (div_ceil (as_u128 span) n) (
      omega (
        int_laws,
        ap pos_part (span_fits lo hi le),
        ap neg_part (span_fits lo hi le),
        div_ceil-le (as_u128 span) n n_pos,
      ))

pub nonzero : (n : ℕ) → 0 < n → (n == 0) ≡ false
nonzero n h = ground arith

pub empty_loop :
    (col : Text) (hi step start : ℤ) (idx fuel : ℕ)
    → hi <ℤ start
    → range_loop (suc fuel) col hi step start idx ≡ []
unfolding range_loop
empty_loop col hi step start idx fuel h = elim (leb_ℤ-cases start hi) [
  | inl (below, le) ↦ absurd (omega arith)
  | inr (above, lt) ↦ rw above
]
