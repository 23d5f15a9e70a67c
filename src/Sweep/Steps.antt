-- ===== src/Sweep/Steps.antt =====
-- One round of the sweep: where a window ends, and the size of the next one.
use quickhouse.Prelude.{
  ℕ, ◌+◌, ◌*◌, ◌/◌, ◌^◌, ◌≤◌, ◌<◌, ◌≡◌, inl, inr, arith, max, ℤ, pos, ◌+ℤ◌, ◌≤ℤ◌, ◌<ℤ◌, int_laws,
  i64_min, i64_max, leb_ℤ-cases, checked_i64, u64_as_i64,
}
use quickhouse.Prelude.Float.{Floats}
use quickhouse.Sweep.{window_hi, edge, clamp, WindowPlan, finished, next_window}

u64_as_i64_small : (n : ℕ) → n < 2 ^ 63 → u64_as_i64 n ≡ pos n
unfolding u64_as_i64
u64_as_i64_small n h = ground arith

edge_bounds :
    (lo max z : ℤ)
    → lo <ℤ max
    → lo <ℤ z
    → (lo <ℤ edge max (checked_i64 z)) × (edge max (checked_i64 z) ≤ℤ max)
unfolding checked_i64
edge_bounds lo max z h h' = elim (leb_ℤ-cases i64_min z) [
  | inl (e, _) ↦ elim (leb_ℤ-cases z i64_max) [
    | inl (e', _) ↦ rw (e, e') (omega int_laws, omega int_laws)
    | inr (e', _) ↦ rw (e, e') (h, omega arith)
  ]
  | inr (e, _) ↦ rw e (h, omega arith)
]

-- A window takes in one key or more, and none above the last.
pub window_hi_bounds :
    (lo max : ℤ) (step : ℕ)
    → lo <ℤ max
    → 1 ≤ step
    → step < 2 ^ 63
    → (lo <ℤ window_hi lo step max) × (window_hi lo step max ≤ℤ max)
unfolding window_hi
window_hi_bounds lo max step h h1 h2 =
    rw (u64_as_i64_small step h2) (edge_bounds lo max (lo +ℤ pos step) h (omega int_laws))

pub clamp_bounds : (n lo hi : ℕ) → lo ≤ hi → (lo ≤ clamp n lo hi) × (clamp n lo hi ≤ hi)
clamp_bounds n lo hi h = ground arith

pub halved :
    (step floor : ℕ) → floor < step → (floor ≤ max (step / 2) floor) × (max (step / 2) floor < step)
halved step floor h = (omega arith, omega arith)

-- The next size keeps to the plan's floor and ceiling, and falls when a window was cancelled.
pub next_done-bounds :
    (fl : Floats) (lo hi : ℤ) (step : ℕ) (plan : WindowPlan fl) (secs : fl.F)
    → plan.floor ≤ plan.max_step
    → let next = (next_window fl lo hi step plan (finished secs)).1 in
      (plan.floor ≤ next) × (next ≤ plan.max_step)
unfolding next_window
next_done-bounds fl lo hi step plan secs h = clamp_bounds _ plan.floor plan.max_step h

pub less_measure :
    (left left' cap step step' : ℕ)
    → left' < left
    → step' ≤ cap
    → left' * (cap + 1) + step' < left * (cap + 1) + step
less_measure left left' cap step step' h h' = grind arith
