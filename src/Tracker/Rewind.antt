-- ===== src/Tracker/Rewind.antt =====
-- The cursor that a read saves, next to the cursor that it started from.
use quickhouse.Prelude.{
  ℕ, ◌≡◌, refl, ◌⊎◌, inl, inr, Option, none, some, arith, ℤ, pos, ◌≤ℤ◌, ◌<ℤ◌, max_ℤ, min_ℤ, ltb,
  eqb_ℤ, i64_min, saturating_sub_i64, IsI64, if◌then◌else◌, int_laws, ◌-ℤ◌, saturate_i64, -ℤ_parts,
  Bool-cases, sym, leb_ℤ-cases, Bool, false, ◌↔◌,
}
use mathlib.Core.Option.{some-injective}
use quickhouse.Prelude.Text.{Text}
use quickhouse.Tracker.{
  WatermarkTracker, rewind_step_of, seen, rewound, advanced, floor_value, rewind_step, past_floor,
  lift_to_floor,
}
use quickhouse.Units.{WatermarkUnit, naive_micros, utc_micros, days, int, Chrono}

-- A saturating difference with a number lies at or below, and at or above what it stands for.
pub saturating_sub_bounds :
    (a : ℤ) (k : ℕ)
    → IsI64 a
    → (saturating_sub_i64 a (pos k) ≤ℤ a)
      × (a -ℤ pos k ≤ℤ saturating_sub_i64 a (pos k))
      × ((saturating_sub_i64 a (pos k) ≤ℤ a -ℤ pos k) ⊎ (saturating_sub_i64 a (pos k) ≤ℤ i64_min))
unfolding saturating_sub_i64 saturate_i64 max_ℤ min_ℤ
saturating_sub_bounds a k h = let p = -ℤ_parts a (pos k) in ground arith

step_is_pos : (t : WatermarkTracker) (secs : ℕ) → (k : ℕ) × (rewind_step t secs ≡ pos k)
unfolding rewind_step
step_is_pos t secs = by_unit t.unit
  where
    by_unit : (u : WatermarkUnit) → (k : ℕ) × (rewind_step_of u secs ≡ pos k)
    by_unit naive_micros = (_, refl)
    by_unit utc_micros = (_, refl)
    by_unit days = (_, refl)
    by_unit int = (_, refl)

-- What a cursor `v` may be, for the maximum `m`, moved back by `step`, and the floor.
pub record IsRewound (m step v : ℤ) (floor : Option ℤ) : Type 0 where
  pub below_max : v ≤ℤ m
  pub near_max : m -ℤ step ≤ℤ v
  pub above_floor : (f : ℤ) → floor ≡ some f → min_ℤ f m ≤ℤ v

lift-IsRewound :
    (m : ℤ) (k : ℕ) (floor : Option ℤ)
    → IsI64 m
    → IsRewound m (pos k) (lift_to_floor floor m (saturating_sub_i64 m (pos k))) floor
lift-IsRewound m k none h = record {
  below_max = (saturating_sub_bounds m k h).0;
  near_max = (saturating_sub_bounds m k h).1;
  above_floor = λ f e. cc;
}
lift-IsRewound m k (some f) h =
    let b = saturating_sub_bounds m k h in
    record {
      below_max = omega int_laws;
      near_max = omega int_laws;
      above_floor = λ g e. rw (← some-injective f g e) (omega int_laws);
    }

unmoved-IsRewound : (m : ℤ) (k : ℕ) (floor : Option ℤ) → IsRewound m (pos k) m floor
unmoved-IsRewound m k floor = record {
  below_max = omega arith;
  near_max = omega int_laws;
  above_floor = λ f e. omega int_laws;
}

chosen :
    (empty moved : Bool) (x m v : ℤ)
    → (if empty then none else if moved then some x else some m) ≡ some v
    → (v ≡ x) ⊎ ((moved ≡ false) × (v ≡ m))
chosen empty moved x m v h = ground arith

-- A cursor is the maximum moved back and lifted, or with nothing to move back the maximum itself.
pub rewound_cases :
    (chrono : Chrono) (t : WatermarkTracker) (secs : ℕ) (floor : Option Text) (v : ℤ)
    → rewound chrono t secs floor ≡ some v
    → (v
        ≡ lift_to_floor
            (floor_value chrono t floor)
            t.max
            (saturating_sub_i64 t.max (rewind_step t secs)))
      ⊎ ((ltb 0 secs ≡ false) × (v ≡ t.max))
unfolding rewound
rewound_cases chrono t secs floor v e = chosen (eqb_ℤ t.max i64_min) (ltb 0 secs) _ t.max v e

-- The cursor of a read is at most the largest watermark seen, lies back by at most the rewind (in
-- the unit of the watermark), and is not below the smaller of that watermark and the cursor that
-- the run started from; it is missing exactly when nothing was seen.
pub rewound-IsRewound :
    (chrono : Chrono) (t : WatermarkTracker) (secs : ℕ) (floor : Option Text)
    → IsI64 t.max
    → ((v : ℤ)
        → rewound chrono t secs floor ≡ some v
        → IsRewound t.max (rewind_step t secs) v (floor_value chrono t floor))
      × ((rewound chrono t secs floor ≡ none) ↔ (seen t ≡ false))
unfolding rewound seen
rewound-IsRewound chrono t secs floor h = (bounds, ground arith)
  where
    bounds :
        (v : ℤ)
        → rewound chrono t secs floor ≡ some v
        → IsRewound t.max (rewind_step t secs) v (floor_value chrono t floor)
    bounds v e =
        let (k, step) = step_is_pos t secs in
        elim (rewound_cases chrono t secs floor v e) [
          | inl p ↦ rw (p, step) (lift-IsRewound t.max k (floor_value chrono t floor) h)
          | inr (_, p) ↦ rw (p, step) (unmoved-IsRewound t.max k (floor_value chrono t floor))
        ]

past :
    (floor : Option ℤ) (x v : ℤ)
    → past_floor floor x ≡ some v
    → (v ≡ x) × ((f : ℤ) → floor ≡ some f → f <ℤ v)
past none x v h = (sym (some-injective x v h), λ f e. cc)
past (some g) x v h = elim (leb_ℤ-cases x g) [
  | inl (e, le) ↦ cc (rw e at h)
  | inr (e, lt) ↦
      let p = some-injective x v (rw e at h) in (sym p, λ f q. rw (← p, ← some-injective g f q) lt)
]

-- A cursor that is advanced from a bounded read is at most the largest watermark seen, and is
-- past the cursor that the run started from.
pub advanced_past_floor :
    (chrono : Chrono) (t : WatermarkTracker) (floor : Option Text) (secs : ℕ) (v : ℤ)
    → IsI64 t.max
    → advanced chrono t floor secs ≡ some v
    → (v ≤ℤ t.max) × ((f : ℤ) → floor_value chrono t floor ≡ some f → f <ℤ v)
unfolding advanced
advanced_past_floor chrono t floor secs v h e = elim (Bool-cases (eqb_ℤ t.max i64_min)) [
  | inl empty ↦ cc (rw (empty, advanced) at e)
  | inr some_seen ↦
      let (k, step) = step_is_pos t secs in
      let (at, above) = past (floor_value chrono t floor) _ v (rw (some_seen, advanced) at e) in
      (rw (at, step) (saturating_sub_bounds t.max k h).0, above)
]
