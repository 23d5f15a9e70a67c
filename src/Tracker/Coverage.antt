-- ===== src/Tracker/Coverage.antt =====
-- A cursor taken from the stream, less the lookback, is no later than the start of the read.
use quickhouse.Prelude.{
  ℕ, ◌+◌, ◌-◌, ◌*◌, ◌/◌, ◌^◌, ◌≤◌, ◌<◌, ◌≡◌, refl, ◌⊎◌, inl, inr, false, Option, none, some, arith,
  ℤ, pos, negsuc, ◌+ℤ◌, ◌≤ℤ◌, ◌<ℤ◌, min_ℤ, max_ℤ_bounds, i64_min, saturating_sub_i64, IsI64,
  int_laws, pos_part, ltb,
}
use quickhouse.Prelude.Text.{Text}
use quickhouse.Prelude.Float.{Floats}
use quickhouse.Tracker.{
  WatermarkTracker, rewound, floor_value, stream_rewind_secs, rewind_step, rewind_step_of, covered,
  clamp_i64, div_ceil, lift_to_floor,
}
use quickhouse.Units.{WatermarkUnit, naive_micros, utc_micros, days, Chrono}
use quickhouse.Tracker.Fold.{le_trans_ℤ}
use quickhouse.Tracker.Rewind.{saturating_sub_bounds, rewound_cases}

-- Whole seconds that a read took, as the rewind counts them.
abbrev pub whole_secs : (fl : Floats) → fl.F → ℕ
whole_secs fl read_secs = fl.as_u64 (fl.ceil (fl.max read_secs (fl.lit 0 0)))

lift-le :
    (floor : Option ℤ) (m x : ℤ)
    → (lift_to_floor floor m x ≤ℤ x) ⊎ ((f : ℤ) × (floor ≡ some f) × (lift_to_floor floor m x ≤ℤ f))
lift-le none m x = inl (omega arith)
lift-le (some f) m x = elim (max_ℤ_bounds x (min_ℤ f m)).2 [
  | inl h ↦ inl h
  | inr h ↦ inr (f, refl, omega int_laws)
]

moved_back :
    (m start c : ℤ) (secs lookback : ℕ)
    → IsI64 m
    → secs * 1000000 < 2 ^ 63
    → m ≤ℤ start +ℤ pos (secs * 1000000)
    → start <ℤ c
    → i64_min <ℤ c
    → saturating_sub_i64 m (pos (clamp_i64 (clamp_i64 (secs - lookback) * 1000000)))
      <ℤ c +ℤ pos (lookback * 1000000)
moved_back m start c secs lookback h small m_le after above =
    let b = saturating_sub_bounds m (clamp_i64 (clamp_i64 (secs - lookback) * 1000000)) h in
    elim b.2 [ inl exact ↦ omega int_laws | inr low ↦ omega int_laws ]

not_moved :
    (m start c : ℤ) (secs lookback : ℕ)
    → ltb 0 (secs - lookback) ≡ false
    → m ≤ℤ start +ℤ pos (secs * 1000000)
    → start <ℤ c
    → m <ℤ c +ℤ pos (lookback * 1000000)
not_moved m start c secs lookback still m_le after =
    let few : secs ≤ lookback = ground arith in omega int_laws

lower :
    (v x c : ℤ) (lookback : ℕ)
    → v ≤ℤ x
    → x <ℤ c +ℤ pos (lookback * 1000000)
    → v <ℤ c +ℤ pos (lookback * 1000000)
lower v x c lookback h k = omega arith

abbrev pub IsMicros : WatermarkUnit → Type 0
IsMicros u = (u ≡ naive_micros) ⊎ (u ≡ utc_micros)

micros_step :
    (t : WatermarkTracker) (secs : ℕ)
    → IsMicros t.unit
    → rewind_step t secs ≡ pos (clamp_i64 (clamp_i64 secs * 1000000))
unfolding rewind_step
micros_step t secs (inl e) = rw (e, rewind_step_of)
micros_step t secs (inr e) = rw (e, rewind_step_of)

module _ (fl : Floats) (t : WatermarkTracker) (read_secs : fl.F) (lookback : ℕ) where
  micros_rewind :
      IsMicros t.unit
      → stream_rewind_secs fl t read_secs lookback ≡ whole_secs fl read_secs - lookback
  unfolding stream_rewind_secs
  micros_rewind (inl e) = rw (e, covered)
  micros_rewind (inr e) = rw (e, covered)

  -- A timestamp watermark: when the largest one met is no later than the end of the read, the next
  -- run, which reads from the cursor less the lookback, starts before anything that changes after
  -- the read began. Unless the cursor is at or below the one that the run started from. The read
  -- is taken to be shorter than 2^63 microseconds, and the change to be an i64 above the least.
  pub stream_cursor_covers :
      (chrono : Chrono) (floor : Option Text) (start c v : ℤ)
      → IsMicros t.unit
      → IsI64 t.max
      → whole_secs fl read_secs * 1000000 < 2 ^ 63
      → t.max ≤ℤ start +ℤ pos (whole_secs fl read_secs * 1000000)
      → start <ℤ c
      → i64_min <ℤ c
      → rewound chrono t (stream_rewind_secs fl t read_secs lookback) floor ≡ some v
      → (v <ℤ c +ℤ pos (lookback * 1000000))
        ⊎ ((f : ℤ) × (floor_value chrono t floor ≡ some f) × (v ≤ℤ f))
  stream_cursor_covers chrono floor start c v unit h small m_le after above e =
      let secs = whole_secs fl read_secs in
      let step = micros_step t (secs - lookback) unit in
      let e' = rw (micros_rewind unit) at e in
      elim (rewound_cases chrono t (secs - lookback) floor v e') [
        | inr (still, p) ↦ inl (rw p (not_moved t.max start c secs lookback (still) m_le after))
        | inl p ↦
            let back = moved_back t.max start c secs lookback h small m_le after above in
            elim (lift-le (floor_value chrono t floor) t.max
              (saturating_sub_i64 t.max (rewind_step t (secs - lookback)))) [
                | inl le ↦ inl (lower v _ c lookback (rw (← p) at le) (rw step back))
                | inr (f, q, le) ↦ inr (f, q, rw p le)
              ]
      ]

days_moved_back :
    (m k secs lookback start c : ℕ)
    → m ≤ (start + secs) / 86400
    → start ≤ c
    → 0 < lookback
    → k ≡ (secs - (lookback - 86400) + 86399) / 86400
    → (m - k) * 86400 < c / 86400 * 86400 + lookback
days_moved_back m k secs lookback start c m_le after some_lookback e = omega arith

days_step :
    (secs lookback : ℕ)
    → secs < 2 ^ 63
    → clamp_i64 (div_ceil (secs - (lookback - 86400)) 86400)
      ≡ (secs - (lookback - 86400) + 86399) / 86400
days_step secs lookback small = omega arith

day_rewind_step :
    (t : WatermarkTracker) (secs : ℕ)
    → t.unit ≡ days
    → rewind_step t secs ≡ pos (clamp_i64 (div_ceil secs 86400))
unfolding rewind_step
day_rewind_step t secs e = rw (e, rewind_step_of)

pos_part_le : (z : ℤ) (n : ℕ) → z ≤ℤ pos n → pos_part z ≤ n
pos_part_le (pos a) n h = omega arith
pos_part_le (negsuc a) n h = omega arith

fewer_days : (m k : ℕ) → IsI64 (pos m) → saturating_sub_i64 (pos m) (pos k) ≤ℤ pos (m - k)
fewer_days m k h = let b = saturating_sub_bounds (pos m) k h in omega int_laws

day_kept :
    (v : ℤ) (m k secs lookback start c : ℕ)
    → v ≤ℤ pos (m - k)
    → m ≤ (start + secs) / 86400
    → start ≤ c
    → 0 < lookback
    → k ≡ (secs - (lookback - 86400) + 86399) / 86400
    → pos_part v * 86400 < c / 86400 * 86400 + lookback
day_kept v m k secs lookback start c le m_le after some_lookback e = omega (
  arith,
  pos_part_le v (m - k) le,
  days_moved_back m k secs lookback start c m_le after some_lookback e,
)

no_days :
    (secs lookback : ℕ)
    → ltb 0 (secs - (lookback - 86400)) ≡ false
    → 0 ≡ (secs - (lookback - 86400) + 86399) / 86400
no_days secs lookback h = let z : secs - (lookback - 86400) ≡ 0 = ground arith in omega arith

module _ (fl : Floats) (t : WatermarkTracker) (read_secs : fl.F) (lookback : ℕ) where
  days_rewind :
      t.unit ≡ days
      → stream_rewind_secs fl t read_secs lookback ≡ whole_secs fl read_secs - (lookback - 86400)
  unfolding stream_rewind_secs
  days_rewind e = rw (e, covered)

  -- A `DATE` watermark, with seconds since the epoch: when the latest day met is no later than the
  -- day on which the read ended, the day of any later change lies after the cursor's midnight less
  -- a lookback that is not zero. Unless the cursor is at or below the one that the run started from.
  pub day_cursor_covers :
      (chrono : Chrono) (floor : Option Text) (m start c : ℕ) (v : ℤ)
      → t.unit ≡ days
      → t.max ≡ pos m
      → IsI64 (pos m)
      → whole_secs fl read_secs < 2 ^ 63
      → m ≤ (start + whole_secs fl read_secs) / 86400
      → start ≤ c
      → 0 < lookback
      → rewound chrono t (stream_rewind_secs fl t read_secs lookback) floor ≡ some v
      → (pos_part v * 86400 < c / 86400 * 86400 + lookback)
        ⊎ ((f : ℤ) × (floor_value chrono t floor ≡ some f) × (v ≤ℤ f))
  day_cursor_covers chrono floor m start c v unit at h small m_le after some_lookback e =
      let secs = whole_secs fl read_secs in
      let rewind = secs - (lookback - 86400) in
      let k = clamp_i64 (div_ceil rewind 86400) in
      let is_k = days_step secs lookback small in
      let e' = rw (days_rewind unit) at e in
      elim (rewound_cases chrono t rewind floor v e') [
        | inr (still, p) ↦ inl (
            day_kept v m 0 secs lookback start c (rw (p, at) (omega arith)) m_le after some_lookback
              (no_days secs lookback still))
        | inl p ↦
            elim (lift-le (floor_value chrono t floor) t.max
              (saturating_sub_i64 t.max (rewind_step t rewind))) [
                | inl le ↦ inl (
                    day_kept v m k secs lookback start c
                      (le_trans_ℤ v (saturating_sub_i64 t.max (rewind_step t rewind)) (pos (m - k))
                        (rw (← p) at le)
                        (rw (day_rewind_step t rewind unit, at) (fewer_days m k h)))
                      m_le after some_lookback is_k)
                | inr (f, q, le) ↦ inr (f, q, rw p le)
              ]
      ]
