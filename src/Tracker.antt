-- ===== src/Tracker.antt =====
-- sync.rs: `WatermarkTracker`, the largest watermark that a read has met, and the cursor taken from
-- it. The atomic maximum is the state; the methods of one tracker are sequential steps on it, in
-- whatever order the partitions make them. Parsing and printing of dates is chrono's, a parameter.
pub mod Fold
pub mod Rewind
pub mod Coverage
pub mod Tests
use quickhouse.Prelude.{
  ℕ, ◌+◌, ◌-◌, ◌*◌, ◌/◌, ◌^◌, ◌≡◌, Bool, true, false, not, Option, none, some, List, [], ◌∷◌, ◌++◌,
  ◌>>=◌, ltb, leb, ◌==◌, if◌then◌else◌, ℤ, pos, negsuc, ◌-ℤ◌, min_ℤ, max_ℤ, ltb_ℤ, leb_ℤ, eqb_ℤ,
  i64_min, saturating_sub_i64, min, get_elem?, unwrap_or, is_some, scale_ℤ,
}
use quickhouse.Prelude.Text.{Text, codes, trim, parse_i64, show_ℤ, text_eq}
use quickhouse.Prelude.Float.{Floats}
use quickhouse.Units.{
  WatermarkUnit, naive_micros, utc_micros, days, int, unit_of, Chrono, parse_temporal_micros,
  unit_parse, parse_floor, render_in,
}
use quickhouse.Arrow.{
  DataType, timestamp, date32, int8, int16, int32, int64, uint8, uint16, uint32, microsecond,
  ColumnType,
}

pub record WatermarkTracker : Type 0 where
  pub idx : ℕ
  pub unit : WatermarkUnit
  -- `i64::MIN` before anything is seen
  pub max : ℤ

-- The position of a column in the projection.
abbrev pub later : Option ℕ → Option ℕ
later none = none
later (some i) = some (i + 1)

abbrev pub position : List Text → Text → Option ℕ
position [] name = none
position (c ∷ cs) name = if text_eq c name then some 0 else later (position cs name)

-- `new`, with the two columns of the `SelectPlan` that it reads.
unfoldable pub new : Text → List Text → List ColumnType → Bool → Option WatermarkTracker
unfolding unit_of
new watermark source_columns dest_columns utc_offset = do
  idx ← position source_columns watermark
  c ← get_elem? dest_columns idx
  unit ← unit_of c.arrow utc_offset
  some (record { idx = idx; unit = unit; max = i64_min })

-- The values of the watermark column in one batch, a NULL as `none`; `none` for a column that is
-- missing or of another array type, where `observe` returns early.
abbrev pub Values : Type 0
Values = Option (List (Option ℤ))

-- `for i in 0..a.len()` over the array.
unfoldable pub fold_max : ℤ → List (Option ℤ) → ℤ
fold_max local [] = local
fold_max local (none ∷ vs) = fold_max local vs
fold_max local (some v ∷ vs) = fold_max (max_ℤ local v) vs

unfoldable pub observe : WatermarkTracker → Values → WatermarkTracker
unfolding fold_max
observe t none = t
observe t (some vs) =
    let local = fold_max i64_min vs in
    if ltb_ℤ i64_min local then record t { max = max_ℤ t.max local } else t

unfoldable pub seen : WatermarkTracker → Bool
seen t = not (eqb_ℤ t.max i64_min)

-- `i64::try_from(n).unwrap_or(i64::MAX)`
abbrev pub clamp_i64 : ℕ → ℕ
clamp_i64 n = min n (2 ^ 63 - 1)

abbrev pub div_ceil : ℕ → ℕ → ℕ
div_ceil a b = (a + (b - 1)) / b

rewind_step_of : WatermarkUnit → ℕ → ℤ
rewind_step_of naive_micros secs = pos (clamp_i64 (clamp_i64 secs * 1000000))
rewind_step_of utc_micros secs = pos (clamp_i64 (clamp_i64 secs * 1000000))
rewind_step_of days secs = pos (clamp_i64 (div_ceil secs 86400))
rewind_step_of int secs = pos 0

pub rewind_step : WatermarkTracker → ℕ → ℤ
unfolding rewind_step_of
rewind_step t secs = rewind_step_of t.unit secs

-- `Some(f) if f >= v => None`
abbrev past_floor : Option ℤ → ℤ → Option ℤ
past_floor none v = some v
past_floor (some f) v = if leb_ℤ v f then none else some v

abbrev lift_to_floor : Option ℤ → ℤ → ℤ → ℤ
lift_to_floor none max v = v
lift_to_floor (some f) max v = max_ℤ v (min_ℤ f max)

abbrev covered : WatermarkUnit → ℕ → ℕ
covered days lookback_seconds = lookback_seconds - 86400
covered _ lookback_seconds = lookback_seconds

module _ (chrono : Chrono) where
  unfoldable pub render_value : WatermarkTracker → ℤ → Option Text
  render_value t v = render_in chrono t.unit v

  -- `floor.and_then(|f| self.unit.parse_floor(f))`
  unfoldable pub floor_value : WatermarkTracker → Option Text → Option ℤ
  floor_value t floor = floor >>= parse_floor chrono t.unit

  -- `advance_from`, before the value is rendered.
  unfoldable pub advanced : WatermarkTracker → Option Text → ℕ → Option ℤ
  unfolding floor_value
  advanced t floor rewind_secs =
      if eqb_ℤ t.max i64_min
      then none
      else past_floor (floor_value t floor) (saturating_sub_i64 t.max (rewind_step t rewind_secs))

  unfoldable pub advance_from : WatermarkTracker → Option Text → ℕ → Option Text
  unfolding advanced render_value
  advance_from t floor rewind_secs = advanced t floor rewind_secs >>= render_value t

  unfoldable pub rewound : WatermarkTracker → ℕ → Option Text → Option ℤ
  unfolding floor_value
  rewound t rewind_secs floor =
      if eqb_ℤ t.max i64_min
      then none
      else if ltb 0 rewind_secs
      then some (
          lift_to_floor (floor_value t floor) t.max
            (saturating_sub_i64 t.max (rewind_step t rewind_secs)))
      else some t.max

  unfoldable pub render_rewound : WatermarkTracker → ℕ → Option Text → Option Text
  unfolding rewound render_value
  render_rewound t rewind_secs floor = rewound t rewind_secs floor >>= render_value t

  -- `cursor_floor`
  unfoldable pub cursor_floor : Option Text → Option Text → Option WatermarkTracker → Option Text
  unfolding unit_parse
  cursor_floor (some c) seed tracker = some c
  cursor_floor none none tracker = none
  cursor_floor none (some s) none = none
  cursor_floor none (some s) (some t) =
      if is_some (unit_parse chrono t.unit s) then some s else none

module _ (fl : Floats) where
  -- `stream_cursor_rewind_secs`
  unfoldable pub stream_cursor_rewind_secs : fl.F → ℕ → ℕ
  stream_cursor_rewind_secs read_secs lookback_seconds =
      fl.as_u64 (fl.ceil (fl.max read_secs (fl.lit 0 0))) - lookback_seconds

  unfoldable pub stream_rewind_secs : WatermarkTracker → fl.F → ℕ → ℕ
  unfolding stream_cursor_rewind_secs
  stream_rewind_secs t read_secs lookback_seconds =
      stream_cursor_rewind_secs read_secs (covered t.unit lookback_seconds)
