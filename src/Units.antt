-- ===== src/Units.antt =====
-- sync.rs: `WatermarkUnit`, what a watermark is measured in, and the cursors that it parses and
-- renders. Parsing and printing of dates is chrono's, a parameter.
use quickhouse.Prelude.{
  or_else, ◌/◌, Bool, true, false, Option, none, some, [], ◌∷◌, ◌++◌, ◌==◌, if◌then◌else◌, ℤ, pos,
  negsuc, scale_ℤ,
}
use quickhouse.Prelude.Text.{Text, codes, trim, parse_i64, show_ℤ}
use quickhouse.Arrow.{
  DataType, timestamp, date32, int8, int16, int32, int64, uint8, uint16, uint32, microsecond,
}

pub data WatermarkUnit : Type 0 where
  naive_micros utc_micros days int : WatermarkUnit

-- `WatermarkUnit::of`
unfoldable pub unit_of : DataType → Bool → Option WatermarkUnit
unit_of (timestamp microsecond tz) utc_offset =
    some (if utc_offset then utc_micros else naive_micros)
unit_of date32 utc_offset = some days
unit_of int8 utc_offset = some int
unit_of int16 utc_offset = some int
unit_of int32 utc_offset = some int
unit_of int64 utc_offset = some int
unit_of uint8 utc_offset = some int
unit_of uint16 utc_offset = some int
unit_of uint32 utc_offset = some int
unit_of _ utc_offset = none

-- What chrono parses and prints. Instants are microseconds since the epoch.
pub record Chrono : Type 0 where
  -- `DateTime::parse_from_str` and `NaiveDateTime::parse_from_str`, by format and text
  pub parse_zoned : Text → Text → Option ℤ
  pub parse_naive : Text → Text → Option ℤ
  -- `NaiveDate::parse_from_str`, as its midnight
  pub parse_date : Text → Text → Option ℤ
  -- `from_timestamp_micros(..).format(..)` and `from_timestamp(..).date().format(..)`
  pub format_micros : Text → ℤ → Option Text
  pub format_seconds : Text → ℤ → Option Text

abbrev tagged : Bool → Option ℤ → Option (ℤ × Bool)
tagged b none = none
tagged b (some z) = some (z, b)

abbrev or_parse : Option (ℤ × Bool) → Option (ℤ × Bool) → Option (ℤ × Bool)
or_parse none b = b
or_parse (some a) b = some a

-- `strip_suffix('Z')`
abbrev strip_zulu : Text → Option Text
strip_zulu [] = none
strip_zulu (c ∷ []) = if c == b'Z' then some [] else none
strip_zulu (c ∷ d ∷ s) = elim (strip_zulu (d ∷ s)) [ none ↦ none | some r ↦ some (c ∷ r) ]

-- `micros.div_euclid(86_400_000_000)`
abbrev euclid_days : ℤ → ℤ
euclid_days (pos n) = pos (n / 86400000000)
euclid_days (negsuc n) = negsuc (n / 86400000000)

abbrev in_unit : WatermarkUnit → Option (ℤ × Bool) → Option ℤ
in_unit u none = none
in_unit naive_micros (some (micros, zoned)) = if zoned then none else some micros
in_unit utc_micros (some (micros, zoned)) = if zoned then some micros else none
in_unit days (some (micros, zoned)) = if zoned then none else some (euclid_days micros)
in_unit int (some (micros, zoned)) = none

abbrev micros_of : Option (ℤ × Bool) → Option ℤ
micros_of none = none
micros_of (some (micros, _)) = some micros

module _ (chrono : Chrono) where
  unfoldable pub parse_temporal_micros : Text → Option (ℤ × Bool)
  parse_temporal_micros text =
      let v = trim text in
      let zoned : Text = elim (strip_zulu v) [ none ↦ v | some n ↦ n ++ codes "+00" ] in
      or_parse
        (tagged true (
          or_else (chrono.parse_zoned (codes "%Y-%m-%d %H:%M:%S%.f%#z") zoned)
            (chrono.parse_zoned (codes "%Y-%m-%dT%H:%M:%S%.f%#z") zoned)))
        (tagged false (
          or_else (chrono.parse_naive (codes "%Y-%m-%d %H:%M:%S%.f") v) (
            or_else (chrono.parse_naive (codes "%Y-%m-%dT%H:%M:%S%.f") v)
              (chrono.parse_date (codes "%Y-%m-%d") v))))

  -- `WatermarkUnit::parse`
  unfoldable pub unit_parse : WatermarkUnit → Text → Option ℤ
  unfolding parse_temporal_micros
  unit_parse int cursor = parse_i64 (trim cursor)
  unit_parse naive_micros cursor = in_unit naive_micros (parse_temporal_micros cursor)
  unit_parse utc_micros cursor = in_unit utc_micros (parse_temporal_micros cursor)
  unit_parse days cursor = in_unit days (parse_temporal_micros cursor)

  unfoldable pub parse_floor : WatermarkUnit → Text → Option ℤ
  unfolding parse_temporal_micros unit_parse
  parse_floor utc_micros cursor = micros_of (parse_temporal_micros cursor)
  parse_floor naive_micros cursor = unit_parse naive_micros cursor
  parse_floor days cursor = unit_parse days cursor
  parse_floor int cursor = unit_parse int cursor

  abbrev pub render_in : WatermarkUnit → ℤ → Option Text
  render_in naive_micros v = chrono.format_micros (codes "%Y-%m-%d %H:%M:%S%.6f") v
  render_in utc_micros v = chrono.format_micros (codes "%Y-%m-%d %H:%M:%S%.6f+00") v
  render_in days v = chrono.format_seconds (codes "%Y-%m-%d") (scale_ℤ 86400 v)
  render_in int v = some (show_ℤ v)
