-- ===== src/Transform/Types.antt =====
-- transform.rs: the spellings of types that a plan reads.
use quickhouse.Prelude.{
  ℕ, ◌-◌, ◌⊎◌, inl, inr, Bool, true, false, not, ◌&&◌, ◌||◌, Option, none, some, List, [], ◌∷◌, map,
  leb, if◌then◌else◌, is_some, ◌>>=◌, ℤ, pos, pos_part,
}
use quickhouse.Prelude.Text.{Text, codes, text_eq, trim, split_once}
use quickhouse.Arrow.{
  DataType, boolean, int16, int32, int64, uint32, float32, float64, utf8, binary, date32, timestamp,
  decimal128,
}
use quickhouse.Errors.{EtlError}
use quickhouse.Decimal.{parse_decimal_override}
use quickhouse.Nulls.Plan.{DestKind, big_query}
use quickhouse.Nulls.Texts.{strip_prefix}

-- `to_ascii_uppercase`
abbrev upper_char : ℕ → ℕ
upper_char c = if leb b'a' c && leb c b'z' then c - 32 else c

abbrev pub upper : Text → Text
upper s = map upper_char s

abbrev pub starts_with : Text → Text → Bool
starts_with p s = is_some (strip_prefix p s)

abbrev pub holds_text : Text → Text → Bool
holds_text p [] = starts_with p []
holds_text p (c ∷ s) = starts_with p (c ∷ s) || holds_text p s

unfoldable pub extract_quoted_tz : Text → Option Text
unfolding split_once
extract_quoted_tz s = split_once b'\'' s >>= λ p. split_once b'\'' p.1 >>= λ q. some q.0

unfoldable pub datetime_override_tz : Text → Option (Option Text)
unfolding trim extract_quoted_tz
datetime_override_tz dest_type =
    let trimmed = trim dest_type in
    if text_eq (upper trimmed) (codes "TIMESTAMP")
    then some (some (codes "UTC"))
    else if text_eq (upper trimmed) (codes "DATETIME")
    then some none
    else if starts_with (codes "DATETIME") (upper trimmed)
    then some (extract_quoted_tz trimmed)
    else none

unfoldable pub clickhouse_datetime_spelling : Text → Text
unfolding trim
clickhouse_datetime_spelling dest_type =
    let trimmed = trim dest_type in
    if text_eq (upper trimmed) (codes "DATETIME") && not (text_eq trimmed (codes "DateTime"))
    then codes "DateTime64(6)"
    else if text_eq (upper trimmed) (codes "TIMESTAMP")
    then codes "DateTime64(6, 'UTC')"
    else dest_type

abbrev named_types : List (Text × DataType)
named_types =
    (codes "Boolean", boolean)
    ∷ (codes "Bool", boolean)
    ∷ (codes "Int16", int16)
    ∷ (codes "Int32", int32)
    ∷ (codes "Int64", int64)
    ∷ (codes "UInt32", uint32)
    ∷ (codes "Float32", float32)
    ∷ (codes "Float64", float64)
    ∷ (codes "Utf8", utf8)
    ∷ (codes "String", utf8)
    ∷ (codes "Text", utf8)
    ∷ (codes "Binary", binary)
    ∷ (codes "Date32", date32)
    ∷ (codes "Date", date32)
    ∷ []

abbrev type_named : List (Text × DataType) → Text → Option DataType
type_named [] name = none
type_named ((n, t) ∷ ts) name = if text_eq n name then some t else type_named ts name

unfoldable pub parse_column_transform_type : Text → Option DataType
parse_column_transform_type name = type_named named_types name

-- types.rs
unfoldable pub may_coerce_to_null : DataType → Bool
may_coerce_to_null date32 = true
may_coerce_to_null (timestamp unit tz) = true
may_coerce_to_null (decimal128 p s) = true
may_coerce_to_null _ = false

-- `NUMERIC` of BigQuery.
abbrev bare_numeric : DestKind → Text → Option (ℕ × ℤ)
bare_numeric big_query inner =
    if text_eq (upper inner) (codes "NUMERIC") then some (38, pos 9) else none
bare_numeric _ inner = none

-- `valid` is arrow's `validate_decimal_precision_and_scale` for 128 bits.
abbrev pub promote : (ℤ → ℤ → Bool) → DestKind → Text → Option (ℤ × ℤ) → EtlError ⊎ Option (ℕ × ℤ)
promote valid dest_kind inner none = inr (bare_numeric dest_kind inner)
promote valid dest_kind inner (some (p, s)) =
    if valid p s
    then inr (some (pos_part p, s))
    else inl (EtlError.config (codes "type_overrides is not a valid Decimal128(P,S) override"))

unfoldable pub resolve_decimal_promotion :
    (ℤ → ℤ → Bool) → Text → DestKind → EtlError ⊎ Option (ℕ × ℤ)
unfolding trim parse_decimal_override
resolve_decimal_promotion valid ch_inner dest_kind =
    promote valid dest_kind (trim ch_inner) (parse_decimal_override ch_inner)
