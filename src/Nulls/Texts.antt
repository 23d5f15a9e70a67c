-- ===== src/Nulls/Texts.antt =====
-- null_guard.rs: the default of a column as text, and the texts of the warnings.
use quickhouse.Prelude.{
  ℕ, Bool, true, false, ◌||◌, Option, none, some, List, [], ◌∷◌, ◌++◌, all, ◌==◌, if◌then◌else◌,
  unwrap_or, ◌>>=◌,
}
use quickhouse.Prelude.Text.{Text, codes, text_eq, trim, is_digit, split_once, show_ℕ}
use quickhouse.Arrow.{DataType}
use quickhouse.Kinds.{WarningKind, kind_eq}
use quickhouse.Nulls.{NotNullBy, order_by, primary_key, not_null, engine}
use quickhouse.Nulls.Enums.{enum_default, strip_last}

unfoldable pub why : NotNullBy → Text
why order_by = codes "order_by names it, and a sorting key column can't be NULL"
why primary_key = codes "primary_key names it, and a primary key column can't be NULL"
why not_null = codes "not_null names it"
why engine = codes "the table engine names it, and an engine's sign or version column can't be NULL"

unfoldable pub shown_zero : DataType → Text
shown_zero DataType.utf8 = codes "''"
shown_zero DataType.large_utf8 = codes "''"
shown_zero DataType.binary = codes "empty bytes"
shown_zero DataType.large_binary = codes "empty bytes"
shown_zero (DataType.fixed_size_binary n) = codes "zero bytes"
shown_zero DataType.boolean = codes "false"
shown_zero DataType.date32 = codes "1970-01-01"
shown_zero DataType.date64 = codes "1970-01-01"
shown_zero (DataType.timestamp unit (some tz)) = codes "1970-01-01 00:00:00 UTC"
shown_zero (DataType.timestamp unit none) = codes "1970-01-01 00:00:00"
shown_zero _ = codes "0"

abbrev pub strip_prefix : Text → Text → Option Text
strip_prefix [] s = some s
strip_prefix (p ∷ ps) [] = none
strip_prefix (p ∷ ps) (c ∷ s) = if p == c then strip_prefix ps s else none

unfoldable pub strip_wrapper : Text → Text → Option Text
unfolding trim
strip_wrapper inner name = do
  s ← strip_prefix name inner
  s' ← strip_prefix (b'(' ∷ []) s
  body ← strip_last b')' s'
  some (trim body)

abbrev starts_with : Text → Text → Bool
starts_with p s = elim (strip_prefix p s) [ none ↦ false | some r ↦ true ]

-- What `split('(').next()` gives.
abbrev up_to_paren : Text → Text
up_to_paren s = elim (split_once b'(' s) [ none ↦ s | some (a, b) ↦ a ]

abbrev all_digits : Text → Bool
all_digits [] = false
all_digits (c ∷ s) = all is_digit (c ∷ s)

abbrev is_width : Option Text → Option Text → Bool
is_width none none = false
is_width none (some s) = all_digits s
is_width (some s) o = all_digits s

abbrev is_integer_type : Text → Bool
is_integer_type name = is_width (strip_prefix (codes "UInt") name) (strip_prefix (codes "Int") name)

abbrev one_of : List Text → Text → Bool
one_of [] name = false
one_of (n ∷ ns) name = text_eq name n || one_of ns name

abbrev default_by_name : Text → Text → Option Text
default_by_name name ty =
    if text_eq name (codes "UUID")
    then some (codes "00000000-0000-0000-0000-000000000000")
    else if text_eq name (codes "IPv4")
    then some (codes "0.0.0.0")
    else if text_eq name (codes "IPv6")
    then some (codes "::")
    else if text_eq name (codes "Bool")
    then some (codes "false")
    else if one_of (codes "Enum" ∷ codes "Enum8" ∷ codes "Enum16" ∷ []) name
    then enum_default ty
    else if one_of (codes "Float32" ∷ codes "Float64" ∷ codes "BFloat16" ∷ []) name
    then some (codes "0")
    else if starts_with (codes "Decimal") name
    then some (codes "0")
    else if is_integer_type name
    then some (codes "0")
    else none

abbrev unwrap : Text → Text → Text
unfolding strip_wrapper
unwrap ty wrapper = unwrap_or (strip_wrapper ty wrapper) ty

unfoldable pub clickhouse_text_default : Text → Option Text
unfolding strip_wrapper trim split_once enum_default
clickhouse_text_default ty =
    let ty' = unwrap (unwrap (trim ty) (codes "LowCardinality")) (codes "Nullable") in
    default_by_name (trim (up_to_paren ty')) ty'

pub data NullFate : Type 0 where
  left_out : WarningKind → NullFate
  default : NotNullBy → Text → NullFate

unfoldable pub left_out_message : WarningKind → Text → ℕ → Text
left_out_message kind column n =
    let cursor =
      codes "An incremental run's cursor still moves past them, so they aren't read again unless "
      ++ codes "they change." in
    if kind_eq kind WarningKind.null_key
    then codes "key column '"
      ++ column
      ++ codes "' was NULL in "
      ++ show_ℕ n
      ++ codes " row(s) read, which were left out: a key can't be NULL at the destination "
      ++ codes "(ClickHouse sorts and replaces rows by it, and a NULL never matches in a BigQuery "
      ++ codes "MERGE, so the row would be added again on every run). A value quickhouse couldn't "
      ++ codes "read there counts too (see the coerced_* warning on '"
      ++ column
      ++ codes "'). "
      ++ cursor
      ++ codes " Give those rows a key in the source, or name null_key in "
      ++ codes "fail_on_warnings to fail the run on them."
    else codes "watermark column '"
      ++ column
      ++ codes "' was NULL in "
      ++ show_ℕ n
      ++ codes " row(s) read, which were left out: the destination's '"
      ++ column
      ++ codes
          "' can't be NULL (a ReplacingMergeTree's version column, or a key), so they are left "
      ++ codes
          "out as a database read leaves out a row whose watermark is NULL. A value quickhouse "
      ++ codes "couldn't read there counts too (see coerced_date). "
      ++ cursor
      ++ codes " Give those rows a watermark in the source, or name null_watermark in "
      ++ codes "fail_on_warnings to fail the run on them."

abbrev reason : Option NullFate → Text × Text
unfolding why
reason (some (default by shown)) = (why by, shown)
reason _ = (codes "the plan makes it NOT NULL", codes "its type's default")

unfoldable pub defaulted_message : Text → ℕ → Option NullFate → Text
unfolding why
defaulted_message column n fate =
    let (why_not, shown) = reason fate in
    codes "column '"
    ++ column
    ++ codes "' was NULL in "
    ++ show_ℕ n
    ++ codes " row(s) read, which were written with "
    ++ shown
    ++ codes ", the column type's default, in its place: the destination's '"
    ++ column
    ++ codes "' can't be NULL, as "
    ++ why_not
    ++ codes ". A value quickhouse couldn't read there counts too (see the coerced_* warning on '"
    ++ column
    ++ codes "'). Give those rows a value in the source, or name null_defaulted in "
    ++ codes "fail_on_warnings to fail the run on them."
