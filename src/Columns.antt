-- ===== src/Columns.antt =====
-- sink/mod.rs: the comparison of a destination's columns with those that are written, and the delay
-- between two attempts. A set of names is a list.
pub mod Evolve
pub mod Exact
pub mod Tests
use quickhouse.Prelude.{
  ℕ, ◌+◌, ◌-◌, ◌*◌, ◌^◌, Bool, true, false, not, ◌&&◌, List, [], ◌∷◌, map, min, any, leb,
  if◌then◌else◌,
}
use quickhouse.Prelude.Text.{Text, text_eq}
use quickhouse.Arrow.{ColumnType}

-- `to_ascii_lowercase`
abbrev pub lower : ℕ → ℕ
lower c = if leb b'A' c && leb c b'Z' then c + 32 else c

unfoldable pub column_key : Text → Bool → Text
column_key name case_insensitive = if case_insensitive then map lower name else name

-- Whether some name is the same column as `name`.
unfoldable pub has_column : List Text → Text → Bool → Bool
unfolding column_key
has_column names name case_insensitive =
    any (λ n. text_eq (column_key n case_insensitive) (column_key name case_insensitive)) names

abbrev pub filter {ℓ} : {A : Type ℓ} → (A → Bool) → List A → List A
filter p [] = []
filter p (x ∷ xs) = if p x then x ∷ filter p xs else filter p xs

abbrev pub names_of : List ColumnType → List Text
names_of cs = map (λ (c : ColumnType). c.name) cs

unfoldable pub missing_columns : List Text → List ColumnType → Bool → List ColumnType
unfolding has_column
missing_columns existing desired case_insensitive =
    filter (λ (c : ColumnType). not (has_column existing c.name case_insensitive)) desired

unfoldable pub dropped_columns : List Text → List ColumnType → Bool → List Text
unfolding missing_columns
dropped_columns [] written case_insensitive = []
dropped_columns (e ∷ existing) written case_insensitive =
    names_of (missing_columns (e ∷ existing) written case_insensitive)

unfoldable pub unsourced_columns : List Text → List ColumnType → Bool → List Text
unfolding has_column
unsourced_columns existing written case_insensitive =
    filter (λ name. not (has_column (names_of written) name case_insensitive)) existing

-- `BACKOFF_BASE_MS`
abbrev backoff_base_ms : ℕ
backoff_base_ms = 250

-- In milliseconds.
unfoldable pub backoff_delay : ℕ → ℕ
backoff_delay attempt = backoff_base_ms * 2 ^ min (attempt - 1) 6
