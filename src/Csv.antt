-- ===== src/Csv.antt =====
-- sink/csv_writer.rs: the text of rows, and the name of a part. What arrow's display, base64 and
-- chrono make of a value is a text here; a boolean is written by the writer itself.
pub mod Fields
pub mod Rows
pub mod Parts
pub mod Split
pub mod Staged
pub mod Manifest
pub mod Folder
pub mod Layout
pub mod Append
pub mod Atomic
pub mod Swap
pub mod State
pub mod Tests
use quickhouse.Prelude.{
  ℕ, zero, suc, ◌+◌, ◌-◌, Bool, true, false, not, ◌&&◌, ◌||◌, Option, none, some, List, [], ◌∷◌,
  ◌++◌, any, replicate, length, ltb, leb, ◌==◌, if◌then◌else◌,
}
use quickhouse.Prelude.Text.{Text, codes, show_ℕ}

abbrev pub quote : ℕ
quote = b'"'

abbrev pub cr : ℕ
cr = 13

abbrev pub lf : ℕ
lf = 10

-- `check_delimiter` accepts it.
unfoldable pub check_delimiter : ℕ → Bool
check_delimiter d = ltb d 128 && not (d == quote || d == cr || d == lf)

abbrev pub is_special : ℕ → ℕ → Bool
is_special d b = b == d || b == quote || b == lf || b == cr

-- Each double quote twice.
abbrev pub doubled : Text → Text
doubled [] = []
doubled (b ∷ s) = if b == quote then b ∷ b ∷ doubled s else b ∷ doubled s

unfoldable pub push_field : Text → Text → ℕ → Text
push_field out [] delimiter = out ++ quote ∷ quote ∷ []
push_field out (b ∷ value) delimiter =
    if any (is_special delimiter) (b ∷ value)
    then out ++ quote ∷ (doubled (b ∷ value) ++ quote ∷ [])
    else out ++ b ∷ value

-- A value as its column's encoder gives it.
pub data Cell : Type 0 where
  null : Cell
  text : Text → Cell
  boolean : Bool → Cell

-- `Column::push`
unfoldable pub push_cell : Text → Cell → ℕ → Text
unfolding push_field
push_cell out null delimiter = out
push_cell out (text s) delimiter = push_field out s delimiter
push_cell out (boolean true) delimiter = out ++ codes "true"
push_cell out (boolean false) delimiter = out ++ codes "false"

-- The fields after the first of a row, each behind a delimiter, and the end of the row.
unfoldable pub push_rest : Text → List Cell → ℕ → Text
unfolding push_cell
push_rest out [] delimiter = out ++ lf ∷ []
push_rest out (c ∷ cs) delimiter =
    push_rest (push_cell (out ++ delimiter ∷ []) c delimiter) cs delimiter

unfoldable pub push_row : Text → List Cell → ℕ → Text
unfolding push_cell push_rest
push_row out [] delimiter = out ++ lf ∷ []
push_row out (c ∷ cs) delimiter = push_rest (push_cell out c delimiter) cs delimiter

-- The rows of a batch.
unfoldable pub push_rows : Text → List (List Cell) → ℕ → Text
unfolding push_row
push_rows out [] delimiter = out
push_rows out (r ∷ rs) delimiter = push_rows (push_row out r delimiter) rs delimiter

names_from : Text → List Text → ℕ → Text
names_from out [] delimiter = out ++ lf ∷ []
names_from out (n ∷ ns) delimiter =
    names_from (push_field (out ++ delimiter ∷ []) n delimiter) ns delimiter

unfoldable pub push_header : Text → List Text → ℕ → Text
unfolding push_field names_from
push_header out [] delimiter = out ++ lf ∷ []
push_header out (n ∷ ns) delimiter = names_from (push_field out n delimiter) ns delimiter

-- `{n:05}`
abbrev pad : ℕ → Text → Text
pad width s = replicate (width - length s) b'0' ++ s

-- `PartFormat::file_name`
unfoldable pub file_name : Bool → Text → ℕ → Text
unfolding show_ℕ
file_name gzip run_id n =
    codes "part-"
    ++ run_id
    ++ codes "-"
    ++ pad 5 (show_ℕ n)
    ++ codes "."
    ++ (if gzip then codes "csv.gz" else codes "csv")
