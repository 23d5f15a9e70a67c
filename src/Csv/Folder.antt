-- ===== src/Csv/Folder.antt =====
-- sink/csv.rs: the manifest of a table's folder, and how a folder differs from what a run writes.
use quickhouse.Prelude.{
  ℕ, Bool, true, false, not, ◌&&◌, Option, none, some, List, [], ◌∷◌, ◌++◌, map, any, sum, ◌==◌,
  if◌then◌else◌,
}
use quickhouse.Prelude.Text.{join, Text, codes, text_eq}
use quickhouse.Columns.{filter}
use quickhouse.Errors.{EtlError}

pub record PartInfo : Type 0 where
  pub file : Text
  pub rows : ℕ
  pub bytes : ℕ

pub record ManifestColumn : Type 0 where
  pub name : Text
  pub arrow_type : Text

pub record Manifest : Type 0 where
  pub format : Text
  pub version : ℕ
  pub columns : List ManifestColumn
  pub delimiter : ℕ
  pub header : Bool
  pub compression : Option Text
  pub rows : ℕ
  pub parts : List PartInfo

pub record CsvDestConfig : Type 0 where
  pub delimiter : ℕ
  pub header : Bool
  pub gzip : Bool

-- `CsvCompression::label`
abbrev pub label : Bool → Option Text
label true = some (codes "gzip")
label false = none

abbrev pub row_sum : List PartInfo → ℕ
row_sum parts = sum (map (λ (p : PartInfo). p.rows) parts)

-- `Manifest::new`
unfoldable pub new : CsvDestConfig → List ManifestColumn → List PartInfo → Manifest
new cfg columns parts = record {
  format = codes "quickhouse-csv";
  version = 1;
  columns = columns;
  delimiter = cfg.delimiter;
  header = cfg.header;
  compression = label cfg.gzip;
  rows = row_sum parts;
  parts = parts;
}

-- `Manifest::names`
abbrev pub names_of : Manifest → List Text
names_of m = map (λ (c : ManifestColumn). c.name) m.columns

abbrev pub same_names : List Text → List Text → Bool
same_names [] [] = true
same_names [] (b ∷ bs) = false
same_names (a ∷ as') [] = false
same_names (a ∷ as') (b ∷ bs) = text_eq a b && same_names as' bs

abbrev pub same_bool : Bool → Bool → Bool
same_bool true b = b
same_bool false b = not b

abbrev pub same_label : Option Text → Option Text → Bool
same_label none none = true
same_label none (some b) = false
same_label (some a) none = false
same_label (some a) (some b) = text_eq a b

abbrev pub not_among : List Text → List Text → List Text
not_among others names = filter (λ n. not (any (λ o. text_eq o n) others)) names

abbrev pub py_bool : Bool → Text
py_bool true = codes "True"
py_bool false = codes "False"

abbrev pub listed_as : Text → Text → List Text → List Text
listed_as before after [] = []
listed_as before after (n ∷ ns) = (before ++ join (codes ", ") (n ∷ ns) ++ after) ∷ []

abbrev pub order_as : List Text → List Text → List Text → List Text → List Text
order_as have names [] [] =
    (codes "the columns are in another order: the folder's parts have ["
      ++ join (codes ", ") have
      ++ codes "], this run writes ["
      ++ join (codes ", ") names
      ++ codes "]")
    ∷ []
order_as have names _ _ = []

abbrev pub column_differences : List Text → List Text → List Text
column_differences have names =
    let missing = not_among names have in
    let added = not_among have names in
    listed_as (codes "this run doesn't write column(s) ") (codes " that the folder's parts have")
      missing
    ++ (listed_as (codes "this run writes column(s) ") (codes " that the folder's parts don't have")
          added
        ++ order_as have names missing added)

-- `debug` is how `{:?}` prints a text.
module _ (debug : Text → Text) where
  abbrev pub py_opt : Option Text → Text
  py_opt none = codes "None"
  py_opt (some s) = debug s

  unfoldable pub layout_differences : Manifest → List Text → CsvDestConfig → List Text
  layout_differences m names cfg =
      (if same_names (names_of m) names then [] else column_differences (names_of m) names)
      ++ ((if m.delimiter == cfg.delimiter
            then []
            else (codes "the folder's parts use delimiter "
                ++ debug (m.delimiter ∷ [])
                ++ codes " and this run "
                ++ debug (cfg.delimiter ∷ []))
              ∷ [])
          ++ ((if same_bool m.header cfg.header
                then []
                else (codes "the folder's parts were written with header="
                    ++ py_bool m.header
                    ++ codes " and this run has header="
                    ++ py_bool cfg.header)
                  ∷ [])
              ++ (if same_label m.compression (label cfg.gzip)
                  then []
                  else (codes "the folder's parts have compression="
                      ++ py_opt m.compression
                      ++ codes " and this run compression="
                      ++ py_opt (label cfg.gzip))
                    ∷ [])))

  -- `layout_error`, with the folder's path.
  unfoldable pub layout_error : Text → List Text → EtlError
  layout_error dir diffs = EtlError.config (
      codes "can't append to '"
      ++ dir
      ++ codes "': "
      ++ join (codes "; ") diffs
      ++ codes ". Every part in a CSV table's folder shares one column layout and format, so "
      ++ codes "readers can read the folder as one table, and evolve_schema isn't supported for a "
      ++ codes "CSV destination. Run mode=\"full\" once to rewrite the folder with this run's "
      ++ codes "columns, or append to a new dest_table")
