-- ===== src/Csv/Tests.antt =====
-- Tests of the CSV writer.
use quickhouse.Prelude.{
  ℕ, suc, ◌≡◌, ◌↔◌, refl, inr, Bool, true, false, not, Option, none, some, List, [], ◌∷◌, map,
  length, any, ltb, if◌then◌else◌, pos,
}
use quickhouse.Prelude.Text.{Text, codes, text_eq}
use quickhouse.Csv.{
  check_delimiter, Cell, null, text, boolean, push_row, push_rows, push_header, file_name,
}
use quickhouse.Csv.Fields.{meaning}
use quickhouse.Csv.Rows.{read_rows, read_rows-push_rows}
use quickhouse.Csv.Parts.{Part, StagedState, insert_stream_batches}
use quickhouse.Csv.Staged.{Insert, insert_all}
use quickhouse.Csv.Manifest.{empty_table}
use quickhouse.Csv.Folder
use quickhouse.Csv.Folder.{
  PartInfo, ManifestColumn, Manifest, CsvDestConfig, label, layout_differences,
}
use quickhouse.Csv.Layout.{layout_differences_exact}
use quickhouse.Csv.Append.{Disk, table, Outcomes, insert_select}
use quickhouse.Csv.Atomic.{AllOrNothing, insert_select-AllOrNothing}
use quickhouse.Csv.Swap.{Calls, Swapped, swap_dirs, swap_dirs-Swapped}
use quickhouse.Csv.State.{
  KeyConfig, persist_watermark, read_last_watermark, same_entry, non_empty,
  read_last_watermark-persist,
}

abbrev names : List Text
names = codes "note" ∷ codes "paid" ∷ []

abbrev rows : List (List Cell)
rows =
    (text (codes "1") ∷ text (codes "a,b") ∷ boolean true ∷ [])
    ∷ (text (codes "2") ∷ text [] ∷ null ∷ [])
    ∷ []

quoted :
    push_row [] (text (codes "1") ∷ text (codes "a,b") ∷ text [] ∷ null ∷ []) b','
    ≡ codes "1,\"a,b\",\"\",\n"
unfolding push_row
quoted = refl

part_name : file_name true (codes "77") 12 ≡ codes "part-77-00012.csv.gz"
unfolding file_name
part_name = refl

comma : check_delimiter b',' ≡ true
unfolding check_delimiter
comma = refl

read_rows-push_rows_example :
    read_rows
      (suc (length rows))
      b','
      (length names)
      (push_rows (push_header [] (codes "id" ∷ names) b',') rows b',')
    ≡ some (map some (codes "id" ∷ names) ∷ map (map meaning) rows)
read_rows-push_rows_example =
    read_rows-push_rows b',' (codes "id") names rows comma
      ((refl, tt, (tt, (refl, tt))), ((refl, tt, (tt, (tt, tt))), tt))

-- A staged table with parts of at most two rows.
abbrev inserts : List (Insert ℕ)
inserts =
    (codes "p0", (1 ∷ 2 ∷ 3 ∷ []) ∷ (4 ∷ []) ∷ [])
    ∷ (codes "p1", (5 ∷ []) ∷ [])
    ∷ (codes "p0", (6 ∷ []) ∷ [])
    ∷ []

abbrev by_number : Part ℕ → Part ℕ → Bool
by_number p q = ltb p.number q.number

abbrev state_after : StagedState ℕ
state_after = record {
  idle =
      (codes "p0", record { number = 3; rows = 6 ∷ [] } ∷ [])
      ∷ (codes "p1", record { number = 2; rows = 5 ∷ [] } ∷ [])
      ∷ [];
  parts = record { number = 0; rows = 1 ∷ 2 ∷ [] } ∷ record { number = 1; rows = 3 ∷ 4 ∷ [] } ∷ [];
  next_part = 4;
  finished = none;
}

inserted : insert_all 2 empty_table inserts ≡ inr state_after
unfolding insert_all insert_stream_batches
inserted = refl

-- A folder, and a staged part of it.
abbrev config : CsvDestConfig
config = record { delimiter = b','; header = true; gzip = false }

abbrev id_columns : List ManifestColumn
id_columns = record { name = codes "id"; arrow_type = codes "Int64" } ∷ []

abbrev part : Text → ℕ → PartInfo
part file rows = record { file = file; rows = rows; bytes = 10 }

abbrev listed : Manifest
listed = Folder.new config id_columns (part (codes "a.csv") 5 ∷ [])

abbrev staged : Manifest
staged = Folder.new config id_columns (part (codes "b.csv") 3 ∷ part (codes "c.csv") 4 ∷ [])

abbrev holds : List Text → Text → Option ℕ
holds names f = if any (text_eq f) names then some 1 else none

abbrev disk : Disk ℕ
disk = record {
  dest = holds (codes "a.csv" ∷ []);
  from = holds (codes "b.csv" ∷ codes "c.csv" ∷ []);
  folder = table listed;
}

-- The second part can't be moved.
abbrev stuck_at_c : Outcomes
stuck_at_c = record {
  moves = λ f. not (text_eq f (codes "c.csv"));
  moves_back = λ f. true;
  writes = true;
}

abbrev plain_debug : Text → Text
plain_debug s = s

layout_differences_exact_example :
    (layout_differences plain_debug listed (codes "id" ∷ []) config ≡ []) ↔ (
      (Folder.names_of listed ≡ codes "id" ∷ [])
      × (listed.delimiter ≡ b',')
      × (listed.header ≡ true)
      × (listed.compression ≡ label false))
layout_differences_exact_example =
    layout_differences_exact plain_debug listed (codes "id" ∷ []) config

insert_select-AllOrNothing_example :
    AllOrNothing config staged disk
      (insert_select stuck_at_c plain_debug (codes "orders") config staged disk)
insert_select-AllOrNothing_example =
    insert_select-AllOrNothing stuck_at_c (λ f. refl) plain_debug (codes "orders") config staged
      disk

-- No exchange, and the new folder can't be moved in.
abbrev blocked : Calls
blocked = record {
  exchanges = false;
  moves_aside = true;
  moves_in = false;
  moves_back = true;
  moves_out = true;
  removes = true;
}

swap_dirs-Swapped_example :
    Swapped {Folder = ℕ} blocked
      (some 1)
      2
      (swap_dirs blocked (record { dest = some 1; staging = some 2; aside = none }))
swap_dirs-Swapped_example = swap_dirs-Swapped {Folder = ℕ} blocked (some 1) 2

abbrev orders_run : KeyConfig
orders_run = record {
  state_key = none;
  source_table = some (codes "orders");
  source_query = none;
  dest_table = codes "orders";
}

abbrev users_run : KeyConfig
users_run = record orders_run { source_table = some (codes "users") }

read_last_watermark-persist_example :
    read_last_watermark users_run
      (persist_watermark orders_run (codes "2024-01-01") 10 (codes "now") (pos 5) [])
    ≡ (if same_entry orders_run users_run
        then non_empty (codes "2024-01-01")
        else read_last_watermark users_run [])
read_last_watermark-persist_example =
    read_last_watermark-persist orders_run users_run (codes "2024-01-01") 10 (codes "now") (pos 5)
      []
