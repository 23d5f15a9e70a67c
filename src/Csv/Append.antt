-- ===== src/Csv/Append.antt =====
-- sink/csv.rs: `insert_select`, which moves the parts of a staging folder into a table's folder. A
-- folder is what it holds under each file name. Whether a rename or a write of the file system
-- succeeds is a parameter, the outcome for each file; the lock that keeps other runs out is held
-- throughout.
use quickhouse.Prelude.{Bool, ◌&&◌, Option, none, some, List, [], ◌∷◌, ◌++◌, if◌then◌else◌, is_some}
use quickhouse.Prelude.Text.{Text, codes, text_eq}
use quickhouse.Errors.{EtlError}
use quickhouse.Csv.Folder.{
  PartInfo, ManifestColumn, Manifest, CsvDestConfig, row_sum, new, names_of, layout_differences,
  layout_error,
}

-- What is at a table's path.
pub data Folder : Type 0 where
  missing empty : Folder
  table : Manifest → Folder

-- The files of the destination's folder and of the staging folder, and the destination's manifest.
pub record Disk (File : Type 0) : Type 0 where
  pub dest : Text → Option File
  pub from : Text → Option File
  pub folder : Folder

-- Whether the file system does what it is asked to: a part moved into place, one moved back, and
-- the write of the manifest.
pub record Outcomes : Type 0 where
  pub moves : Text → Bool
  pub moves_back : Text → Bool
  pub writes : Bool

pub data Moved (File : Type 0) : Type 0 where
  done : List Text → Disk File → Moved File
  stopped : EtlError → Disk File → Moved File

abbrev pub listed_with : Manifest → List PartInfo → Manifest
listed_with m parts = record m { parts = m.parts ++ parts; rows = row_sum (m.parts ++ parts) }

abbrev pub with_columns : Manifest → List ManifestColumn → Manifest
with_columns m columns = record m { columns = columns }

module _ {File : Type 0} (io : Outcomes) where
  -- `rename`, of a file that is there.
  abbrev pub move : Text → Disk File → Disk File
  move f d = record d {
    dest = λ g. if text_eq g f then d.from f else d.dest g;
    from = λ g. if text_eq g f then none else d.from g;
  }

  abbrev pub move_back : Text → Disk File → Disk File
  move_back f d = record d {
    dest = λ g. if text_eq g f then none else d.dest g;
    from = λ g. if text_eq g f then d.dest f else d.from g;
  }

  abbrev pub back : Text → Disk File → Disk File
  back f d = if io.moves_back f && is_some (d.dest f) then move_back f d else d

  -- The parts that were moved, the last one first.
  unfoldable pub undo : List Text → Disk File → Disk File
  undo [] d = d
  undo (f ∷ moved) d = undo moved (back f d)

  -- The loop over the parts.
  unfoldable pub move_parts : List PartInfo → List Text → Disk File → Moved File
  unfolding undo
  move_parts [] moved d = done moved d
  move_parts (p ∷ ps) moved d =
      let next = move_parts ps (p.file ∷ moved) (move p.file d) in
      if is_some (d.dest p.file)
      then stopped
          (EtlError.other (codes "csv destination: '" ++ p.file ++ codes "' exists already"))
          (undo moved d)
      else if io.moves p.file && is_some (d.from p.file)
      then next
      else stopped (EtlError.io_error (codes "move into place")) (undo moved d)

  abbrev pub write_listed : Manifest → List PartInfo → Moved File → Option EtlError × Disk File
  write_listed m parts (stopped e d) = (some e, d)
  write_listed m parts (done moved d) =
      if io.writes
      then (none, record d { folder = table (listed_with m parts) })
      else (some (EtlError.io_error (codes "write")), undo moved d)

  module _ (debug : Text → Text) (dir : Text) (cfg : CsvDestConfig) (staged : Manifest) where
    abbrev pub add_parts : Manifest → Disk File → Option EtlError × Disk File
    add_parts m d = write_listed m staged.parts (move_parts staged.parts [] d)

    abbrev pub if_same : Manifest → List Text → Disk File → Option EtlError × Disk File
    if_same m [] d = add_parts m d
    if_same m (diff ∷ diffs) d = (some (layout_error debug dir (diff ∷ diffs)), d)

    abbrev pub into_table : Manifest → List ManifestColumn → Disk File → Option EtlError × Disk File
    into_table m [] d = add_parts (with_columns m staged.columns) d
    into_table m (c ∷ cs) d = if_same m (layout_differences debug m (names_of staged) cfg) d

    abbrev pub into_folder : Folder → Disk File → Option EtlError × Disk File
    into_folder missing d =
        (some (EtlError.other (codes "csv destination: '" ++ dir ++ codes "' disappeared")), d)
    into_folder empty d = let m = new cfg staged.columns [] in into_table m m.columns d
    into_folder (table m) d = into_table m m.columns d

    -- `insert_select`, with the staging table's manifest: its error, and what is on disk after it.
    unfoldable pub insert_select : Disk File → Option EtlError × Disk File
    unfolding undo move_parts layout_error layout_differences new
    insert_select d = into_folder d.folder d
