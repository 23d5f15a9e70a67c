-- ===== src/Csv/Atomic.antt =====
-- Adding parts to a folder is all or nothing.
use quickhouse.Prelude.{
  ◌≡◌, refl, ap, sym, ◌∙◌, inl, inr, Bool, true, false, ◌&&◌, Option, none, some, List, [], ◌∷◌,
  ◌++◌, any, arith, Bool-cases, if◌then◌else◌, is_some,
}
use std.Path.{fun_ext}
use quickhouse.Prelude.Text.{Text, text_eq, text_eq→eq, text_eq_refl}
use quickhouse.Errors.{EtlError}
use quickhouse.Csv.Folder.{
  PartInfo, ManifestColumn, Manifest, CsvDestConfig, row_sum, new, names_of, layout_differences,
}
use quickhouse.Csv.Layout.{layout_differences_exact}
use quickhouse.Csv.Append.{
  Folder, missing, empty, table, Disk, Outcomes, Moved, done, stopped, listed_with, with_columns,
  move, back, undo, move_parts, write_listed, add_parts, if_same, into_table, into_folder,
  insert_select,
}

is_none : {A : Type 0} (o : Option A) → is_some o ≡ false → o ≡ none
is_none none h = refl
is_none (some a) h = cc

-- Whether the file is one of the parts.
abbrev pub has : List PartInfo → Text → Bool
has ps f = any (λ (p : PartInfo). text_eq f p.file) ps

module _ {File : Type 0} (io : Outcomes) (backs : (f : Text) → io.moves_back f ≡ true) where
  same_disk :
      (d : Disk File) (a b : Text → Option File)
      → a ≡ d.dest
      → b ≡ d.from
      → record d { dest = a; from = b } ≡ d
  same_disk d a b p q = rw (p, q) refl

  -- A part that was moved is moved back to where it was.
  back-move :
      (f : Text) (d : Disk File)
      → d.dest f ≡ none
      → is_some (d.from f) ≡ true
      → back io f (move io f d) ≡ d
  back-move f d free there =
      rw (backs f, text_eq_refl f, there)
        (same_disk d _ _
          (fun_ext (λ g. elim (Bool-cases (text_eq g f)) [
            | inl e ↦ rw e (sym free ∙ ap d.dest (sym (text_eq→eq g f e)))
            | inr e ↦ rw e refl
          ]))
          (fun_ext (λ g. elim (Bool-cases (text_eq g f)) [
            | inl e ↦ rw e (ap d.from (sym (text_eq→eq g f e)))
            | inr e ↦ rw e refl
          ])))

  -- After the loop over the parts `ps` from the disk `d`.
  abbrev Moves : List PartInfo → List Text → Disk File → Moved File → Type 0
  Moves ps moved d (stopped e d') = d' ≡ undo io moved d
  Moves ps moved d (done moved' d') =
      (undo io moved' d' ≡ undo io moved d)
      × (d'.folder ≡ d.folder)
      × ((f : Text) → d'.dest f ≡ (if has ps f then d.from f else d.dest f))
      × ((f : Text) → d'.from f ≡ (if has ps f then none else d.from f))
      × ((f : Text) → has ps f ≡ true → d.dest f ≡ none)

  -- A name that is among the parts twice would have stopped the loop.
  twice :
      {P : Type 0} (p : PartInfo) (d : Disk File) (f : Text)
      → text_eq f p.file ≡ true
      → is_some (d.from p.file) ≡ true
      → (move io p.file d).dest f ≡ none
      → P
  twice p d f e there h =
      let gone : d.from p.file ≡ none = rw e at h in
      let clash : true ≡ false = sym there ∙ ap is_some gone in cc

  either : (b : Bool) → if◌then◌else◌ {A = Option File} b none none ≡ none
  either true = refl
  either false = refl

  moved_on :
      (p : PartInfo) (ps : List PartInfo) (moved : List Text) (d : Disk File) (r : Moved File)
      → d.dest p.file ≡ none
      → is_some (d.from p.file) ≡ true
      → Moves ps (p.file ∷ moved) (move io p.file d) r
      → Moves (p ∷ ps) moved d r
  unfolding undo
  moved_on p ps moved d (stopped e d') free there h =
      h ∙ ap (undo io moved) (back-move p.file d free there)
  moved_on p ps moved d (done moved' d') free there (h, fo, de, fr, fre) = (
    h ∙ ap (undo io moved) (back-move p.file d free there),
    fo,
    λ f. elim (Bool-cases (text_eq f p.file)) [
      | inl e ↦ elim (Bool-cases (has ps f)) [
        | inl l ↦ twice p d f e there (fre f l)
        | inr l ↦ de f ∙ rw l (rw e (ap d.from (sym (text_eq→eq f p.file e))))
      ]
      | inr e ↦ de f ∙ rw e refl
    ],
    λ f. elim (Bool-cases (text_eq f p.file)) [
      | inl e ↦ fr f ∙ rw e (either (has ps f))
      | inr e ↦ fr f ∙ rw e refl
    ],
    λ f l. elim (Bool-cases (text_eq f p.file)) [
      | inl e ↦ ap d.dest (text_eq→eq f p.file e) ∙ free
      | inr e ↦ let z = fre f (rw e at l) in rw e at z
    ],
  )

  move_parts-Moves :
      (ps : List PartInfo) (moved : List Text) (d : Disk File)
      → Moves ps moved d (move_parts io ps moved d)
  unfolding move_parts
  move_parts-Moves [] moved d = (refl, refl, λ f. refl, λ f. refl, λ f h. cc)
  move_parts-Moves (p ∷ ps) moved d = elim (Bool-cases (is_some (d.dest p.file))) [
    | inl e ↦ rw e refl
    | inr e ↦ elim (Bool-cases (io.moves p.file && is_some (d.from p.file))) [
      | inl m ↦
          rw (e, m)
            (moved_on p ps moved d (move_parts io ps (p.file ∷ moved) (move io p.file d))
              (is_none (d.dest p.file) e) (ground arith)
              (move_parts-Moves ps (p.file ∷ moved) (move io p.file d)))
      | inr m ↦ rw (e, m) refl
    ]
  ]

  -- The parts are in the folder, and listed, behind those that were; or nothing has changed.
  abbrev pub Added : Manifest → List PartInfo → Disk File → Option EtlError × Disk File → Type 0
  Added m parts d (some e, d') = d' ≡ d
  Added m parts d (none, d') =
      (d'.folder ≡ table (listed_with m parts))
      × ((f : Text) → d'.dest f ≡ (if has parts f then d.from f else d.dest f))
      × ((f : Text) → d'.from f ≡ (if has parts f then none else d.from f))

  write_listed-Added :
      (m : Manifest) (parts : List PartInfo) (d : Disk File) (r : Moved File)
      → Moves parts [] d r
      → Added m parts d (write_listed io m parts r)
  unfolding undo
  write_listed-Added m parts d (stopped e d') h = h
  write_listed-Added m parts d (done moved d') (h, fo, de, fr, fre) = elim (Bool-cases io.writes) [
    | inl w ↦ rw w (refl, de, fr)
    | inr w ↦ rw w h
  ]

abbrev pub parts_of : Folder → List PartInfo
parts_of missing = []
parts_of empty = []
parts_of (table m) = m.parts

-- What an append is to make of a disk, for the staged parts of a manifest: all of them added, with
-- an updated manifest, or nothing changed.
abbrev pub AllOrNothing :
    {File : Type 0} → CsvDestConfig → Manifest → Disk File → Option EtlError × Disk File → Type 0
AllOrNothing cfg staged d (some e, d') = d' ≡ d
AllOrNothing cfg staged d (none, d') =
    (m : Manifest) × (d'.folder ≡ table m)
    × (names_of m ≡ names_of staged)
    × (m.parts ≡ parts_of d.folder ++ staged.parts)
    × (m.rows ≡ row_sum m.parts)
    × ((f : Text) → d'.dest f ≡ (if has staged.parts f then d.from f else d.dest f))
    × ((f : Text) → d'.from f ≡ (if has staged.parts f then none else d.from f))

module _ {File : Type 0} (io : Outcomes) (backs : (f : Text) → io.moves_back f ≡ true)
    (debug : Text → Text) (dir : Text) (cfg : CsvDestConfig) (staged : Manifest) where
  Added-AllOrNothing :
      (m : Manifest) (d : Disk File) (r : Option EtlError × Disk File)
      → m.parts ≡ parts_of d.folder
      → names_of m ≡ names_of staged
      → Added io backs m staged.parts d r
      → AllOrNothing cfg staged d r
  Added-AllOrNothing m d (some e, d') p q h = h
  Added-AllOrNothing m d (none, d') p q (fo, de, fr) =
      (listed_with m staged.parts, fo, q, ap (λ ps. ps ++ staged.parts) p, refl, de, fr)

  add_parts-AllOrNothing :
      (m : Manifest) (d : Disk File)
      → m.parts ≡ parts_of d.folder
      → names_of m ≡ names_of staged
      → AllOrNothing cfg staged d (add_parts io debug dir cfg staged m d)
  add_parts-AllOrNothing m d p q =
      Added-AllOrNothing m d (add_parts io debug dir cfg staged m d) p q (
        write_listed-Added io backs m staged.parts d (move_parts io staged.parts [] d)
          (move_parts-Moves io backs staged.parts [] d))

  if_same-AllOrNothing :
      (m : Manifest) (d : Disk File) (diffs : List Text)
      → layout_differences debug m (names_of staged) cfg ≡ diffs
      → m.parts ≡ parts_of d.folder
      → AllOrNothing cfg staged d (if_same io debug dir cfg staged m diffs d)
  if_same-AllOrNothing m d [] e p =
      add_parts-AllOrNothing m d p ((layout_differences_exact debug m (names_of staged) cfg).0 e).0
  if_same-AllOrNothing m d (x ∷ xs) e p = refl

  into_table-AllOrNothing :
      (m : Manifest) (columns : List ManifestColumn) (d : Disk File)
      → m.columns ≡ columns
      → m.parts ≡ parts_of d.folder
      → AllOrNothing cfg staged d (into_table io debug dir cfg staged m columns d)
  into_table-AllOrNothing m [] d e p =
      add_parts-AllOrNothing (with_columns m staged.columns) d p refl
  into_table-AllOrNothing m (c ∷ cs) d e p =
      if_same-AllOrNothing m d (layout_differences debug m (names_of staged) cfg) refl p

  into_folder-AllOrNothing :
      (f : Folder) (d : Disk File)
      → d.folder ≡ f
      → AllOrNothing cfg staged d (into_folder io debug dir cfg staged f d)
  unfolding new
  into_folder-AllOrNothing missing d e = refl
  into_folder-AllOrNothing empty d e =
      let m = new cfg staged.columns [] in
      into_table-AllOrNothing m m.columns d refl (sym (ap parts_of e))
  into_folder-AllOrNothing (table m) d e =
      into_table-AllOrNothing m m.columns d refl (sym (ap parts_of e))

  -- Where a part that was moved can be moved back, adding the parts of a staging folder to a table's
  -- folder is all or nothing, whatever else fails. Either it ends with an error, and both folders
  -- and the manifest are as they were; or every staged part, and no other file, has been moved, and
  -- the manifest lists the parts that it listed and then these, under the staged columns, with the
  -- sum of their rows.
  pub insert_select-AllOrNothing :
      (d : Disk File) → AllOrNothing cfg staged d (insert_select io debug dir cfg staged d)
  unfolding insert_select
  insert_select-AllOrNothing d = into_folder-AllOrNothing d.folder d refl
