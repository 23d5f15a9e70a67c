-- ===== src/Csv/Swap.antt =====
-- sink/csv.rs: `swap_dirs`, which puts a staging folder in a table's place. The three paths hold a
-- folder or nothing; whether each call of the file system succeeds is a parameter.
use quickhouse.Prelude.{
  ◌≡◌, refl, ◌⊎◌, inl, inr, Bool, true, false, not, Option, none, some, arith, Bool-cases,
  if◌then◌else◌, is_some,
}
use quickhouse.Prelude.Text.{codes}
use quickhouse.Errors.{EtlError}

-- The table's path, the staging folder's, and that of the folder put aside.
pub record Paths (Folder : Type 0) : Type 0 where
  pub dest : Option Folder
  pub staging : Option Folder
  pub aside : Option Folder

-- Whether the atomic exchange, the renames in order, and the removal at the end succeed.
pub record Calls : Type 0 where
  pub exchanges : Bool
  pub moves_aside : Bool
  pub moves_in : Bool
  pub moves_back : Bool
  pub moves_out : Bool
  pub removes : Bool

module _ {Folder : Type 0} (os : Calls) where
  abbrev could_not : Bool → Paths Folder → Option EtlError × Paths Folder
  could_not true p = (
    some (EtlError.other (codes "could not move into place; the old folder is back in place")),
    record p { dest = p.aside; aside = none },
  )
  could_not false p = (
    some (
        EtlError.other
          (codes "could not move into place, and moving the old folder back failed too")),
    p,
  )

  abbrev clear_away : Paths Folder → Paths Folder
  clear_away p =
      if os.moves_out
      then record p { staging = p.aside; aside = none }
      else if os.removes
      then record p { aside = none }
      else p

  unfoldable pub swap_dirs_by_renames : Paths Folder → Option EtlError × Paths Folder
  swap_dirs_by_renames p =
      let p' = record p { dest = none; aside = p.dest } in
      if not os.moves_aside
      then (some (EtlError.io_error (codes "move aside")), p)
      else if not os.moves_in
      then could_not os.moves_back p'
      else (none, clear_away (record p' { dest = p'.staging; staging = none }))

  unfoldable pub swap_dirs : Paths Folder → Option EtlError × Paths Folder
  unfolding swap_dirs_by_renames
  swap_dirs p =
      if not (is_some p.dest)
      then (if os.moves_in
          then (none, record p { dest = p.staging; staging = none })
          else (some (EtlError.io_error (codes "move into place")), p))
      else if os.exchanges
      then (none, record p { dest = p.staging; staging = p.dest })
      else swap_dirs_by_renames p

  -- The table's path holds the new folder, or an error is returned and what it held is there or,
  -- where it could not be moved back, aside; the new folder is never lost with an error.
  abbrev pub Swapped : Option Folder → Folder → Option EtlError × Paths Folder → Type 0
  Swapped old new (none, p) = p.dest ≡ some new
  Swapped old new (some e, p) =
      (p.staging ≡ some new) × ((p.dest ≡ old) ⊎ ((os.moves_back ≡ false) × (p.aside ≡ old)))

  could_not-Swapped :
      (b : Bool) (old : Option Folder) (new : Folder)
      → os.moves_back ≡ b
      → Swapped old new (could_not b (record { dest = none; staging = some new; aside = old }))
  could_not-Swapped true old new e = (refl, inl refl)
  could_not-Swapped false old new e = (refl, inr (e, refl))

  clear_away-dest : (p : Paths Folder) → (clear_away p).dest ≡ p.dest
  clear_away-dest p = ground arith

  by_renames-Swapped :
      (old : Option Folder) (new : Folder)
      → Swapped old new
          (swap_dirs_by_renames (record { dest = old; staging = some new; aside = none }))
  unfolding swap_dirs_by_renames
  by_renames-Swapped old new = elim (Bool-cases os.moves_aside) [
    | inl a ↦ elim (Bool-cases os.moves_in) [
      | inl b ↦
          rw (a, b) (clear_away-dest (record { dest = some new; staging = none; aside = old }))
      | inr b ↦ rw (a, b) (could_not-Swapped os.moves_back old new refl)
    ]
    | inr a ↦ rw a (refl, inl refl)
  ]

  -- The swap of a new folder with what a table's path holds ends with the new folder at that path,
  -- or with an error and nothing lost: the new folder is still the staging folder, and what the path
  -- held is there again or, only if it could not be moved back, put aside.
  pub swap_dirs-Swapped :
      (old : Option Folder) (new : Folder)
      → Swapped old new (swap_dirs (record { dest = old; staging = some new; aside = none }))
  unfolding swap_dirs
  swap_dirs-Swapped none new = elim (Bool-cases os.moves_in) [
    | inl a ↦ rw a refl
    | inr a ↦ rw a (refl, inl refl)
  ]
  swap_dirs-Swapped (some old) new = elim (Bool-cases os.exchanges) [
    | inl a ↦ rw a refl
    | inr a ↦ rw a (by_renames-Swapped (some old) new)
  ]
