-- ===== src/Buffer/Tests.antt =====
-- Tests of the insert buffer and its marks.
use quickhouse.Prelude.{ℕ, ◌≡◌, refl, List, [], ◌∷◌, arith, true}
use quickhouse.Prelude.Text.{codes}
use quickhouse.Kinds.{WarningKind}
use quickhouse.Buffer.{InsertBuffer, mark, truncate}
use quickhouse.Buffer.Rollback.{
  Change, pushes, notes, takes, reserved_by, changes, IsConsistent, truncate-mark_quiet,
  truncate-mark_taken,
}

abbrev held : InsertBuffer ℕ
held = record {
  batches = 7 ∷ 8 ∷ [];
  reservations = 10 ∷ 20 ∷ [];
  sizes = 10 ∷ 20 ∷ [];
  bytes = 30;
  target = 64;
  takes = 3;
  deferred = true;
  null_rows = [];
}

held-IsConsistent : IsConsistent held
held-IsConsistent = record { reserved = refl; sized = refl; counted = refl }

abbrev quiet : List (Change ℕ)
quiet = pushes 9 30 30 ∷ notes ((WarningKind.null_key, codes "a", 2) ∷ []) ∷ []

abbrev sent : List (Change ℕ)
sent = pushes 9 30 30 ∷ takes ∷ pushes 5 40 40 ∷ []

truncate-mark_quiet_example : truncate (changes held quiet) (mark held) ≡ (held, reserved_by quiet)
truncate-mark_quiet_example = truncate-mark_quiet held quiet held-IsConsistent refl

truncate-mark_taken_example :
    let b = changes held sent in
    let (cut, dropped) = truncate b (mark held) in
    (cut.batches ≡ [])
    × (cut.bytes ≡ 0)
    × (dropped ≡ b.reservations)
    × (cut.null_rows ≡ held.null_rows)
truncate-mark_taken_example = truncate-mark_taken held sent (omega arith)
