-- ===== src/Warnings/Checkpoints.antt =====
-- sync.rs: `Before`, `check_fatal_warnings`, `check_fatal` and `fatal_warning_error`. An error is its
-- message.
use quickhouse.Prelude.{
  Bool, true, false, Option, none, some, List, [], ◌∷◌, ◌++◌, ◌==◌, if◌then◌else◌,
}
use quickhouse.Prelude.Text.{Text, codes, show_ℕ}
use quickhouse.Kinds.{WarningKind, TransferWarning, kind_eq, as_str}
use quickhouse.Warnings.{Wording, Warnings, push, first_of}

pub data Before : Type 0 where
  write swap_old swap_into_new merge_old merge_into_new append_old append_into_new : Before
  cursor chunk cursor_after_chunks done : Before

-- `Before::swap`, `Before::merge` and `Before::append`
abbrev pub swap : Bool → Before
swap created_dest = if created_dest then swap_into_new else swap_old

abbrev pub merge : Bool → Before
merge created_dest = if created_dest then merge_into_new else merge_old

abbrev pub append : Bool → Before
append created_dest = if created_dest then append_into_new else append_old

unfoldable pub describe : Before → Text
describe write = codes "Nothing was written to the destination, and the cursor was not saved."
describe swap_old =
    codes "The destination is untouched: the staged rows were dropped before the swap."
describe swap_into_new =
    codes
      "Nothing was swapped in: the staged rows were dropped before the swap, so the destination this run created is left empty."
describe merge_old =
    codes
      "The destination is untouched (the staged rows were dropped before the merge), and the cursor was not saved."
describe merge_into_new =
    codes
      "Nothing was merged in (the staged rows were dropped before the merge), so the destination this run created is left empty, and the cursor was not saved."
describe append_old =
    codes
      "Nothing was appended (the staged rows were dropped before they were moved into the destination), and the cursor was not saved."
describe append_into_new =
    codes
      "Nothing was appended (the staged rows were dropped before they were moved in), so the destination this run created is left empty, and the cursor was not saved."
describe cursor =
    codes
      "The rows are already in the destination, but the cursor was not saved, so once the cause is fixed the next run reads the same range again (a ReplacingMergeTree or a MERGE converges on them)."
describe chunk =
    codes
      "This chunk was not committed: its cursor was not saved, so the next run resumes at it (written straight into the destination, its rows are already there). Earlier chunks are committed."
describe cursor_after_chunks =
    codes
      "Every chunk is already in the destination with its resume marker saved, so the next run carries on past them; only the cursor that finishes the run was not saved."
describe done =
    codes
      "The rows are already in the destination, which this run writes straight into, and its cursor (if it keeps one) is saved: reading them again would only write them twice."

-- The rows are still only in a staging table, or in a chunk that is not committed.
abbrev pub is_staged : Before → Bool
is_staged swap_old = true
is_staged swap_into_new = true
is_staged merge_old = true
is_staged merge_into_new = true
is_staged append_old = true
is_staged append_into_new = true
is_staged chunk = true
is_staged _ = false

abbrev on_column : Option Text → Text
on_column none = []
on_column (some c) = codes " on column '" ++ c ++ codes "'"

unfoldable pub fatal_warning_error : TransferWarning → Before → Bool → Text
unfolding describe
fatal_warning_error w at requested =
    let state =
      if kind_eq w.kind WarningKind.retried_after_partial_write
      then codes
          "This attempt has written nothing; what the failed attempts before it wrote stays in the destination."
      else describe at in
    let count = if w.count == 0 then [] else codes " (count " ++ show_ℕ w.count ++ codes ")" in
    let by = if requested then codes "fail_on_warnings: " else [] in
    by
    ++ as_str w.kind
    ++ on_column w.column
    ++ count
    ++ codes " stopped the run. "
    ++ state
    ++ codes " The warning: "
    ++ w.message

abbrev pub push_all : Warnings → List TransferWarning → Warnings
push_all ws [] = ws
push_all ws (w ∷ written) = push_all (push ws w) written

abbrev pub failing : Before → Bool → Option TransferWarning → Option Text
failing at requested none = none
failing at requested (some w) = some (fatal_warning_error w at requested)

abbrev pub or_later : Option Text → Option Text → Option Text
or_later none later = later
or_later (some e) later = some e

module _ (say : Wording) where
  unfoldable pub check_fatal_warnings : List WarningKind → Warnings → Before → Option Text
  check_fatal_warnings fail_on_warnings ws at = failing at true (first_of say ws fail_on_warnings)

  -- The error, if any, and the collector with the warnings that the sink's writes raised.
  unfoldable pub check_fatal :
      List WarningKind → List TransferWarning → Warnings → Before → Option Text × Warnings
  unfolding check_fatal_warnings
  check_fatal fail_on_warnings written ws at =
      let ws' = push_all ws written in
      let mismatch =
        failing at false (first_of say ws' (WarningKind.storage_write_count_mismatch ∷ [])) in
      let requested = check_fatal_warnings fail_on_warnings ws' at in
      ((if is_staged at then or_later mismatch requested else requested), ws')
