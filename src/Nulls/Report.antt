-- ===== src/Nulls/Report.antt =====
-- null_guard.rs: `tallies` and `fates`; sync.rs: `archived_rows`, and the counts of a batch in the
-- warnings. What the warnings say was left out is what the batch has lost.
use quickhouse.Prelude.{
  ℕ, suc, ◌+◌, ◌≡◌, refl, ap, ◌∙◌, ◌⊎◌, inl, inr, true, Option, none, some, List, [], ◌∷◌, ◌++◌,
  arith, map, sum, All, length, ltb, if◌then◌else◌, Bool-cases,
}
use quickhouse.Prelude.Text.{Text}
use quickhouse.Kinds.{WarningKind, kind_eq, rank}
use quickhouse.Buffer.{NullRows}
use quickhouse.Errors.{EtlError}
use quickhouse.Warnings.{Warnings, tally_null_rows, left_out_total}
use quickhouse.Warnings.LeftOut.{unwritten, left_out_total-tally_null_rows}
use quickhouse.Nulls.{RecordBatch, Arrays, Guarded, Defaulted, NullGuard, Filtered, filter}
use quickhouse.Nulls.Texts.{NullFate, left_out, default}
use quickhouse.Nulls.Plan.{DestKind, TransferConfig, SelectPlan, new}
use quickhouse.Nulls.Distinct.{LeavesOut}
use quickhouse.Nulls.Checked.{guard-Checks}
use quickhouse.Nulls.Kept.{Found}
use quickhouse.Nulls.Delivered.{Under, filter-new}

-- `filter(|(_, _, n)| *n > 0)` over the `zip` of the columns with their counts.
abbrev pub left_out_tallies : List Guarded → List ℕ → List NullRows
left_out_tallies [] ns = []
left_out_tallies (c ∷ cs) [] = []
left_out_tallies (c ∷ cs) (n ∷ ns) =
    let rest = left_out_tallies cs ns in if ltb 0 n then (c.kind, c.column, n) ∷ rest else rest

abbrev pub defaulted_tallies : List Defaulted → List ℕ → List NullRows
defaulted_tallies [] ns = []
defaulted_tallies (d ∷ ds) [] = []
defaulted_tallies (d ∷ ds) (n ∷ ns) =
    let rest = defaulted_tallies ds ns in
    if ltb 0 n then (WarningKind.null_defaulted, d.column, n) ∷ rest else rest

unfoldable pub tallies : {Array : Type 0} → NullGuard → Filtered Array → List NullRows
tallies g f = left_out_tallies g.columns f.left_out ++ defaulted_tallies g.defaulted f.defaulted

-- A map from names is the list of its insertions; a later one counts.
unfoldable pub fates : NullGuard → List (Text × NullFate)
fates g =
    map (λ (c : Guarded). (c.dest, left_out c.kind)) g.columns
    ++ map (λ (d : Defaulted). (d.column, default d.by d.shown)) g.defaulted

abbrev archived : {Array : Type 0} → EtlError ⊎ Filtered Array → EtlError ⊎ RecordBatch Array
archived (inl e) = inl e
archived (inr f) = inr f.batch

unfoldable pub archived_rows :
    (ar : Arrays) → Option NullGuard → RecordBatch ar.Array → EtlError ⊎ RecordBatch ar.Array
archived_rows ar none b = inr b
archived_rows ar (some g) b = archived (filter ar g b)

-- `for (kind, column, n) in guard.tallies(&f) { warnings.null_rows(kind, column, n) }`
unfoldable pub count_all : Warnings → List NullRows → Warnings
count_all ws [] = ws
count_all ws ((kind, column, n) ∷ rows) = count_all (tally_null_rows ws kind column n) rows

unwritten_all : List NullRows → ℕ
unwritten_all [] = 0
unwritten_all ((kind, column, n) ∷ rows) = unwritten kind n + unwritten_all rows

left_out_total-count_all :
    (ws : Warnings) (rows : List NullRows)
    → left_out_total (count_all ws rows) ≡ left_out_total ws + unwritten_all rows
unfolding count_all unwritten_all
left_out_total-count_all ws [] = omega arith
left_out_total-count_all ws ((kind, column, n) ∷ rows) =
    let ih = left_out_total-count_all (tally_null_rows ws kind column n) rows in
    let s = left_out_total-tally_null_rows ws kind column n in omega arith

unwritten_all-append :
    (xs ys : List NullRows) → unwritten_all (xs ++ ys) ≡ unwritten_all xs + unwritten_all ys
unfolding unwritten_all
unwritten_all-append [] ys = omega arith
unwritten_all-append ((kind, column, n) ∷ xs) ys = omega (arith, unwritten_all-append xs ys)

unwritten_left_out :
    (cs : List Guarded) (ns : List ℕ)
    → All LeavesOut cs
    → length ns ≡ length cs
    → unwritten_all (left_out_tallies cs ns) ≡ sum ns
unfolding unwritten_all
unwritten_left_out [] [] h e = refl
unwritten_left_out [] (n ∷ ns) h e = absurd (omega arith)
unwritten_left_out (c ∷ cs) [] h e = absurd (omega arith)
unwritten_left_out (c ∷ cs) (n ∷ ns) (l, h) e =
    let ih = unwritten_left_out cs ns h (omega arith) in
    elim (Bool-cases (ltb 0 n)) [
      | inl p ↦ rw p (rw l (omega arith))
      | inr p ↦ rw p (let z : n ≡ 0 = ground arith in omega arith)
    ]

defaulted_written : kind_eq WarningKind.null_defaulted WarningKind.null_defaulted ≡ true
unfolding kind_eq rank
defaulted_written = refl

unwritten_defaulted :
    (ds : List Defaulted) (ns : List ℕ) → unwritten_all (defaulted_tallies ds ns) ≡ 0
unfolding unwritten_all
unwritten_defaulted [] ns = refl
unwritten_defaulted (d ∷ ds) [] = refl
unwritten_defaulted (d ∷ ds) (n ∷ ns) =
    let ih = unwritten_defaulted ds ns in
    elim (Bool-cases (ltb 0 n)) [
      | inl p ↦ rw p (rw defaulted_written (omega arith))
      | inr p ↦ rw p ih
    ]

length-Found :
    (ar : Arrays) (b : RecordBatch ar.Array) (cs : List Guarded) (xs : List ar.Array)
    → Found ar b cs xs
    → length xs ≡ length cs
length-Found ar b [] [] h = refl
length-Found ar b [] (x ∷ xs) h = absurd h
length-Found ar b (c ∷ cs) [] h = absurd h
length-Found ar b (c ∷ cs) (x ∷ xs) (p, h) = ap suc (length-Found ar b cs xs h)

-- When the tallies of a batch that was decoded under the plan are counted, the warnings' total of
-- rows that were left out grows by exactly the rows that the batch to be written, and the archive,
-- has fewer than the batch that was read.
pub left_out_total-tallies :
    (ar : Arrays) (plan : SelectPlan) (cfg : TransferConfig) (dest : DestKind) (g : NullGuard)
    (b : RecordBatch ar.Array) (ws : Warnings)
    → new plan cfg dest ≡ some g
    → Under ar g plan b
    → (f : Filtered ar.Array) × (filter ar g b ≡ inr f)
      × (archived_rows ar (some g) b ≡ inr f.batch)
      × (left_out_total (count_all ws (tallies g f)) + f.batch.num_rows
          ≡ left_out_total ws + b.num_rows)
unfolding tallies archived_rows
left_out_total-tallies ar plan cfg dest g b ws h u =
    let c = guard-Checks plan cfg dest g h in
    let (guards, found, (f, e, r)) = filter-new ar plan cfg dest g b h u in
    let lost = left_out_tallies g.columns f.left_out in
    let filled = defaulted_tallies g.defaulted f.defaulted in
    let counted = left_out_total-count_all ws (lost ++ filled) in
    let parts = unwritten_all-append lost filled in
    let some_lost =
      unwritten_left_out g.columns f.left_out c.leave_out
        (r.lengths ∙ length-Found ar b g.columns guards found) in
    let none_filled = unwritten_defaulted g.defaulted f.defaulted in
    let whole = r.total in (f, e, rw e refl, omega arith)
