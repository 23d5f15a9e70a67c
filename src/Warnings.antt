-- ===== src/Warnings.antt =====
-- sync.rs: `Warnings`, the collector of a run, and the `fail_on_warnings` checkpoints. The wording of
-- the messages is a parameter; the locks are held for one call, so a call is one step.
pub mod Counts
pub mod LeftOut
pub mod Order
pub mod Checkpoints
pub mod Fatal
pub mod Tests
use quickhouse.Prelude.{
  ℕ, ◌+◌, Bool, true, false, not, ◌&&◌, ◌||◌, Option, none, some, List, [], ◌∷◌, ◌++◌, map, any,
  find, sum, ltb, ◌==◌, if◌then◌else◌, is_some,
}
use quickhouse.Prelude.Text.{Text, codes, text_eq, show_ℕ}
use quickhouse.Kinds.{WarningKind, TransferWarning, kind_eq, rank, as_str}
use quickhouse.Buffer.{NullRows}

-- `coercion_message`, `defaulted_message` and `left_out_message`, with the fates of the run's NULLs.
pub record Wording : Type 0 where
  pub coercion : WarningKind → Text → ℕ → Text
  pub defaulted : Text → ℕ → Text
  pub left_out : WarningKind → Text → ℕ → Text

pub record Warnings : Type 0 where
  pub raw : List TransferWarning
  pub null_rows : List NullRows

unfoldable pub push : Warnings → TransferWarning → Warnings
push ws w = record ws { raw = ws.raw ++ w ∷ [] }

-- The entry of a kind and a column, counted up or added at the end.
pub bump : List NullRows → WarningKind → Text → ℕ → List NullRows
bump [] kind column n = (kind, column, n) ∷ []
bump ((k, c, count) ∷ tally) kind column n =
    let rest = bump tally kind column n in
    if kind_eq k kind && text_eq c column then (k, c, count + n) ∷ tally else (k, c, count) ∷ rest

unfoldable pub tally_null_rows : Warnings → WarningKind → Text → ℕ → Warnings
unfolding bump
tally_null_rows ws kind column n =
    if n == 0 then ws else record ws { null_rows = bump ws.null_rows kind column n }

left_out : List NullRows → ℕ
left_out [] = 0
left_out ((k, c, n) ∷ tally) =
    (if kind_eq k WarningKind.null_defaulted then 0 else n) + left_out tally

unfoldable pub left_out_total : Warnings → ℕ
unfolding left_out
left_out_total ws = left_out ws.null_rows

abbrev pub same_column : Option Text → Option Text → Bool
same_column none none = true
same_column none (some d) = false
same_column (some c) none = false
same_column (some c) (some d) = text_eq c d

abbrev pub same_key : TransferWarning → TransferWarning → Bool
same_key f w = kind_eq f.kind w.kind && same_column f.column w.column

abbrev starts_with : Text → Text → Bool
starts_with [] s = true
starts_with (p ∷ ps) [] = false
starts_with (p ∷ ps) (c ∷ s) = p == c && starts_with ps s

-- `str::contains`
abbrev contains_text : Text → Text → Bool
contains_text [] p = starts_with p []
contains_text (c ∷ s) p = starts_with p (c ∷ s) || contains_text s p

abbrev or_sample : Option Text → Option Text → Option Text
or_sample none b = b
or_sample (some a) b = some a

-- A later warning of the same kind and column is added to the first.
unfoldable pub joined : TransferWarning → TransferWarning → TransferWarning
joined f w = record f {
  count = f.count + w.count;
  sample = or_sample f.sample w.sample;
  message =
      if kind_eq f.kind WarningKind.null_watermark && not (contains_text f.message w.message)
      then f.message ++ codes " " ++ w.message
      else f.message;
}

unfoldable pub merge : List TransferWarning → TransferWarning → List TransferWarning
unfolding joined
merge [] w = w ∷ []
merge (f ∷ folded) w =
    let rest = merge folded w in if same_key f w then joined f w ∷ folded else f ∷ rest

merge_all : List TransferWarning → List TransferWarning → List TransferWarning
unfolding merge
merge_all folded [] = folded
merge_all folded (w ∷ entries) = merge_all (merge folded w) entries

abbrev is_coercion : WarningKind → Bool
is_coercion WarningKind.collapsed_bool = true
is_coercion WarningKind.coerced_date = true
is_coercion WarningKind.coerced_decimal = true
is_coercion WarningKind.coerced_scalar = true
is_coercion _ = false

-- The derived order of kinds and columns, and the order of `drain`: `Ordering` as whether the first
-- comes before, and whether it comes after.
abbrev text_before : Text → Text → Bool
text_before [] [] = false
text_before [] (d ∷ t) = true
text_before (c ∷ s) [] = false
text_before (c ∷ s) (d ∷ t) = ltb c d || (c == d && text_before s t)

abbrev column_before : Option Text → Option Text → Bool
column_before none none = false
column_before none (some d) = true
column_before (some c) none = false
column_before (some c) (some d) = text_before c d

abbrev pub comes_before : TransferWarning → TransferWarning → Bool
comes_before a b =
    ltb b.count a.count
    || (a.count == b.count
        && (ltb (rank a.kind) (rank b.kind)
            || (rank a.kind == rank b.kind && column_before a.column b.column)))

-- `sort_by`, which is stable.
pub insert : TransferWarning → List TransferWarning → List TransferWarning
insert w [] = w ∷ []
insert w (x ∷ xs) = let rest = insert w xs in if comes_before x w then x ∷ rest else w ∷ x ∷ xs

pub sort : List TransferWarning → List TransferWarning
unfolding insert
sort [] = []
sort (w ∷ ws) = insert w (sort ws)

abbrev pub named : List WarningKind → TransferWarning → Bool
named kinds w = any (λ k. kind_eq k w.kind) kinds

module _ (say : Wording) where
  abbrev pub null_entry : NullRows → TransferWarning
  null_entry (kind, column, count) = record {
    kind = kind;
    column = some column;
    count = count;
    sample = none;
    message =
        if kind_eq kind WarningKind.null_defaulted
        then say.defaulted column count
        else say.left_out kind column count;
  }

  -- `entries`; it leaves an empty collector when it takes.
  unfoldable pub entries : Warnings → List TransferWarning
  entries ws = ws.raw ++ map null_entry ws.null_rows

  restate_column : TransferWarning → Option Text → TransferWarning
  restate_column f none = f
  restate_column f (some column) =
      if is_coercion f.kind then record f { message = say.coercion f.kind column f.count } else f

  restate : TransferWarning → TransferWarning
  unfolding restate_column
  restate f = restate_column f f.column

  unfoldable pub fold : List TransferWarning → List TransferWarning
  unfolding merge_all restate
  fold entries = map restate (merge_all [] entries)

  unfoldable pub first_of : Warnings → List WarningKind → Option TransferWarning
  unfolding fold entries
  first_of ws [] = none
  first_of ws (k ∷ kinds) = find (named (k ∷ kinds)) (fold (entries ws))

  -- Whether a warning of a kind about a column was collected.
  unfoldable pub contains : Warnings → WarningKind → Option Text → Bool
  contains ws kind column =
      any (λ w. kind_eq w.kind kind && same_column w.column column) ws.raw
      || any (λ r. kind_eq r.0 kind && same_column (some r.1) column) ws.null_rows

  unfoldable pub drain : Warnings → List TransferWarning × Warnings
  unfolding fold entries sort
  drain ws = (sort (fold (entries ws)), record { raw = []; null_rows = [] })
