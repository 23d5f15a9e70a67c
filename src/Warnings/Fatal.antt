-- ===== src/Warnings/Fatal.antt =====
-- Exactly the collected warnings that are fatal stop a run at a checkpoint.
use quickhouse.Prelude.{
  ◌≡◌, refl, ap, ◌∙◌, ◌↔◌, Bool, true, false, ◌&&◌, ◌||◌, Option, none, some, List, [], ◌∷◌, map,
  any, find, arith, if◌then◌else◌, Bool-cases, inl, inr,
}
use quickhouse.Prelude.Text.{Text}
use quickhouse.Kinds.{WarningKind, TransferWarning, kind_eq}
use quickhouse.Kinds.Names.{kind_eq→eq}
use quickhouse.Warnings.{
  Wording, Warnings, same_key, is_coercion, joined, merge, merge_all, entries, fold, restate,
  restate_column, named, first_of,
}
use quickhouse.Warnings.Checkpoints.{
  Before, is_staged, check_fatal_warnings, check_fatal, failing, or_later, push_all,
}

module _ (kinds : List WarningKind) where
  any-merge :
      (fs : List TransferWarning) (w : TransferWarning)
      → any (named kinds) (merge fs w) ≡ (any (named kinds) fs || named kinds w)
  unfolding merge joined
  any-merge [] w = ground arith
  any-merge (f ∷ fs) w = elim (Bool-cases (same_key f w)) [
    | inl e ↦
        let same = kind_eq→eq f.kind w.kind (ground arith) in
        rw e (
          absorbed (named kinds f) (any (named kinds) fs) (named kinds w)
            (ap (λ k. any (λ j. kind_eq j k) kinds) same))
    | inr e ↦ rw (e, any-merge fs w) (ground arith)
  ]
    where
      absorbed : (b c d : Bool) → b ≡ d → (b || c) ≡ ((b || c) || d)
      absorbed true c d e = refl
      absorbed false c d e = rw (← e) (ground arith)

  any-merge_all :
      (fs ws : List TransferWarning)
      → any (named kinds) (merge_all fs ws) ≡ (any (named kinds) fs || any (named kinds) ws)
  unfolding merge_all
  any-merge_all fs [] = ground arith
  any-merge_all fs (w ∷ ws) = rw (any-merge_all (merge fs w) ws, any-merge fs w) (ground arith)

  named-restate_column :
      (say : Wording) (f : TransferWarning) (c : Option Text)
      → named kinds (restate_column say f c) ≡ named kinds f
  unfolding restate_column
  named-restate_column say f none = refl
  named-restate_column say f (some c) =
      elim (is_coercion f.kind)
        as (λ b.
          named kinds (if b then record f { message = say.coercion f.kind c f.count } else f)
          ≡ named kinds f) [ true ↦ refl | false ↦ refl ]

  any-restated :
      (say : Wording) (fs : List TransferWarning)
      → any (named kinds) (map (restate say) fs) ≡ any (named kinds) fs
  unfolding restate
  any-restated say [] = refl
  any-restated say (f ∷ fs) = rw (named-restate_column say f f.column, any-restated say fs) refl

  any-fold :
      (say : Wording) (ws : List TransferWarning)
      → any (named kinds) (fold say ws) ≡ any (named kinds) ws
  unfolding fold
  any-fold say ws = any-restated say (merge_all [] ws) ∙ any-merge_all [] ws

find-none :
    (p : TransferWarning → Bool) (ws : List TransferWarning)
    → (find p ws ≡ none) ↔ (any p ws ≡ false)
find-none p [] = (λ h. refl, λ h. refl)
find-none p (w ∷ ws) = elim (Bool-cases (p w)) [
  | inl e ↦ rw e (λ h. absurd cc, λ h. absurd cc)
  | inr e ↦ rw e (find-none p ws)
]

any_none : (ws : List TransferWarning) → any (named []) ws ≡ false
any_none [] = refl
any_none (w ∷ ws) = any_none ws

first_of-none :
    (say : Wording) (ws : Warnings) (kinds : List WarningKind)
    → (first_of say ws kinds ≡ none) ↔ (any (named kinds) (entries say ws) ≡ false)
unfolding first_of
first_of-none say ws [] = (λ h. any_none (entries say ws), λ h. refl)
first_of-none say ws (k ∷ kinds) =
    rw (← any-fold (k ∷ kinds) say (entries say ws))
      (find-none (named (k ∷ kinds)) (fold say (entries say ws)))

failing-none :
    (at : Before) (requested : Bool) (o : Option TransferWarning)
    → (failing at requested o ≡ none) ↔ (o ≡ none)
failing-none at requested none = (λ h. refl, λ h. refl)
failing-none at requested (some w) = (λ h. cc, λ h. cc)

both_none : (a b : Option Text) → (or_later a b ≡ none) ↔ ((a ≡ none) × (b ≡ none))
both_none none b = (λ h. (refl, h), λ h. h.1)
both_none (some a) b = (λ h. absurd cc, λ h. absurd cc)

-- What the checkpoint looks for, in the collector with the warnings of the sink's writes.
abbrev pub is_fatal : Wording → List WarningKind → Before → Warnings → Bool
is_fatal say fail_on at ws =
    any (named fail_on) (entries say ws)
    || (is_staged at
        && any (named (WarningKind.storage_write_count_mismatch ∷ [])) (entries say ws))

-- A checkpoint lets the run go on exactly when nothing collected so far, by the readers or by the
-- sink's writes, is of a kind that `fail_on_warnings` names, nor, while the rows are only staged,
-- is a wrong row count of a Storage Write stream.
pub check_fatal_exact :
    (say : Wording) (fail_on : List WarningKind) (written : List TransferWarning) (ws : Warnings)
    (at : Before)
    → ((check_fatal say fail_on written ws at).0 ≡ none)
      ↔ (is_fatal say fail_on at (push_all ws written) ≡ false)
unfolding check_fatal check_fatal_warnings
check_fatal_exact say fail_on written ws at =
    by_stage (is_staged at) (failing at false (first_of say ws' mismatch))
      (failing at true (first_of say ws' fail_on)) (any (named fail_on) (entries say ws'))
      (any (named mismatch) (entries say ws'))
      (through (failing-none at false (first_of say ws' mismatch)) (first_of-none say ws' mismatch))
      (through (failing-none at true (first_of say ws' fail_on)) (first_of-none say ws' fail_on))
  where
    ws' : Warnings
    ws' = push_all ws written

    mismatch : List WarningKind
    mismatch = WarningKind.storage_write_count_mismatch ∷ []

    through : {A B C : Type 0} → A ↔ B → B ↔ C → A ↔ C
    through (f, f') (g, g') = (λ a. g (f a), λ c. f' (g' c))

    by_stage :
        (staged : Bool) (e e' : Option Text) (b c : Bool)
        → (e ≡ none) ↔ (c ≡ false)
        → (e' ≡ none) ↔ (b ≡ false)
        → ((if staged then or_later e e' else e') ≡ none) ↔ ((b || (staged && c)) ≡ false)
    by_stage true e e' b c (f, f') (g, g') =
        let (h, h') = both_none e e' in
        (
          λ x. let p = g (h x).1 in let q = f (h x).0 in ground arith,
          λ x. h' (f' (ground arith), g' (ground arith)),
        )
    by_stage false e e' b c h (g, g') = (λ x. let p = g x in ground arith, λ x. g' (ground arith))
