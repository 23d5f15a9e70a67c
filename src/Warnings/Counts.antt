-- ===== src/Warnings/Counts.antt =====
-- The fold of the warnings has one entry for each kind and column, with the whole count.
use quickhouse.Prelude.{
  ℕ, ◌+◌, ◌≡◌, refl, ap, ◌∙◌, Bool, true, false, ◌&&◌, Option, none, some, List, [], ◌∷◌, map,
  arith, min, max, ◌==◌, if◌then◌else◌, Bool-cases, inl, inr,
}
use quickhouse.Prelude.Text.{Text, text_eq→eq, text_eq_refl}
use quickhouse.Kinds.{WarningKind, TransferWarning, kind_eq}
use quickhouse.Kinds.Names.{kind_eq→eq, kind_eq_refl}
use quickhouse.Buffer.{NullRows}
use quickhouse.Warnings.{
  Wording, Warnings, bump, tally_null_rows, same_column, same_key, is_coercion, joined, merge,
  merge_all, fold, restate, restate_column,
}

-- A kind and a column.
abbrev pub Key : Type 0
Key = WarningKind × Option Text

abbrev pub key_of : TransferWarning → Key
key_of w = (w.kind, w.column)

abbrev pub key_eq : Key → Key → Bool
key_eq (k, c) (k', c') = kind_eq k k' && same_column c c'

-- The sum of the counts under a key, and the number of entries that have it.
abbrev pub total : Key → List TransferWarning → ℕ
total key [] = 0
total key (w ∷ ws) = (if key_eq (key_of w) key then w.count else 0) + total key ws

abbrev pub times : Key → List TransferWarning → ℕ
times key [] = 0
times key (w ∷ ws) = (if key_eq (key_of w) key then 1 else 0) + times key ws

-- One if there is any.
abbrev pub one_if_some : ℕ → ℕ
one_if_some n = min n 1

same_column→eq : (c d : Option Text) → same_column c d ≡ true → c ≡ d
same_column→eq none none h = refl
same_column→eq none (some d) h = cc
same_column→eq (some c) none h = cc
same_column→eq (some c) (some d) h = ap some (text_eq→eq c d h)

same_column_refl : (c : Option Text) → same_column c c ≡ true
same_column_refl none = refl
same_column_refl (some c) = text_eq_refl c

pair_eq :
    (k k' : WarningKind) (c c' : Option Text) → k ≡ k' → c ≡ c' → ◌≡◌ {A = Key} (k, c) (k', c')
pair_eq k k' c c' p q = rw (p, q) refl

key_eq→eq : (a b : Key) → key_eq a b ≡ true → a ≡ b
key_eq→eq (k, c) (k', c') h =
    pair_eq k k' c c' (kind_eq→eq k k' (ground arith)) (same_column→eq c c' (ground arith))

key_eq_refl : (a : Key) → key_eq a a ≡ true
key_eq_refl (k, c) = rw (kind_eq_refl k, same_column_refl c) refl

-- Two warnings with the key `key` have the same.
both_same : (a b key : Key) → key_eq a key ≡ true → key_eq b key ≡ true → key_eq a b ≡ true
both_same a b key h h' = rw (key_eq→eq a key h, key_eq→eq b key h') (key_eq_refl key)

joined_count :
    (b : Bool) (m n t : ℕ)
    → (if b then m + n else 0) + t ≡ (if b then m else 0) + t + (if b then n else 0)
joined_count b m n t = ground arith

pub total-merge :
    (key : Key) (fs : List TransferWarning) (w : TransferWarning)
    → total key (merge fs w) ≡ total key fs + (if key_eq (key_of w) key then w.count else 0)
unfolding merge joined
total-merge key [] w = omega arith
total-merge key (f ∷ fs) w = elim (Bool-cases (same_key f w)) [
  | inl e ↦
      let same = key_eq→eq (key_of f) (key_of w) e in
      rw e (
        joined_count (key_eq (key_of f) key) f.count w.count (total key fs)
        ∙ ap
            (λ (k : Key).
              (if key_eq (key_of f) key then f.count else 0)
              + total key fs
              + (if key_eq k key then w.count else 0))
            same)
  | inr e ↦ rw e (omega (arith, total-merge key fs w))
]

abbrev bit : Bool → ℕ
bit b = if b then 1 else 0

count_joined : (b : Bool) (t : ℕ) → bit b + t ≡ max (bit b + t) (bit b)
count_joined b t = ground arith

count_apart :
    (b c : Bool) (t : ℕ)
    → (b ≡ true → c ≡ true → ⊥)
    → bit b + max t (bit c) ≡ max (bit b + t) (bit c)
count_apart b c t h = ground arith

pub times-merge :
    (key : Key) (fs : List TransferWarning) (w : TransferWarning)
    → times key (merge fs w) ≡ max (times key fs) (bit (key_eq (key_of w) key))
unfolding merge joined
times-merge key [] w = ground arith
times-merge key (f ∷ fs) w = elim (Bool-cases (same_key f w)) [
  | inl e ↦
      let same = key_eq→eq (key_of f) (key_of w) e in
      rw e (
        count_joined (key_eq (key_of f) key) (times key fs)
        ∙ ap (λ (k : Key). max (bit (key_eq (key_of f) key) + times key fs) (bit (key_eq k key)))
            same)
  | inr e ↦
      rw (e, times-merge key fs w)
        (count_apart (key_eq (key_of f) key) (key_eq (key_of w) key) (times key fs)
          (λ h h'. cc (both_same (key_of f) (key_of w) key h h')))
]

total-merge_all :
    (key : Key) (fs ws : List TransferWarning)
    → total key (merge_all fs ws) ≡ total key fs + total key ws
unfolding merge_all
total-merge_all key fs [] = omega arith
total-merge_all key fs (w ∷ ws) =
    omega (arith, total-merge_all key (merge fs w) ws, total-merge key fs w)

max_once :
    (t : ℕ) (b : Bool) (n : ℕ)
    → max (max t (bit b)) (one_if_some n) ≡ max t (one_if_some (bit b + n))
max_once t true n = omega arith
max_once t false n = omega arith

times-merge_all :
    (key : Key) (fs ws : List TransferWarning)
    → times key (merge_all fs ws) ≡ max (times key fs) (one_if_some (times key ws))
unfolding merge_all
times-merge_all key fs [] = omega arith
times-merge_all key fs (w ∷ ws) =
    rw (times-merge_all key (merge fs w) ws, times-merge key fs w)
      (max_once (times key fs) (key_eq (key_of w) key) (times key ws))

-- The last rewording of a message changes no key and no count.
SameHead : Key → TransferWarning → TransferWarning → Type 0
SameHead key f g = (key_eq (key_of g) key ≡ key_eq (key_of f) key) × (g.count ≡ f.count)

restate_column-SameHead :
    (say : Wording) (key : Key) (f : TransferWarning) (c : Option Text)
    → SameHead key f (restate_column say f c)
unfolding restate_column SameHead
restate_column-SameHead say key f none = (refl, refl)
restate_column-SameHead say key f (some c) =
    elim (is_coercion f.kind)
      as (λ b.
        SameHead key f (if b then record f { message = say.coercion f.kind c f.count } else f)) [
          | true ↦ (refl, refl)
          | false ↦ (refl, refl)
        ]

total-restated :
    (say : Wording) (key : Key) (fs : List TransferWarning)
    → (total key (map (restate say) fs) ≡ total key fs)
      × (times key (map (restate say) fs) ≡ times key fs)
unfolding restate SameHead
total-restated say key [] = (refl, refl)
total-restated say key (f ∷ fs) =
    let (k, n) = restate_column-SameHead say key f f.column in
    let (t, m) = total-restated say key fs in (rw (k, n, t) refl, rw (k, m) refl)

-- Folding any warnings gives, for each kind and column, one entry if there was any and none
-- otherwise, and the entry's count is the sum of the counts of the warnings that it stands for.
pub fold_counts :
    (say : Wording) (ws : List TransferWarning) (key : Key)
    → (total key (fold say ws) ≡ total key ws)
      × (times key (fold say ws) ≡ one_if_some (times key ws))
unfolding fold
fold_counts say ws key =
    let (t, m) = total-restated say key (merge_all [] ws) in
    (t ∙ total-merge_all key [] ws ∙ omega arith, m ∙ times-merge_all key [] ws ∙ omega arith)

-- The tally of one kind and column.
abbrev pub tallied : WarningKind → Text → List NullRows → ℕ
tallied kind column [] = 0
tallied kind column ((k, c, n) ∷ tally) =
    (if key_eq (k, some c) (kind, some column) then n else 0) + tallied kind column tally

tallied-bump :
    (kind kind' : WarningKind) (column column' : Text) (n : ℕ) (tally : List NullRows)
    → tallied kind' column' (bump tally kind column n)
      ≡ tallied kind' column' tally
        + (if key_eq (kind, some column) (kind', some column') then n else 0)
unfolding bump
tallied-bump kind kind' column column' n [] = omega arith
tallied-bump kind kind' column column' n ((k, c, m) ∷ tally) =
    elim (Bool-cases (key_eq (k, some c) (kind, some column))) [
      | inl e ↦
          let same = key_eq→eq (k, some c) (kind, some column) e in
          rw e (
            joined_count (key_eq (k, some c) (kind', some column')) m n
              (tallied kind' column' tally)
            ∙ ap
                (λ (x : Key).
                  (if key_eq (k, some c) (kind', some column') then m else 0)
                  + tallied kind' column' tally
                  + (if key_eq x (kind', some column') then n else 0))
                same)
      | inr e ↦ rw e (omega (arith, tallied-bump kind kind' column column' n tally))
    ]

-- Counting rows adds them to the tally of their kind and column, and to no other.
pub tally_null_rows-adds :
    (ws : Warnings) (kind kind' : WarningKind) (column column' : Text) (n : ℕ)
    → tallied kind' column' (tally_null_rows ws kind column n).null_rows
      ≡ tallied kind' column' ws.null_rows
        + (if key_eq (kind, some column) (kind', some column') then n else 0)
unfolding tally_null_rows
tally_null_rows-adds ws kind kind' column column' n = elim (Bool-cases (n == 0)) [
  | inl e ↦ rw e (ground arith)
  | inr e ↦ rw e (tallied-bump kind kind' column column' n ws.null_rows)
]
