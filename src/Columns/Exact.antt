-- ===== src/Columns/Exact.antt =====
-- Which columns the comparison of sink/mod.rs picks, against names that are compared letter by letter.
use quickhouse.Prelude.{
  ℕ, ◌+◌, ◌≤◌, ◌≡◌, refl, subst, Bool, true, false, not, ◌⊎◌, inl, inr, ◌&&◌, List, [], ◌∷◌, ◌++◌,
  map, leb, All, arith, Bool-cases, ◌==◌,
}
use quickhouse.Prelude.Text.{Text, text_eq, text_eq→eq, text_eq_refl}
use quickhouse.Arrow.{ColumnType}
use quickhouse.Columns.{
  lower, column_key, has_column, filter, names_of, missing_columns, dropped_columns,
  unsourced_columns,
}
use quickhouse.Columns.Evolve.{missing_columns-added}

-- The same character, or the small and the capital of one ASCII letter.
abbrev pub SameLetter : ℕ → ℕ → Type 0
SameLetter a b =
    (a ≡ b) ⊎ (((b'A' ≤ a) × (a ≤ b'Z') × (b ≡ a + 32)) ⊎ ((b'A' ≤ b) × (b ≤ b'Z') × (a ≡ b + 32)))

abbrev pub SameLetters : Text → Text → Type 0
SameLetters [] [] = Unit
SameLetters [] (d ∷ t) = ⊥
SameLetters (c ∷ s) [] = ⊥
SameLetters (c ∷ s) (d ∷ t) = SameLetter c d × SameLetters s t

-- Whether two columns are one, in a destination that tells capitals apart or not.
abbrev pub SameName : Bool → Text → Text → Type 0
SameName false a b = a ≡ b
SameName true a b = SameLetters a b

-- No name is the same as `name`.
abbrev pub Lacks : Bool → List Text → Text → Type 0
Lacks fold_case names name = All (λ n. ¬ SameName fold_case n name) names

-- The second list is what is left of the first when those with the property are kept, in order.
abbrev pub Picks : {A : Type 0} → (A → Type 0) → List A → List A → Type 0
Picks P [] picked = picked ≡ []
Picks P (x ∷ xs) picked =
    (P x × ((rest : List _) × (picked ≡ x ∷ rest) × Picks P xs rest))
    ⊎ ((¬ P x) × Picks P xs picked)

filter-Picks :
    {A : Type 0} (p : A → Bool) (P : A → Type 0)
    → ((x : A) → p x ≡ true → P x)
    → ((x : A) → p x ≡ false → ¬ P x)
    → (xs : List A) → Picks P xs (filter p xs)
filter-Picks p P keeps drops [] = refl
filter-Picks p P keeps drops (x ∷ xs) = elim (Bool-cases (p x)) [
  | inl e ↦ inl (keeps x e, (filter p xs, rw e refl, filter-Picks p P keeps drops xs))
  | inr e ↦ inr (drops x e, subst (Picks P xs) (rw e refl) (filter-Picks p P keeps drops xs))
]

SameLetter-lower : (a b : ℕ) → (lower a == lower b) ≡ true → SameLetter a b
SameLetter-lower a b h = elim (Bool-cases (leb b'A' a && leb a b'Z')) [
  | inl e ↦ elim (Bool-cases (leb b'A' b && leb b b'Z')) [
    | inl e' ↦ let g : a ≡ b = ground arith in inl g
    | inr e' ↦ let g : (b'A' ≤ a) × (a ≤ b'Z') × (b ≡ a + 32) = ground arith in inr (inl g)
  ]
  | inr e ↦ elim (Bool-cases (leb b'A' b && leb b b'Z')) [
    | inl e' ↦ let g : (b'A' ≤ b) × (b ≤ b'Z') × (a ≡ b + 32) = ground arith in inr (inr g)
    | inr e' ↦ let g : a ≡ b = ground arith in inl g
  ]
]

lower-SameLetter : (a b : ℕ) → SameLetter a b → (lower a == lower b) ≡ true
lower-SameLetter a b (inl e) = ground arith
lower-SameLetter a b (inr (inl (lo, hi, e))) = ground arith
lower-SameLetter a b (inr (inr (lo, hi, e))) = ground arith

text_eq-SameLetters : (s t : Text) → text_eq (map lower s) (map lower t) ≡ true → SameLetters s t
text_eq-SameLetters [] [] h = tt
text_eq-SameLetters [] (d ∷ t) h = cc
text_eq-SameLetters (c ∷ s) [] h = cc
text_eq-SameLetters (c ∷ s) (d ∷ t) h =
    (SameLetter-lower c d (ground arith), text_eq-SameLetters s t (ground arith))

SameLetters-text_eq : (s t : Text) → SameLetters s t → text_eq (map lower s) (map lower t) ≡ true
SameLetters-text_eq [] [] h = refl
SameLetters-text_eq [] (d ∷ t) h = absurd h
SameLetters-text_eq (c ∷ s) [] h = absurd h
SameLetters-text_eq (c ∷ s) (d ∷ t) (h, hs) =
    rw (lower-SameLetter c d h) (SameLetters-text_eq s t hs)

abbrev same_key : Bool → Text → Text → Bool
unfolding column_key
same_key fold_case a b = text_eq (column_key a fold_case) (column_key b fold_case)

same_key-SameName : (f : Bool) (a b : Text) → same_key f a b ≡ true → SameName f a b
unfolding column_key
same_key-SameName true a b h = text_eq-SameLetters a b h
same_key-SameName false a b h = text_eq→eq a b h

SameName-same_key : (f : Bool) (a b : Text) → SameName f a b → same_key f a b ≡ true
unfolding column_key
SameName-same_key true a b h = SameLetters-text_eq a b h
SameName-same_key false a b h = subst (λ c. text_eq a c ≡ true) h (text_eq_refl a)

has_column-Lacks :
    (f : Bool) (names : List Text) (name : Text)
    → has_column names name f ≡ false
    → Lacks f names name
unfolding has_column same_key
has_column-Lacks f [] name h = tt
has_column-Lacks f (n ∷ names) name h =
    let other : same_key f n name ≡ false = ground arith in
    (λ s. cc (SameName-same_key f n name s, other), has_column-Lacks f names name (ground arith))

Lacks-has_column :
    (f : Bool) (names : List Text) (name : Text)
    → Lacks f names name
    → has_column names name f ≡ false
unfolding has_column same_key
Lacks-has_column f [] name h = refl
Lacks-has_column f (n ∷ names) name (h, hs) = elim (Bool-cases (same_key f n name)) [
  | inl e ↦ absurd (h (same_key-SameName f n name e))
  | inr e ↦ rw e (Lacks-has_column f names name hs)
]

-- The columns that are missing are, in order, those that are wanted and share no existing name, and
-- the columns without a source are the existing names that no written column shares; where capitals
-- make no difference, names that differ in ASCII capitals only are shared. Once the missing columns
-- have been added none is missing any more, and a write of the same columns drops none.
pub missing_columns_exact :
    (existing : List Text) (desired : List ColumnType) (fold_case : Bool)
    → let missing = missing_columns existing desired fold_case in
      let all = existing ++ names_of missing in
      Picks (λ (c : ColumnType). Lacks fold_case existing c.name) desired missing
      × Picks
          (Lacks fold_case (names_of desired))
          existing
          (unsourced_columns existing desired fold_case)
      × (missing_columns all desired fold_case ≡ [])
      × (dropped_columns all desired fold_case ≡ [])
unfolding missing_columns unsourced_columns
missing_columns_exact existing desired fold_case =
    let (gone, kept) = missing_columns-added existing fold_case desired in
    (
      filter-Picks (λ (c : ColumnType). not (has_column existing c.name fold_case))
          (λ (c : ColumnType). Lacks fold_case existing c.name)
          (λ c h. has_column-Lacks fold_case existing c.name (ground arith))
          (λ c h l. cc (Lacks-has_column fold_case existing c.name l, h)) desired,
      filter-Picks (λ n. not (has_column (names_of desired) n fold_case))
          (Lacks fold_case (names_of desired))
          (λ n h. has_column-Lacks fold_case (names_of desired) n (ground arith))
          (λ n h l. cc (Lacks-has_column fold_case (names_of desired) n l, h)) existing,
      gone,
      kept,
    )
