-- ===== src/Columns/Evolve.antt =====
-- Once the missing columns are added, nothing that is written is dropped.
use quickhouse.Prelude.{
  ℕ, ◌-◌, ◌^◌, ◌≤◌, min, ◌≡◌, refl, ap, subst, Bool, true, false, not, ◌||◌, List, [], ◌∷◌, ◌++◌,
  any, All, arith, Bool-cases, inl, inr,
}
use native.Mathlib.Nat.{pow-le-pow_right}
use quickhouse.Prelude.Text.{Text, text_eq, text_eq_refl}
use quickhouse.Arrow.{ColumnType}
use quickhouse.Columns.{
  column_key, has_column, filter, names_of, missing_columns, dropped_columns, backoff_delay,
}

any-append : (p : Text → Bool) (xs ys : List Text) → any p (xs ++ ys) ≡ (any p xs || any p ys)
any-append p [] ys = refl
any-append p (x ∷ xs) ys = rw (any-append p xs ys) (ground arith)

filter_out :
    (p : ColumnType → Bool) (x : ColumnType) (xs : List ColumnType)
    → p x ≡ false
    → filter p xs ≡ filter p (x ∷ xs)
filter_out p x xs h = rw h refl

filter_in :
    (p : ColumnType → Bool) (x : ColumnType) (xs : List ColumnType)
    → p x ≡ true
    → x ∷ filter p xs ≡ filter p (x ∷ xs)
filter_in p x xs h = rw h refl

module _ (existing : List Text) (fold_case : Bool) where
  abbrev is_missing : ColumnType → Bool
  is_missing c = not (has_column existing c.name fold_case)

  -- A desired column is among those that exist or those that are added.
  has_column-added :
      (added : List ColumnType) (c : ColumnType)
      → has_column (existing ++ names_of added) c.name fold_case
        ≡ (has_column existing c.name fold_case || has_column (names_of added) c.name fold_case)
  unfolding has_column
  has_column-added added c =
      any-append (λ n. text_eq (column_key n fold_case) (column_key c.name fold_case)) existing
        (names_of added)

  has_column-first :
      (c : ColumnType) (cs : List ColumnType)
      → has_column (names_of (c ∷ cs)) c.name fold_case ≡ true
  unfolding has_column
  has_column-first c cs = rw (text_eq_refl (column_key c.name fold_case)) refl

  has_column-later :
      (x c : ColumnType) (cs : List ColumnType)
      → has_column (names_of cs) c.name fold_case ≡ true
      → has_column (names_of (x ∷ cs)) c.name fold_case ≡ true
  unfolding has_column
  has_column-later x c cs h = ground arith

  abbrev Covered : List ColumnType → ColumnType → Type 0
  Covered added c =
      (has_column existing c.name fold_case || has_column (names_of added) c.name fold_case) ≡ true

  Covered-later :
      (x : ColumnType) (added cs : List ColumnType)
      → All (Covered added) cs
      → All (Covered (x ∷ added)) cs
  Covered-later x added [] h = tt
  Covered-later x added (c ∷ cs) (h, hs) =
      elim (Bool-cases (has_column existing c.name fold_case)) [
        | inl e ↦ (rw e refl, Covered-later x added cs hs)
        | inr e ↦ (rw (e, has_column-later x c added (rw e at h)) refl, Covered-later x added cs hs)
      ]

  missing-Covered : (cs : List ColumnType) → All (Covered (filter is_missing cs)) cs
  missing-Covered [] = tt
  missing-Covered (c ∷ cs) = elim (Bool-cases (has_column existing c.name fold_case)) [
    | inl e ↦
        subst (λ added. All (Covered added) (c ∷ cs)) (filter_out is_missing c cs (ap not e))
          (rw e refl, missing-Covered cs)
    | inr e ↦
        let rest = filter is_missing cs in
        subst (λ added. All (Covered added) (c ∷ cs)) (filter_in is_missing c cs (ap not e))
          (
            rw (has_column-first c rest) (ground arith),
            Covered-later c rest cs (missing-Covered cs),
          )
  ]

  none_missing :
      (added cs : List ColumnType)
      → All (Covered added) cs
      → missing_columns (existing ++ names_of added) cs fold_case ≡ []
  unfolding missing_columns
  none_missing added [] h = refl
  none_missing added (c ∷ cs) (h, hs) = rw (has_column-added added c, h) (none_missing added cs hs)

  dropped-none :
      (all : List Text) (written : List ColumnType)
      → missing_columns all written fold_case ≡ []
      → dropped_columns all written fold_case ≡ []
  unfolding dropped_columns
  dropped-none [] written h = refl
  dropped-none (e ∷ all) written h = ap names_of h

  -- Once the columns that are missing have been added, none is missing any more, and a write of the
  -- same columns drops none.
  pub missing_columns-added :
      (desired : List ColumnType)
      → let all = existing ++ names_of (missing_columns existing desired fold_case) in
        (missing_columns all desired fold_case ≡ []) × (dropped_columns all desired fold_case ≡ [])
  missing_columns-added desired =
      let all = existing ++ names_of (missing_columns existing desired fold_case) in
      let gone : missing_columns all desired fold_case ≡ [] =
        none_missing (missing_columns existing desired fold_case) desired
          (unfold missing_columns in missing-Covered desired) in
      (gone, dropped-none all desired gone)

-- The delay is between a quarter of a second and sixteen seconds, and never falls with the attempts.
pub backoff_delay-bounds :
    (a b : ℕ)
    → (250 ≤ backoff_delay a)
      × (backoff_delay a ≤ 16000)
      × (a ≤ b → backoff_delay a ≤ backoff_delay b)
unfolding backoff_delay
backoff_delay-bounds a b = (low, high, rises)
  where
    step : (x y : ℕ) → x ≤ y → 2 ^ x ≤ 2 ^ y
    step x y h = pow-le-pow_right (omega arith) h

    low : 250 ≤ backoff_delay a
    low = let p = step 0 (min (a - 1) 6) (omega arith) in omega arith

    high : backoff_delay a ≤ 16000
    high = let p = step (min (a - 1) 6) 6 (omega arith) in omega arith

    rises : a ≤ b → backoff_delay a ≤ backoff_delay b
    rises h = let p = step (min (a - 1) 6) (min (b - 1) 6) (omega arith) in omega arith
