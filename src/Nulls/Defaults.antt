-- ===== src/Nulls/Defaults.antt =====
-- The columns that get a default: at their place, none twice or guarded, and every column that an
-- option makes NOT NULL among them.
use quickhouse.Prelude.{
  ℕ, zero, suc, ◌+◌, ◌<◌, ◌≡◌, refl, ap, sym, ◌∙◌, inl, inr, true, false, ◌||◌, Option, none, some,
  List, [], ◌∷◌, arith, any, All, get_elem?, Bool-cases, ◌==◌, is_some,
}
use mathlib.Core.Option.{some-injective}
use quickhouse.Prelude.Text.{Text}
use quickhouse.Arrow.{ColumnType}
use quickhouse.Nulls.{NotNullBy, Guarded, Defaulted}
use quickhouse.Nulls.Plan.{
  DestKind, TransferConfig, taken, not_null_by, defaulted_by, defaulted_from,
}
use quickhouse.Nulls.Plan.{default_entry}
use quickhouse.Nulls.Distinct.{Distinct, positions, fill_positions, Apart, taken-positions}

module _ (cfg : TransferConfig) (dest : DestKind) (names : List Text) (guards : List Guarded) where
  abbrev pub fills : ℕ → List ColumnType → List Defaulted
  fills idx cols = defaulted_from dest cfg names guards idx cols

  -- The column is one of the destination's at its place, no guard has its position, and the
  -- destination's column can't be NULL.
  abbrev pub FillsAt : List ColumnType → ℕ → ℕ → Text → Type 0
  FillsAt cols idx i name =
      (k : ℕ) × (i ≡ idx + k)
      × ((col : ColumnType) × (get_elem? cols k ≡ some col) × (col.name ≡ name))
      × (taken guards i ≡ false)

  later_FillsAt :
      (c : ColumnType) (cols : List ColumnType) (idx : ℕ) (ds : List Defaulted)
      → All (λ (d : Defaulted). FillsAt cols (idx + 1) d.idx d.column) ds
      → All (λ (d : Defaulted). FillsAt (c ∷ cols) idx d.idx d.column) ds
  later_FillsAt c cols idx [] h = tt
  later_FillsAt c cols idx (d ∷ ds) ((k, e, p, f), hs) =
      ((suc k, omega arith, p, f), later_FillsAt c cols idx ds hs)

  defaulted_by-FillsAt :
      (c : ColumnType) (cols : List ColumnType) (idx : ℕ) (by : Option NotNullBy)
      (ds : List Defaulted)
      → taken guards idx ≡ false
      → All (λ (d : Defaulted). FillsAt (c ∷ cols) idx d.idx d.column) ds
      → All
          (λ (d : Defaulted). FillsAt (c ∷ cols) idx d.idx d.column)
          (defaulted_by dest idx c by ds)
  unfolding default_entry
  defaulted_by-FillsAt c cols idx none ds f h = h
  defaulted_by-FillsAt c cols idx (some by) ds f h = ((0, omega arith, (c, refl, refl), f), h)

  pub defaulted_from-FillsAt :
      (idx : ℕ) (cols : List ColumnType)
      → All (λ (d : Defaulted). FillsAt cols idx d.idx d.column) (fills idx cols)
  unfolding defaulted_from
  defaulted_from-FillsAt idx [] = tt
  defaulted_from-FillsAt idx (c ∷ cols) =
      let rest =
        later_FillsAt c cols idx (fills (idx + 1) cols) (defaulted_from-FillsAt (idx + 1) cols) in
      elim (Bool-cases (c.nullable || taken guards idx)) [
        | inl e ↦ rw e rest
        | inr e ↦ rw e (
            defaulted_by-FillsAt c cols idx (not_null_by cfg names c.name) (fills (idx + 1) cols)
              (ground arith) rest)
      ]

  above :
      (i : ℕ) (ds : List Defaulted)
      → All (λ (d : Defaulted). i < d.idx) ds
      → any (λ c. c == i) (fill_positions ds) ≡ false
  unfolding default_entry
  above i [] h = refl
  above i (d ∷ ds) (h, hs) = let k = above i ds hs in ground arith

  FillsAt-above :
      (cols : List ColumnType) (idx : ℕ) (ds : List Defaulted)
      → All (λ (d : Defaulted). FillsAt cols (idx + 1) d.idx d.column) ds
      → All (λ (d : Defaulted). idx < d.idx) ds
  FillsAt-above cols idx [] h = tt
  FillsAt-above cols idx (d ∷ ds) ((k, e, p, f), hs) = (omega arith, FillsAt-above cols idx ds hs)

  defaulted_by-Distinct :
      (c : ColumnType) (idx : ℕ) (by : Option NotNullBy) (ds : List Defaulted)
      → All (λ (d : Defaulted). idx < d.idx) ds
      → Distinct (fill_positions ds)
      → Distinct (fill_positions (defaulted_by dest idx c by ds))
  unfolding default_entry
  defaulted_by-Distinct c idx none ds h d = d
  defaulted_by-Distinct c idx (some by) ds h d = (above idx ds h, d)

  pub defaulted_from-Distinct :
      (idx : ℕ) (cols : List ColumnType) → Distinct (fill_positions (fills idx cols))
  unfolding defaulted_from
  defaulted_from-Distinct idx [] = tt
  defaulted_from-Distinct idx (c ∷ cols) =
      let rest = defaulted_from-Distinct (idx + 1) cols in
      elim (Bool-cases (c.nullable || taken guards idx)) [
        | inl e ↦ rw e rest
        | inr e ↦ rw e (
            defaulted_by-Distinct c idx (not_null_by cfg names c.name) (fills (idx + 1) cols)
              (FillsAt-above cols idx (fills (idx + 1) cols)
                (defaulted_from-FillsAt (idx + 1) cols))
              rest)
      ]

  pub fills-Apart :
      (cols : List ColumnType) (idx : ℕ) (ds : List Defaulted)
      → All (λ (d : Defaulted). FillsAt cols idx d.idx d.column) ds
      → Apart (positions guards) (fill_positions ds)
  fills-Apart cols idx [] h = tt
  fills-Apart cols idx (d ∷ ds) ((k, e, p, f), hs) =
      (sym (taken-positions guards d.idx) ∙ f, fills-Apart cols idx ds hs)

  defaulted_by-has :
      (idx : ℕ) (c : ColumnType) (by : Option NotNullBy) (ds : List Defaulted)
      → is_some by ≡ true
      → any (λ i. i == idx) (fill_positions (defaulted_by dest idx c by ds)) ≡ true
  unfolding default_entry
  defaulted_by-has idx c none ds h = cc
  defaulted_by-has idx c (some by) ds h = ground arith

  defaulted_by-keeps :
      (idx i : ℕ) (c : ColumnType) (by : Option NotNullBy) (ds : List Defaulted)
      → any (λ j. j == i) (fill_positions ds) ≡ true
      → any (λ j. j == i) (fill_positions (defaulted_by dest idx c by ds)) ≡ true
  unfolding default_entry
  defaulted_by-keeps idx i c none ds h = h
  defaulted_by-keeps idx i c (some by) ds h = ground arith

  -- A column that an option makes NOT NULL is guarded or gets a default.
  pub defaulted_from-has :
      (idx k : ℕ) (cols : List ColumnType) (col : ColumnType)
      → get_elem? cols k ≡ some col
      → col.nullable ≡ false
      → is_some (not_null_by cfg names col.name) ≡ true
      → taken guards (idx + k) ≡ false
      → any (λ i. i == idx + k) (fill_positions (fills idx cols)) ≡ true
  unfolding defaulted_from
  defaulted_from-has idx k [] col h n by free = cc
  defaulted_from-has idx zero (c ∷ cols) col h n by free =
      let same : c ≡ col = some-injective c col h in
      let here : taken guards idx ≡ false = ap (taken guards) (omega arith) ∙ free in
      let solid : c.nullable ≡ false = ap (λ (x : ColumnType). x.nullable) same ∙ n in
      let named : is_some (not_null_by cfg names c.name) ≡ true =
        ap (λ (x : ColumnType). is_some (not_null_by cfg names x.name)) same ∙ by in
      let off : (c.nullable || taken guards idx) ≡ false = ground arith in
      let start : idx + 0 ≡ idx = omega arith in
      rw (start, off)
        (defaulted_by-has idx c (not_null_by cfg names c.name) (fills (idx + 1) cols) named)
  defaulted_from-has idx (suc k) (c ∷ cols) col h n by free =
      let ih =
        defaulted_from-has (idx + 1) k cols col h n by (ap (taken guards) (omega arith) ∙ free) in
      let here : any (λ i. i == idx + suc k) (fill_positions (fills (idx + 1) cols)) ≡ true =
        ap (λ (j : ℕ). any (λ i. i == j) (fill_positions (fills (idx + 1) cols))) (omega arith)
        ∙ ih in
      elim (Bool-cases (c.nullable || taken guards idx)) [
        | inl e ↦ rw e here
        | inr e ↦ rw e (
            defaulted_by-keeps idx (idx + suc k) c (not_null_by cfg names c.name)
              (fills (idx + 1) cols) here)
      ]
