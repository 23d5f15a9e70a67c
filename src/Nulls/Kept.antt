-- ===== src/Nulls/Kept.antt =====
-- The first step of the filter: the rows that are left out.
use quickhouse.Prelude.{
  ℕ, zero, suc, ◌+◌, ◌≡◌, refl, ap, sym, ◌∙◌, inl, inr, Bool, true, Option, some, List, [], ◌∷◌,
  arith, length, get_elem?, sum, map, All, Bool-cases, replicate, length-replicate,
}
use mathlib.Core.Option.{some-injective}
use quickhouse.Prelude.Text.{Text, text_eq}
use quickhouse.Nulls.{
  Value, Field, kept, trues, nulls, RecordBatch, Fits, Arrays, Guarded, column_at, guarded_columns,
  all_cells, no_nulls, leave_out,
}
use quickhouse.Nulls.Marks.{
  complete_rows, blamed_rows, at, mark_rows_complete, length-mark_rows, sum-mark_rows, at-mark_rows,
  length-kept, nulls-kept-le, blamed_rows_none, trues_all, kept_all, at-replicate, sum-replicate,
}

module _ (ar : Arrays) where
  open ar use {Array, data_type, cells}

  -- The batch has the column named `name` at `idx`.
  abbrev pub HasColumn : RecordBatch Array → ℕ → Text → Array → Type 0
  HasColumn b idx name a =
      (f : Field) × (get_elem? b.fields idx ≡ some f)
      × (text_eq f.name name ≡ true)
      × (get_elem? b.columns idx ≡ some a)

  pub column_at-HasColumn :
      (b : RecordBatch Array) (idx : ℕ) (name : Text) (a : Array)
      → HasColumn b idx name a
      → column_at ar b idx name ≡ inr a
  unfolding column_at
  column_at-HasColumn b idx name a (f, hf, hn, ha) = rw (hf, ha, hn) refl

  -- The columns with the rows that are kept.
  abbrev pub KeptIn : List Bool → List Array → List Array → Type 0
  KeptIn ks [] [] = Unit
  KeptIn ks [] (y ∷ ys) = ⊥
  KeptIn ks (x ∷ xs) [] = ⊥
  KeptIn ks (x ∷ xs) (y ∷ ys) =
      (data_type y ≡ data_type x) × (cells y ≡ kept ks (cells x)) × KeptIn ks xs ys

  KeptIn-filter : (ks : List Bool) (xs : List Array) → KeptIn ks xs (map (ar.filter_cells ks) xs)
  KeptIn-filter ks [] = tt
  KeptIn-filter ks (x ∷ xs) =
      (ar.data_type-filter_cells ks x, ar.cells-filter_cells ks x, KeptIn-filter ks xs)

  KeptIn-same :
      (n : ℕ) (cs : List (List (Option Value))) (fs : List Field) (xs : List Array)
      → All (λ c. nulls c ≡ 0) cs
      → Fits data_type cells n fs xs
      → KeptIn (complete_rows cs 0 n) xs xs
  KeptIn-same n cs [] [] h fits = tt
  KeptIn-same n cs [] (x ∷ xs) h fits = absurd fits
  KeptIn-same n cs (f ∷ fs) [] h fits = absurd fits
  KeptIn-same n cs (f ∷ fs) (x ∷ xs) h (ty, len, nn, fits) =
      (refl, rw (← len) (sym (kept_all cs h 0 (cells x))), KeptIn-same n cs fs xs h fits)

  pub KeptIn-Fits :
      (ks : List Bool) (fs : List Field) (xs ys : List Array)
      → Fits data_type cells (length ks) fs xs
      → KeptIn ks xs ys
      → Fits data_type cells (trues ks) fs ys
  KeptIn-Fits ks [] [] [] fits k = tt
  KeptIn-Fits ks [] [] (y ∷ ys) fits k = absurd k
  KeptIn-Fits ks [] (x ∷ xs) ys fits k = absurd fits
  KeptIn-Fits ks (f ∷ fs) [] ys fits k = absurd fits
  KeptIn-Fits ks (f ∷ fs) (x ∷ xs) [] fits k = absurd k
  KeptIn-Fits ks (f ∷ fs) (x ∷ xs) (y ∷ ys) (ty, len, nn, fits) (ty', e, k) = (
    ty ∙ sym ty',
    rw e (length-kept ks (cells x) (sym len)),
    λ h. rw e (let p = nulls-kept-le ks (cells x) in let q = nn h in omega arith),
    KeptIn-Fits ks fs xs ys fits k,
  )

  pub KeptIn-get :
      (ks : List Bool) (xs ys : List Array) (i : ℕ) (x : Array)
      → KeptIn ks xs ys
      → get_elem? xs i ≡ some x
      → (y : Array) × (get_elem? ys i ≡ some y)
        × (data_type y ≡ data_type x)
        × (cells y ≡ kept ks (cells x))
  KeptIn-get ks [] ys i x k h = cc
  KeptIn-get ks (z ∷ xs) [] i x k h = absurd k
  KeptIn-get ks (z ∷ xs) (y ∷ ys) zero x (ty, e, k) h =
      let p = some-injective z x h in
      (y, refl, ty ∙ ap data_type p, e ∙ ap (λ a. kept ks (cells a)) p)
  KeptIn-get ks (z ∷ xs) (y ∷ ys) (suc i) x (ty, e, k) h = KeptIn-get ks xs ys i x k h

  -- The guarded columns, as they are found.
  abbrev pub Found : RecordBatch Array → List Guarded → List Array → Type 0
  Found b [] [] = Unit
  Found b [] (a ∷ arrays) = ⊥
  Found b (c ∷ cs) [] = ⊥
  Found b (c ∷ cs) (a ∷ arrays) = HasColumn b c.idx c.dest a × Found b cs arrays

  pub guarded_columns-Found :
      (b : RecordBatch Array) (cs : List Guarded) (arrays : List Array)
      → Found b cs arrays
      → guarded_columns ar b cs ≡ inr arrays
  unfolding guarded_columns
  guarded_columns-Found b [] [] h = refl
  guarded_columns-Found b [] (a ∷ arrays) h = absurd h
  guarded_columns-Found b (c ∷ cs) [] h = absurd h
  guarded_columns-Found b (c ∷ cs) (a ∷ arrays) (h, hs) =
      rw (column_at-HasColumn b c.idx c.dest a h, guarded_columns-Found b cs arrays hs) refl

  length-all_cells : (xs : List Array) → length (all_cells ar xs) ≡ length xs
  length-all_cells [] = refl
  length-all_cells (x ∷ xs) = ap suc (length-all_cells xs)

  no_nulls-All :
      (xs : List Array) → no_nulls ar xs ≡ true → All (λ c. nulls c ≡ 0) (all_cells ar xs)
  no_nulls-All [] h = tt
  no_nulls-All (x ∷ xs) h = (ground arith, no_nulls-All xs (ground arith))

  -- What is left of a batch: the complete rows of each column, and the counts of the others.
  pub record LeftOut (b : RecordBatch Array) (guards : List Array) (r : RecordBatch Array × List ℕ)
      : Type 0 where
    pub fields : r.0.fields ≡ b.fields
    pub rows : r.0.num_rows ≡ trues (complete_rows (all_cells ar guards) 0 b.num_rows)
    pub columns : KeptIn (complete_rows (all_cells ar guards) 0 b.num_rows) b.columns r.0.columns
    pub total : r.0.num_rows + sum r.1 ≡ b.num_rows
    pub lengths : length r.1 ≡ length guards
    pub counts : (j : ℕ) → at j r.1 ≡ blamed_rows (all_cells ar guards) 0 b.num_rows j

  pub leave_out-LeftOut :
      (b : RecordBatch Array) (guards : List Array)
      → Fits data_type cells b.num_rows b.fields b.columns
      → LeftOut b guards (leave_out ar b guards)
  unfolding leave_out
  leave_out-LeftOut b guards fits =
      let cs = all_cells ar guards in
      let n = b.num_rows in
      let zeros : List ℕ = replicate (length guards) 0 in
      let len : length zeros ≡ length cs =
        length-replicate (length guards) 0 ∙ sym (length-all_cells guards) in
      elim (Bool-cases (no_nulls ar guards)) [
        | inl e ↦
            let none_null = no_nulls-All guards e in
            rw e (record {
              fields = refl;
              rows = sym (trues_all cs none_null 0 n);
              columns = KeptIn-same n cs b.fields b.columns none_null fits;
              total = rw (sum-replicate (length guards)) (omega arith);
              lengths = length-replicate (length guards) 0;
              counts =
                  λ j. at-replicate (length guards) j ∙ sym (blamed_rows_none cs none_null 0 n j);
            })
        | inr e ↦
            rw (e, mark_rows_complete cs 0 n zeros)
              (record {
                fields = refl;
                rows = refl;
                columns = KeptIn-filter (complete_rows cs 0 n) b.columns;
                total =
                    sum-mark_rows cs 0 n zeros len
                    ∙ rw (sum-replicate (length guards)) (omega arith);
                lengths = length-mark_rows cs 0 n zeros len ∙ length-all_cells guards;
                counts = λ j.
                    at-mark_rows cs 0 n j zeros len
                    ∙ rw (at-replicate (length guards) j) (omega arith);
              })
      ]
