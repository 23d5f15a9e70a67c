-- ===== src/Nulls/Decoded.antt =====
-- What a batch that was decoded under the plan is, and what the filter is to make of it.
use quickhouse.Prelude.{
  ℕ, ◌+◌, ◌<◌, ◌≡◌, ◌⊎◌, Option, some, List, [], ◌∷◌, length, get_elem?, map, sum, All, unwrap_or,
}
use quickhouse.Nulls.{
  Value, kept, trues, nulls, RecordBatch, Fits, Arrays, Defaulted, NullGuard, Filtered, checked,
  zero_scalar, strict_schema, all_cells,
}
use quickhouse.Nulls.Marks.{complete_rows, blamed_rows, at}
use quickhouse.Nulls.Kept.{Found}
use quickhouse.Nulls.Written.{NoNull, Listed}
use quickhouse.Nulls.Fill.{Fillable}

module _ (ar : Arrays) where
  open ar use {Array, data_type, cells}

  -- A batch that was decoded under the plan: it is one that arrow accepts, with the checked columns
  -- where the guard looks for them, and with types that have a default.
  pub record Decoded (g : NullGuard) (b : RecordBatch Array) (guards : List Array) : Type 0 where
    pub some_field : 0 < length b.fields
    pub fits : Fits data_type cells b.num_rows b.fields b.columns
    pub found : Found ar b g.columns guards
    pub fillable : All (Fillable ar b) g.defaulted

  -- `new` is what is written of the cells `old` at `i`: those cells, or the default of one of the
  -- columns `ds` in place of each NULL.
  abbrev pub Wrote : List Defaulted → ℕ → Array → List (Option Value) → List (Option Value) → Type 0
  Wrote ds i x old new =
      (new ≡ old)
      ⊎ ((d : Defaulted) × (v : Value) × (Listed ar ds d)
          × (d.idx ≡ i)
          × (zero_scalar (data_type x) d.text ≡ some v)
          × (new ≡ map (λ o. some (unwrap_or o v)) old))

  -- For each column with a default, its NULLs in the rows that are kept.
  abbrev pub NullCounts : RecordBatch Array → List Array → List Defaulted → List ℕ → Type 0
  NullCounts b guards [] [] = Unit
  NullCounts b guards [] (n ∷ ns) = ⊥
  NullCounts b guards (d ∷ ds) [] = ⊥
  NullCounts b guards (d ∷ ds) (n ∷ ns) =
      ((x : Array) × (get_elem? b.columns d.idx ≡ some x)
        × (n ≡ nulls (kept (complete_rows (all_cells ar guards) 0 b.num_rows) (cells x))))
      × NullCounts b guards ds ns

  -- What the filter makes of such a batch.
  pub record Filters (g : NullGuard) (b : RecordBatch Array) (guards : List Array)
      (f : Filtered Array) : Type 0 where
    pub schema : f.batch.fields ≡ strict_schema g b.fields
    pub rows : f.batch.num_rows ≡ trues (complete_rows (all_cells ar guards) 0 b.num_rows)
    pub total : f.batch.num_rows + sum f.left_out ≡ b.num_rows
    pub lengths : length f.left_out ≡ length guards
    pub counts : (j : ℕ) → at j f.left_out ≡ blamed_rows (all_cells ar guards) 0 b.num_rows j
    pub no_null : All (NoNull ar f.batch.columns) (checked g)
    pub defaulted : NullCounts b guards g.defaulted f.defaulted
    pub values :
        (i : ℕ) (x : Array)
        → get_elem? b.columns i ≡ some x
        → (y : Array) × (get_elem? f.batch.columns i ≡ some y)
          × Wrote g.defaulted i x
              (kept (complete_rows (all_cells ar guards) 0 b.num_rows) (cells x))
              (cells y)
