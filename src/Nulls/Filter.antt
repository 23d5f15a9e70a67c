-- ===== src/Nulls/Filter.antt =====
-- The filter as a whole: what it leaves of a batch that was decoded under the plan.
use quickhouse.Prelude.{
  ℕ, zero, suc, ◌+◌, ◌≡◌, refl, ap, sym, ◌∙◌, subst, inl, inr, Bool, some, List, [], ◌∷◌, arith,
  length, get_elem?, map, sum, All, All-append,
}
use mathlib.Core.Option.{some-injective}
use quickhouse.Nulls.{
  kept, trues, nulls, RecordBatch, Fits, Arrays, Guarded, Defaulted, NullGuard, Filtered, checked,
  zero_scalar, strict_schema, all_cells, leave_out, filter,
}
use quickhouse.Nulls.Marks.{complete_rows, length-complete_rows, nulls-kept}
use quickhouse.Nulls.Kept.{
  KeptIn-Fits, KeptIn-get, Found, guarded_columns-Found, LeftOut, leave_out-LeftOut,
}
use quickhouse.Nulls.Written.{NoNull, Written, WrittenFrom, Fits-get}
use quickhouse.Nulls.Fill.{Counted, Fillable, FilledOut, fill_columns-FilledOut}
use quickhouse.Nulls.Strict.{length-strict_schema, Fits-strict_schema, try_new-Fits}
use quickhouse.Nulls.Decoded.{Decoded, Wrote, NullCounts, Filters}

module _ {A : Type 0} where
  Listed_from :
      (all_ds ds : List A) (off : ℕ)
      → ((k : ℕ) → get_elem? ds k ≡ get_elem? all_ds (off + k))
      → All (λ d. (j : ℕ) × (get_elem? all_ds j ≡ some d)) ds
  Listed_from all_ds [] off h = tt
  Listed_from all_ds (d ∷ ds) off h = (
    (off, ap (get_elem? all_ds) (omega arith) ∙ sym (h 0)),
    Listed_from all_ds ds (off + 1) (λ k. h (suc k) ∙ ap (get_elem? all_ds) (omega arith)),
  )

  All-implies : (P Q : A → Type 0) → ((a : A) → P a → Q a) → (xs : List A) → All P xs → All Q xs
  All-implies P Q f [] h = tt
  All-implies P Q f (x ∷ xs) (h, hs) = (f x h, All-implies P Q f xs hs)

  All-map :
      {B : Type 0} (f : A → B) (P : B → Type 0) (xs : List A)
      → All (λ a. P (f a)) xs
      → All P (map f xs)
  All-map f P [] h = tt
  All-map f P (x ∷ xs) (h, hs) = (h, All-map f P xs hs)

module _ (ar : Arrays) where
  open ar use {Array, data_type, cells}

  get_elem?-all_cells :
      (xs : List Array) (k : ℕ) (x : Array)
      → get_elem? xs k ≡ some x
      → get_elem? (all_cells ar xs) k ≡ some (cells x)
  get_elem?-all_cells [] k x h = cc
  get_elem?-all_cells (y ∷ ys) zero x h = ap (λ a. some (cells a)) (some-injective y x h)
  get_elem?-all_cells (y ∷ ys) (suc k) x h = get_elem?-all_cells ys k x h

  module _ (g : NullGuard) (b : RecordBatch Array) (guards : List Array)
      (d : Decoded ar g b guards) where
    abbrev keep : List Bool
    keep = complete_rows (all_cells ar guards) 0 b.num_rows

    keep_fits : Fits data_type cells (length keep) b.fields b.columns
    keep_fits =
        subst (λ n. Fits data_type cells n b.fields b.columns)
          (sym (length-complete_rows (all_cells ar guards) 0 b.num_rows)) d.fits

    module _ (p : RecordBatch Array × List ℕ) (l : LeftOut ar b guards p) where
      kept_fits : Fits data_type cells (trues keep) p.0.fields p.0.columns
      kept_fits =
          rw l.fields (KeptIn-Fits ar keep b.fields b.columns p.0.columns keep_fits l.columns)

      -- The guarded columns have lost their NULLs.
      guards-NoNull :
          (cs : List Guarded) (xs : List Array)
          → Found ar b cs xs
          → ((k : ℕ) (x : Array)
              → get_elem? xs k ≡ some x
              → (m : ℕ) × (get_elem? (all_cells ar guards) m ≡ some (cells x)))
          → All (NoNull ar p.0.columns) (map (λ (c : Guarded). c.idx) cs)
      guards-NoNull [] xs f among = tt
      guards-NoNull (c ∷ cs) [] f among = absurd f
      guards-NoNull (c ∷ cs) (x ∷ xs) (h, f) among =
          let (m, hm) = among 0 x refl in
          let (y, hy, ty, e) = KeptIn-get ar keep b.columns p.0.columns c.idx x l.columns h.3 in
          let len : length (cells x) ≡ b.num_rows =
            Fits-get ar b.num_rows b.fields b.columns c.idx x h.3 d.fits in
          (
            (
              y,
              hy,
              ap nulls e
                  ∙ ap (λ n. nulls (kept (complete_rows (all_cells ar guards) 0 n) (cells x)))
                      (sym len)
                  ∙ nulls-kept (all_cells ar guards) m (cells x) hm,
            ),
            guards-NoNull cs xs f (λ k. among (suc k)),
          )

      still-Fillable : (ds : List Defaulted) → All (Fillable ar b) ds → All (Fillable ar p.0) ds
      still-Fillable [] h = tt
      still-Fillable (c ∷ ds) (h, hs) =
          let (x, v, (f, hf, hn, hx), z) = h in
          let (y, hy, ty, e) = KeptIn-get ar keep b.columns p.0.columns c.idx x l.columns hx in
          (
            (y, v, (f, rw l.fields hf, hn, hy), ap (λ t. zero_scalar t c.text) ty ∙ z),
            still-Fillable ds hs,
          )

      written_self : WrittenFrom ar g.defaulted p.0.columns p.0.columns
      written_self i x h = (x, h, (refl, inl refl))

      Written-Wrote :
          (i : ℕ) (x k y : Array)
          → data_type k ≡ data_type x
          → cells k ≡ kept keep (cells x)
          → Written ar g.defaulted i k y
          → Wrote ar g.defaulted i x (kept keep (cells x)) (cells y)
      Written-Wrote i x k y ty e (_, inl s) = inl (s ∙ e)
      Written-Wrote i x k y ty e (_, inr (c, v, li, hi, z, s)) =
          inr (c, v, li, hi, ap (λ t. zero_scalar t c.text) (sym ty) ∙ z, rw (← e) s)

      filled_all :
          (r : List Array × List ℕ)
          → FilledOut ar p.0 (trues keep) p.0.fields g.defaulted g.defaulted p.0.columns r
          → All (NoNull ar r.0) (checked g)
      unfolding checked
      filled_all r o =
          All-append (NoNull ar r.0) (map (λ (c : Guarded). c.idx) g.columns)
            (map (λ (c : Defaulted). c.idx) g.defaulted)
            (All-implies (λ (i : ℕ). NoNull ar p.0.columns i) (NoNull ar r.0) o.kept_no_null _
              (guards-NoNull g.columns guards d.found
                (λ k x h. (k, get_elem?-all_cells guards k x h))))
            (All-map (λ (c : Defaulted). c.idx) (NoNull ar r.0) g.defaulted o.no_null)

      abbrev result : (r : List Array × List ℕ) → Filtered Array
      result r = record {
        batch = record {
          fields = strict_schema g p.0.fields;
          columns = r.0;
          num_rows = trues keep;
        };
        left_out = p.1;
        defaulted = r.1;
      }

      null_counts :
          (ds : List Defaulted) (ns : List ℕ)
          → All (Fillable ar b) ds
          → Counted ar p.0.columns ds ns
          → NullCounts ar b guards ds ns
      null_counts [] [] h c = tt
      null_counts [] (n ∷ ns) h c = absurd c
      null_counts (c ∷ ds) [] h k = absurd k
      null_counts (c ∷ ds) (n ∷ ns) (h, hs) ((z, hz, e), k) =
          let (x, v, (f, hf, hn, hx), _) = h in
          let (y, hy, ty, s) = KeptIn-get ar keep b.columns p.0.columns c.idx x l.columns hx in
          let z-y : z ≡ y = some-injective z y (sym hz ∙ hy) in
          ((x, hx, e ∙ ap (λ w. nulls (cells w)) z-y ∙ ap nulls s), null_counts ds ns hs k)

      result-Filters :
          (r : List Array × List ℕ)
          → FilledOut ar p.0 (trues keep) p.0.fields g.defaulted g.defaulted p.0.columns r
          → Filters ar g b guards (result r)
      result-Filters r o = record {
        schema = ap (strict_schema g) l.fields;
        rows = refl;
        total = ap (λ n. n + sum p.1) (sym l.rows) ∙ l.total;
        lengths = l.lengths;
        counts = l.counts;
        no_null = filled_all r o;
        defaulted = null_counts g.defaulted r.1 d.fillable o.counted;
        values = λ i x h.
            let (k, hk, ty, e) = KeptIn-get ar keep b.columns p.0.columns i x l.columns h in
            let (y, hy, w) = o.written i k hk in (y, hy, Written-Wrote i x k y ty e w);
      }

      filled_out :
          (r : List Array × List ℕ) × FilledOut ar p.0
            (trues keep)
            p.0.fields
            g.defaulted
            g.defaulted
            p.0.columns
            r
      filled_out =
          fill_columns-FilledOut ar p.0 (trues keep) p.0.fields g.defaulted g.defaulted p.0.columns
            (still-Fillable g.defaulted d.fillable)
            (Listed_from g.defaulted g.defaulted 0 (λ k. ap (get_elem? g.defaulted) (omega arith)))
            kept_fits written_self
            (λ i x h. Fits-get ar (trues keep) p.0.fields p.0.columns i x h kept_fits)

      built :
          (r : List Array × List ℕ)
          → FilledOut ar p.0 (trues keep) p.0.fields g.defaulted g.defaulted p.0.columns r
          → ar.try_new (strict_schema g p.0.fields) r.0 ≡ inr (result r).batch
      built r o =
          try_new-Fits ar (trues keep) (strict_schema g p.0.fields) r.0
            (let s = length-strict_schema g p.0.fields in
              let t = ap length l.fields in let q = d.some_field in omega arith)
            (Fits-strict_schema ar g (trues keep) p.0.fields r.0 o.fits (filled_all r o))

    -- The filter returns for every batch that is decoded under the plan. Every row is kept or
    -- counted as left out, exactly once: the rows that are kept are those with no NULL in a guarded
    -- column, in order, and each other row counts against the first guarded column that is NULL in
    -- it. No checked column holds a NULL any more, and the schema says so. Every other value is as
    -- it was: a column is either its kept rows, or these with each NULL replaced by the default of
    -- one of the columns that have one, whose count is the number of its NULLs among them.
    pub filter-Filters : (f : Filtered Array) × (filter ar g b ≡ inr f) × Filters ar g b guards f
    unfolding filter
    filter-Filters =
        let p = leave_out ar b guards in
        let l = leave_out-LeftOut ar b guards d.fits in
        let (r, o) = filled_out p l in
        (
          result p l r,
          rw (guarded_columns-Found ar b g.columns guards d.found, o.returned, built p l r o) refl,
          result-Filters p l r o,
        )
