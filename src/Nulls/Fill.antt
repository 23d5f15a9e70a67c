-- ===== src/Nulls/Fill.antt =====
-- The second step of the filter: the loop over the columns whose NULLs become a default.
use quickhouse.Prelude.{
  ℕ, ◌≡◌, refl, ap, sym, ◌∙◌, inl, inr, false, some, List, [], ◌∷◌, arith, length, get_elem?, All,
  Bool-cases, ◌==◌, ==→eq,
}
use quickhouse.Nulls.{
  Value, Field, nulls, RecordBatch, Fits, Arrays, Defaulted, zero_scalar, set, fill_nulls,
  fill_columns,
}
use quickhouse.Nulls.Kept.{HasColumn, column_at-HasColumn}
use quickhouse.Nulls.Written.{
  get_elem?-set, nulls-filled, length-filled, NoNull, Listed, WrittenFrom, Fits-set, NoNull-set,
  WrittenFrom-set,
}

module _ (ar : Arrays) where
  open ar use {Array, data_type, cells}

  abbrev pub Counted : List Array → List Defaulted → List ℕ → Type 0
  Counted xs [] [] = Unit
  Counted xs [] (n ∷ ns) = ⊥
  Counted xs (d ∷ ds) [] = ⊥
  Counted xs (d ∷ ds) (n ∷ ns) =
      ((x : Array) × (get_elem? xs d.idx ≡ some x) × (n ≡ nulls (cells x))) × Counted xs ds ns

  -- The batch has the column, and its type has a default.
  abbrev pub Fillable : RecordBatch Array → Defaulted → Type 0
  Fillable b d =
      (x : Array) × (v : Value) × (HasColumn ar b d.idx d.column x)
      × (zero_scalar (data_type x) d.text ≡ some v)

  module _ (b : RecordBatch Array) (n : ℕ) (fs : List Field) (all_ds : List Defaulted) where
    pub record FilledOut (ds : List Defaulted) (columns : List Array) (r : List Array × List ℕ)
        : Type 0 where
      pub returned : fill_columns ar b ds columns ≡ inr r
      pub fits : Fits data_type cells n fs r.0
      pub written : WrittenFrom ar all_ds b.columns r.0
      pub no_null : All (λ d. NoNull ar r.0 d.idx) ds
      pub kept_no_null : (i : ℕ) → NoNull ar columns i → NoNull ar r.0 i
      pub counted : Counted b.columns ds r.1

    abbrev Filled : List Defaulted → List Array → Type 0
    Filled ds columns = (r : List Array × List ℕ) × FilledOut ds columns r

    unchanged :
        (d : Defaulted) (ds : List Defaulted) (columns : List Array) (x : Array)
        → HasColumn ar b d.idx d.column x
        → nulls (cells x) ≡ 0
        → WrittenFrom ar all_ds b.columns columns
        → Filled ds columns
        → Filled (d ∷ ds) columns
    unfolding fill_columns
    unchanged d ds columns x h e w (r, o) =
        let (y, hy, (ty, c)) = w d.idx x h.3 in
        let y_no_null : nulls (cells y) ≡ 0 = elim c [
          | inl s ↦ ap nulls s ∙ e
          | inr f ↦ let (d', v, l, i, z, s) = f in ap nulls s ∙ nulls-filled v (cells x)
        ] in
        (
          (r.0, nulls (cells x) ∷ r.1),
          record {
            returned = rw (column_at-HasColumn ar b d.idx d.column x h, e, o.returned) refl;
            fits = o.fits;
            written = o.written;
            no_null = (o.kept_no_null d.idx (y, hy, y_no_null), o.no_null);
            kept_no_null = o.kept_no_null;
            counted = ((x, h.3, refl), o.counted);
          },
        )

    changed :
        (d : Defaulted) (ds : List Defaulted) (columns : List Array) (x y : Array) (v : Value)
        → HasColumn ar b d.idx d.column x
        → zero_scalar (data_type x) d.text ≡ some v
        → get_elem? columns d.idx ≡ some y
        → (nulls (cells x) == 0) ≡ false
        → Filled ds (set columns d.idx (ar.fill x v))
        → Filled (d ∷ ds) columns
    unfolding fill_columns fill_nulls
    changed d ds columns x y v h z hy e (r, o) =
        let nn : nulls (cells (ar.fill x v)) ≡ 0 =
          ap nulls (ar.cells-fill x v) ∙ nulls-filled v (cells x) in
        let here : NoNull ar (set columns d.idx (ar.fill x v)) d.idx =
          (ar.fill x v, get_elem?-set columns d.idx d.idx y (ar.fill x v) hy ∙ ground arith, nn) in
        (
          (r.0, nulls (cells x) ∷ r.1),
          record {
            returned = rw (column_at-HasColumn ar b d.idx d.column x h, z, e, o.returned) refl;
            fits = o.fits;
            written = o.written;
            no_null = (o.kept_no_null d.idx here, o.no_null);
            kept_no_null =
                λ i k. o.kept_no_null i (NoNull-set ar columns d.idx i y (ar.fill x v) hy nn k);
            counted = ((x, h.3, refl), o.counted);
          },
        )

    -- The loop ends with every column filled in.
    pub fill_columns-FilledOut :
        (ds : List Defaulted) (columns : List Array)
        → All (Fillable b) ds
        → All (Listed ar all_ds) ds
        → Fits data_type cells n fs columns
        → WrittenFrom ar all_ds b.columns columns
        → ((i : ℕ) (x : Array) → get_elem? b.columns i ≡ some x → length (cells x) ≡ n)
        → Filled ds columns
    unfolding fill_columns
    fill_columns-FilledOut [] columns f l fits w len = (
      (columns, []),
      record {
        returned = refl;
        fits = fits;
        written = w;
        no_null = tt;
        kept_no_null = λ i k. k;
        counted = tt;
      },
    )
    fill_columns-FilledOut (d ∷ ds) columns (f, fl) (l, ls) fits w len =
        let (x, v, h, z) = f in
        let (y, hy, (ty, c)) = w d.idx x h.3 in
        let filled = ar.fill x v in
        let ty' : data_type filled ≡ data_type x = ar.data_type-fill x v in
        elim (Bool-cases (nulls (cells x) == 0)) [
          | inl e ↦
              unchanged d ds columns x h (==→eq (nulls (cells x)) 0 e) w
                (fill_columns-FilledOut ds columns fl ls fits w len)
          | inr e ↦ changed d ds columns x y v h z hy e (
              fill_columns-FilledOut ds (set columns d.idx filled) fl ls
                (Fits-set ar n fs columns d.idx y filled hy (ty' ∙ sym ty)
                  (ap length (ar.cells-fill x v) ∙ length-filled v (cells x) ∙ len d.idx x h.3)
                  (ap nulls (ar.cells-fill x v) ∙ nulls-filled v (cells x)) fits)
                (WrittenFrom-set ar all_ds b.columns columns d.idx x y filled h.3 hy
                  (ty', inr (d, v, l, refl, z, ar.cells-fill x v)) w)
                len)
        ]
