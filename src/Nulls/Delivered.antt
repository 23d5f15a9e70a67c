-- ===== src/Nulls/Delivered.antt =====
-- The guard that is made for a plan filters every batch that is decoded under the plan.
use quickhouse.Prelude.{
  ℕ, zero, suc, ◌<◌, ◌≡◌, refl, ap, sym, ◌∙◌, subst, inr, true, Option, some, List, [], ◌∷◌, map,
  All, get_elem?, length, unwrap_or,
}
use mathlib.Core.Option.{some-injective}
use quickhouse.Prelude.Text.{Text, text_eq_refl}
use quickhouse.Arrow.{DataType, ColumnType}
use quickhouse.Nulls.{
  Value, Field, RecordBatch, Fits, Arrays, Guarded, Defaulted, NullGuard, Filtered, checked,
  zero_scalar, make_nullable, make_all_nullable, decode_columns, filter,
}
use quickhouse.Nulls.Plan.{DestKind, TransferConfig, SelectPlan, new}
use quickhouse.Nulls.Distinct.{Placed}
use quickhouse.Nulls.Checked.{guard-Checks}
use quickhouse.Nulls.Kept.{HasColumn, Found}
use quickhouse.Nulls.Fill.{Fillable}
use quickhouse.Nulls.Decoded.{Filters}
use quickhouse.Nulls.Filter.{filter-Filters}

-- A type that a decoder produces.
abbrev pub IsKnown : DataType → Type 0
IsKnown DataType.other = ⊥
IsKnown _ = Unit

zero_scalar_known :
    (ty : DataType) (t : Option Text) → IsKnown ty → (v : Value) × (zero_scalar ty t ≡ some v)
unfolding zero_scalar
zero_scalar_known DataType.utf8 t h = (Value.text (unwrap_or t []), refl)
zero_scalar_known DataType.large_utf8 t h = (Value.text (unwrap_or t []), refl)
zero_scalar_known DataType.other t h = absurd h
zero_scalar_known DataType.boolean t h = (_, refl)
zero_scalar_known DataType.int8 t h = (_, refl)
zero_scalar_known DataType.int16 t h = (_, refl)
zero_scalar_known DataType.int32 t h = (_, refl)
zero_scalar_known DataType.int64 t h = (_, refl)
zero_scalar_known DataType.uint8 t h = (_, refl)
zero_scalar_known DataType.uint16 t h = (_, refl)
zero_scalar_known DataType.uint32 t h = (_, refl)
zero_scalar_known DataType.uint64 t h = (_, refl)
zero_scalar_known DataType.float32 t h = (_, refl)
zero_scalar_known DataType.float64 t h = (_, refl)
zero_scalar_known DataType.binary t h = (_, refl)
zero_scalar_known DataType.large_binary t h = (_, refl)
zero_scalar_known DataType.date32 t h = (_, refl)
zero_scalar_known DataType.date64 t h = (_, refl)
zero_scalar_known (DataType.fixed_size_binary n) t h = (_, refl)
zero_scalar_known (DataType.timestamp unit tz) t h = (_, refl)
zero_scalar_known (DataType.decimal128 p s) t h = (_, refl)
zero_scalar_known (DataType.decimal256 p s) t h = (_, refl)

-- The schema that a decoder builds batches with.
abbrev pub field_of : ColumnType → Field
field_of c = record { name = c.name; data_type = c.arrow; nullable = c.nullable }

abbrev pub decode_fields : NullGuard → SelectPlan → List Field
unfolding decode_columns
decode_fields g plan = map field_of (decode_columns g plan.dest_columns)

-- The column at `i` but for its being nullable.
abbrev SameAt : List ColumnType → ℕ → ColumnType → Type 0
SameAt cols i c =
    (d : ColumnType) × (get_elem? cols i ≡ some d) × (d.name ≡ c.name) × (d.arrow ≡ c.arrow)

SameAt-make_nullable :
    (cols : List ColumnType) (i j : ℕ) (c : ColumnType)
    → SameAt cols i c
    → SameAt (make_nullable cols j) i c
SameAt-make_nullable [] i j c h = h
SameAt-make_nullable (x ∷ cols) zero zero c (d, h, n, a) =
    let e : x ≡ d = some-injective x d h in
    (
      record x { nullable = true },
      refl,
      ap (λ (y : ColumnType). y.name) e ∙ n,
      ap (λ (y : ColumnType). y.arrow) e ∙ a,
    )
SameAt-make_nullable (x ∷ cols) (suc i) zero c h = h
SameAt-make_nullable (x ∷ cols) zero (suc j) c h = h
SameAt-make_nullable (x ∷ cols) (suc i) (suc j) c h = SameAt-make_nullable cols i j c h

SameAt-all :
    (positions : List ℕ) (cols : List ColumnType) (i : ℕ) (c : ColumnType)
    → SameAt cols i c
    → SameAt (make_all_nullable cols positions) i c
SameAt-all [] cols i c h = h
SameAt-all (j ∷ positions) cols i c h =
    SameAt-all positions (make_nullable cols j) i c (SameAt-make_nullable cols i j c h)

get_elem?-map :
    (cols : List ColumnType) (i : ℕ) (c : ColumnType)
    → get_elem? cols i ≡ some c
    → get_elem? (map field_of cols) i ≡ some (field_of c)
get_elem?-map [] i c h = cc
get_elem?-map (x ∷ cols) zero c h = ap (λ y. some (field_of y)) (some-injective x c h)
get_elem?-map (x ∷ cols) (suc i) c h = get_elem?-map cols i c h

field_at :
    (g : NullGuard) (plan : SelectPlan) (i : ℕ) (c : ColumnType)
    → get_elem? plan.dest_columns i ≡ some c
    → (f : Field) × (get_elem? (decode_fields g plan) i ≡ some f)
      × (f.name ≡ c.name)
      × (f.data_type ≡ c.arrow)
unfolding decode_columns
field_at g plan i c h =
    let (d, hd, n, a) = SameAt-all (checked g) plan.dest_columns i c (c, h, refl, refl) in
    (field_of d, get_elem?-map (make_all_nullable plan.dest_columns (checked g)) i d hd, n, a)

known_at :
    (cols : List ColumnType) (i : ℕ) (c : ColumnType)
    → All (λ (x : ColumnType). IsKnown x.arrow) cols
    → get_elem? cols i ≡ some c
    → IsKnown c.arrow
known_at [] i c h e = cc
known_at (x ∷ cols) zero c (k, h) e =
    subst (λ (y : ColumnType). IsKnown y.arrow) (some-injective x c e) k
known_at (x ∷ cols) (suc i) c (k, h) e = known_at cols i c h e

module _ (ar : Arrays) where
  open ar use {Array, data_type, cells}

  column_of :
      (n : ℕ) (fs : List Field) (xs : List Array) (i : ℕ) (f : Field)
      → Fits data_type cells n fs xs
      → get_elem? fs i ≡ some f
      → (x : Array) × (get_elem? xs i ≡ some x) × (f.data_type ≡ data_type x)
  column_of n [] xs i f fits h = cc
  column_of n (y ∷ fs) [] i f fits h = absurd fits
  column_of n (y ∷ fs) (x ∷ xs) zero f (ty, l, m, fits) h =
      (x, refl, ap (λ (z : Field). z.data_type) (sym (some-injective y f h)) ∙ ty)
  column_of n (y ∷ fs) (x ∷ xs) (suc i) f (ty, l, m, fits) h = column_of n fs xs i f fits h

  -- A batch decoded under the plan, as arrow accepts it.
  pub record Under (g : NullGuard) (plan : SelectPlan) (b : RecordBatch Array) : Type 0 where
    pub schema : b.fields ≡ decode_fields g plan
    pub accepted : Fits data_type cells b.num_rows b.fields b.columns
    pub known : All (λ (c : ColumnType). IsKnown c.arrow) plan.dest_columns
    pub some_column : 0 < length b.fields

  module _ (g : NullGuard) (plan : SelectPlan) (b : RecordBatch Array) (u : Under g plan b) where
    placed_column :
        (i : ℕ) (name : Text)
        → Placed plan i name
        → (x : Array) × HasColumn ar b i name x × IsKnown (data_type x)
    placed_column i name (c, h, n) =
        let (f, hf, fn, ft) = field_at g plan i c h in
        let hf' : get_elem? b.fields i ≡ some f = ap (λ fs. get_elem? fs i) u.schema ∙ hf in
        let (x, hx, ty) = column_of b.num_rows b.fields b.columns i f u.accepted hf' in
        (
          x,
          (f, hf', rw (fn, n) (text_eq_refl name), hx),
          subst IsKnown (sym ft ∙ ty) (known_at plan.dest_columns i c u.known h),
        )

    found :
        (cs : List Guarded)
        → All (λ (c : Guarded). Placed plan c.idx c.dest) cs
        → (guards : List Array) × Found ar b cs guards
    found [] h = ([], tt)
    found (c ∷ cs) (h, hs) =
        let (x, hx, k) = placed_column c.idx c.dest h in
        let (xs, f) = found cs hs in (x ∷ xs, (hx, f))

    fillable :
        (ds : List Defaulted)
        → All (λ (d : Defaulted). Placed plan d.idx d.column) ds
        → All (Fillable ar b) ds
    fillable [] h = tt
    fillable (d ∷ ds) (h, hs) =
        let (x, hx, k) = placed_column d.idx d.column h in
        let (v, z) = zero_scalar_known (data_type x) d.text k in ((x, v, hx, z), fillable ds hs)

  -- The guard of a run returns for every batch that is decoded under its plan, of types that the
  -- decoders produce. Every row is kept or counted as left out, exactly once: the rows that are kept
  -- are those with no NULL in a guarded column, in order, and each other row counts against the
  -- first guarded column that is NULL in it. No checked column holds a NULL any more, and the schema
  -- says so. A column is otherwise its kept rows, or these with each NULL replaced by the default of
  -- a column that has one, whose count is the number of its NULLs among them.
  pub filter-new :
      (plan : SelectPlan) (cfg : TransferConfig) (dest : DestKind) (g : NullGuard)
      (b : RecordBatch Array)
      → new plan cfg dest ≡ some g
      → Under g plan b
      → (guards : List Array) × Found ar b g.columns guards
        × ((f : Filtered Array) × (filter ar g b ≡ inr f) × Filters ar g b guards f)
  filter-new plan cfg dest g b h u =
      let c = guard-Checks plan cfg dest g h in
      let (guards, f) = found g plan b u g.columns c.guards in
      (
        guards,
        f,
        filter-Filters ar g b guards (record {
          some_field = u.some_column;
          fits = u.accepted;
          found = f;
          fillable = fillable g plan b u g.defaulted c.fills;
        }),
      )
