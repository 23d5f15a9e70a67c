-- ===== src/Nulls.antt =====
-- null_guard.rs: `NullGuard`, its filter over a batch, and what arrow gives for it. Arrow's arrays
-- and its functions on them are a parameter; a batch is its fields, its columns and its row count.
pub mod Plan
pub mod Texts
pub mod Enums
pub mod Marks
pub mod Kept
pub mod Written
pub mod Fill
pub mod Strict
pub mod Decoded
pub mod Filter
pub mod Distinct
pub mod Defaults
pub mod Checked
pub mod Delivered
pub mod Report
pub mod Tests
use quickhouse.Prelude.{
  ℕ, zero, suc, ◌+◌, ◌≡◌, ◌⊎◌, inl, inr, Bool, true, false, not, ◌&&◌, ◌||◌, Option, none, some,
  List, [], ◌∷◌, ◌++◌, map, length, get_elem?, replicate, any, all, ltb, ◌==◌, if◌then◌else◌, ℤ,
  pos, unwrap_or, is_some,
}
use quickhouse.Prelude.Text.{Text, codes, text_eq, show_ℕ}
use quickhouse.Arrow.{
  DataType, boolean, int8, int16, int32, int64, uint8, uint16, uint32, uint64, float32, float64,
  utf8, large_utf8, binary, large_binary, date32, date64, fixed_size_binary, timestamp, decimal128,
  decimal256, other, ColumnType,
}
use quickhouse.Kinds.{WarningKind}
use quickhouse.Errors.{EtlError, ◌>>=◌}
use quickhouse.Tracker.{later}

-- One value of an array. A float is its bits; a date, a timestamp and a decimal are the integer
-- that is stored.
pub data Value : Type 0 where
  text bytes : Text → Value
  bool : Bool → Value
  int : ℤ → Value
  float : ℕ → Value

pub record Field : Type 0 where
  pub name : Text
  pub data_type : DataType
  pub nullable : Bool

-- Only the cells at which `keep` is set.
abbrev pub kept {ℓ} : {A : Type ℓ} → List Bool → List A → List A
kept [] xs = []
kept (k ∷ ks) [] = []
kept (k ∷ ks) (x ∷ xs) = if k then x ∷ kept ks xs else kept ks xs

abbrev pub trues : List Bool → ℕ
trues [] = 0
trues (k ∷ ks) = (if k then 1 else 0) + trues ks

abbrev pub is_null : Option Value → Bool
is_null o = not (is_some o)

abbrev pub nulls : List (Option Value) → ℕ
nulls [] = 0
nulls (o ∷ os) = (if is_null o then 1 else 0) + nulls os

pub record RecordBatch (Array : Type 0) : Type 0 where
  pub fields : List Field
  pub columns : List Array
  pub num_rows : ℕ

-- `RecordBatch::try_new` accepts the columns: as many as fields, of their types, all of one length,
-- and no NULL in a field that is not nullable.
module _ {Array : Type 0} (data_type : Array → DataType) (cells : Array → List (Option Value)) where
  abbrev pub Fits : ℕ → List Field → List Array → Type 0
  Fits n [] [] = Unit
  Fits n [] (a ∷ arrays) = ⊥
  Fits n (f ∷ fs) [] = ⊥
  Fits n (f ∷ fs) (a ∷ arrays) =
      (f.data_type ≡ data_type a)
      × (length (cells a) ≡ n)
      × (f.nullable ≡ false → nulls (cells a) ≡ 0)
      × Fits n fs arrays

-- What the guard asks of arrow. `fill` is `zip(is_not_null(a), a, scalar)` without the validity
-- buffer, for a scalar of the array's type.
pub record Arrays : Type 1 where
  pub Array : Type 0
  pub data_type : Array → DataType
  pub cells : Array → List (Option Value)
  pub filter_cells : List Bool → Array → Array
  pub fill : Array → Value → Array
  pub try_new : List Field → List Array → EtlError ⊎ RecordBatch Array
  -- how a type prints
  pub debug : DataType → Text
  pub cells-filter_cells :
      (ks : List Bool) (a : Array) → cells (filter_cells ks a) ≡ kept ks (cells a)
  pub data_type-filter_cells :
      (ks : List Bool) (a : Array) → data_type (filter_cells ks a) ≡ data_type a
  pub cells-fill :
      (a : Array) (v : Value) → cells (fill a v) ≡ map (λ o. some (unwrap_or o v)) (cells a)
  pub data_type-fill : (a : Array) (v : Value) → data_type (fill a v) ≡ data_type a
  pub try_new_fits :
      (n : ℕ) (f : Field) (fs : List Field) (a : Array) (arrays : List Array)
      → Fits data_type cells n (f ∷ fs) (a ∷ arrays)
      → try_new (f ∷ fs) (a ∷ arrays)
        ≡ inr (record { fields = f ∷ fs; columns = a ∷ arrays; num_rows = n })

-- A column whose NULL rows are left out.
pub record Guarded : Type 0 where
  pub idx : ℕ
  pub dest : Text
  pub column : Text
  pub kind : WarningKind

pub data NotNullBy : Type 0 where
  order_by primary_key not_null engine : NotNullBy

-- A column whose NULLs are written as its type's default.
pub record Defaulted : Type 0 where
  pub idx : ℕ
  pub column : Text
  pub by : NotNullBy
  pub text : Option Text
  pub shown : Text

pub record NullGuard : Type 0 where
  pub columns : List Guarded
  pub defaulted : List Defaulted

pub record Filtered (Array : Type 0) : Type 0 where
  pub batch : RecordBatch Array
  pub left_out : List ℕ
  pub defaulted : List ℕ

-- The one row of the array that `zero_scalar` makes; the bytes of a fixed size are all zero.
unfoldable pub zero_scalar : DataType → Option Text → Option Value
zero_scalar utf8 t = some (text (unwrap_or t []))
zero_scalar large_utf8 t = some (text (unwrap_or t []))
zero_scalar binary t = some (bytes [])
zero_scalar large_binary t = some (bytes [])
zero_scalar (fixed_size_binary n) t = some (bytes (replicate n 0))
zero_scalar boolean t = some (bool false)
zero_scalar float32 t = some (float 0)
zero_scalar float64 t = some (float 0)
zero_scalar int8 t = some (int (pos 0))
zero_scalar int16 t = some (int (pos 0))
zero_scalar int32 t = some (int (pos 0))
zero_scalar int64 t = some (int (pos 0))
zero_scalar uint8 t = some (int (pos 0))
zero_scalar uint16 t = some (int (pos 0))
zero_scalar uint32 t = some (int (pos 0))
zero_scalar uint64 t = some (int (pos 0))
zero_scalar date32 t = some (int (pos 0))
zero_scalar date64 t = some (int (pos 0))
zero_scalar (timestamp unit tz) t = some (int (pos 0))
zero_scalar (decimal128 p s) t = some (int (pos 0))
zero_scalar (decimal256 p s) t = some (int (pos 0))
zero_scalar other t = none

-- `checked`: the positions of every checked column.
unfoldable pub checked : NullGuard → List ℕ
checked g = map (λ (c : Guarded). c.idx) g.columns ++ map (λ (d : Defaulted). d.idx) g.defaulted

abbrev pub is_null_at : List (Option Value) → ℕ → Bool
is_null_at [] row = false
is_null_at (o ∷ os) zero = is_null o
is_null_at (o ∷ os) (suc row) = is_null_at os row

-- `checked.iter().position(|c| c.is_null(row))`
abbrev pub first_null : List (List (Option Value)) → ℕ → Option ℕ
first_null [] row = none
first_null (c ∷ cs) row = if is_null_at c row then some 0 else later (first_null cs row)

-- `left_out[j] += 1`
abbrev pub count_at : ℕ → List ℕ → List ℕ
count_at j [] = []
count_at zero (n ∷ ns) = (n + 1) ∷ ns
count_at (suc j) (n ∷ ns) = n ∷ count_at j ns

abbrev pub count_row : Option ℕ → List ℕ → List ℕ
count_row none ns = ns
count_row (some j) ns = count_at j ns

-- The loop over the `n` rows from `row` on: whether each is kept, and `left_out`.
unfoldable pub mark_rows : List (List (Option Value)) → ℕ → ℕ → List ℕ → List Bool × List ℕ
mark_rows cs row zero left_out = ([], left_out)
mark_rows cs row (suc n) left_out =
    let j = first_null cs row in
    let (keep, left_out') = mark_rows cs (row + 1) n (count_row j left_out) in
    (not (is_some j) ∷ keep, left_out')

-- `arrays[i] = a`
abbrev pub set {ℓ} : {A : Type ℓ} → List A → ℕ → A → List A
set [] i a = []
set (x ∷ xs) zero a = a ∷ xs
set (x ∷ xs) (suc i) a = x ∷ set xs i a

-- The fields of `strict_schema`; the metadata of a schema is not modelled.
abbrev pub strict_from : List ℕ → ℕ → List Field → List Field
strict_from positions i [] = []
strict_from positions i (f ∷ fs) =
    record f { nullable = f.nullable && not (any (λ c. c == i) positions) }
    ∷ strict_from positions (i + 1) fs

abbrev pub strict_at : List Field → ℕ → Bool
strict_at [] i = true
strict_at (f ∷ fs) zero = not f.nullable
strict_at (f ∷ fs) (suc i) = strict_at fs i

unfoldable pub strict_schema : NullGuard → List Field → List Field
unfolding checked
strict_schema g fields =
    if all (strict_at fields) (checked g) then fields else strict_from (checked g) 0 fields

-- `decode_columns`: the plan's columns with the checked ones nullable.
abbrev pub make_nullable : List ColumnType → ℕ → List ColumnType
make_nullable [] i = []
make_nullable (c ∷ cs) zero = record c { nullable = true } ∷ cs
make_nullable (c ∷ cs) (suc i) = c ∷ make_nullable cs i

abbrev pub make_all_nullable : List ColumnType → List ℕ → List ColumnType
make_all_nullable cs [] = cs
make_all_nullable cs (i ∷ positions) = make_all_nullable (make_nullable cs i) positions

unfoldable pub decode_columns : NullGuard → List ColumnType → List ColumnType
unfolding checked
decode_columns g dest_columns = make_all_nullable dest_columns (checked g)

unfoldable pub missing_message : Text → ℕ → Text
missing_message name idx =
    codes "the batch has no column '"
    ++ name
    ++ codes "' at position "
    ++ show_ℕ idx
    ++ codes " to check for NULLs"

unfoldable pub no_default_message : Text → Text → Text
no_default_message column type_name =
    codes "column '"
    ++ column
    ++ codes "' can't be NULL at the destination, and quickhouse has no "
    ++ codes "default to store for a NULL there (Arrow type "
    ++ type_name
    ++ codes "). Give those rows a value in the source"

module _ (ar : Arrays) where
  open ar use {Array, data_type, cells}

  abbrev named_column : ℕ → Text → Option Field → Option Array → EtlError ⊎ Array
  named_column idx name (some f) (some a) =
      if text_eq f.name name then inr a else inl (EtlError.internal (missing_message name idx))
  named_column idx name _ _ = inl (EtlError.internal (missing_message name idx))

  unfoldable pub column_at : RecordBatch Array → ℕ → Text → EtlError ⊎ Array
  column_at b idx name = named_column idx name (get_elem? b.fields idx) (get_elem? b.columns idx)

  abbrev fill_with : Array → Text → Option Value → EtlError ⊎ Array
  fill_with a column none =
      inl (EtlError.other (no_default_message column (ar.debug (data_type a))))
  fill_with a column (some v) = inr (ar.fill a v)

  unfoldable pub fill_nulls : Array → Option Text → Text → EtlError ⊎ Array
  fill_nulls a t column = fill_with a column (zero_scalar (data_type a) t)

  unfoldable pub guarded_columns : RecordBatch Array → List Guarded → EtlError ⊎ List Array
  guarded_columns b [] = inr []
  guarded_columns b (c ∷ cs) = do
    a ← column_at b c.idx c.dest
    arrays ← guarded_columns b cs
    inr (a ∷ arrays)

  abbrev pub all_cells : List Array → List (List (Option Value))
  all_cells [] = []
  all_cells (a ∷ arrays) = cells a ∷ all_cells arrays

  abbrev pub no_nulls : List Array → Bool
  no_nulls arrays = all (λ a. nulls (cells a) == 0) arrays

  -- `filter_record_batch`
  abbrev pub filter_rows : List Bool → RecordBatch Array → RecordBatch Array
  filter_rows keep b = record {
    fields = b.fields;
    columns = map (ar.filter_cells keep) b.columns;
    num_rows = trues keep;
  }

  -- The rows that hold no NULL in a guarded column, and `left_out`.
  unfoldable pub leave_out : RecordBatch Array → List Array → RecordBatch Array × List ℕ
  unfolding mark_rows
  leave_out b guards =
      let zeros = replicate (length guards) 0 in
      let (keep, left_out) = mark_rows (all_cells guards) 0 b.num_rows zeros in
      if no_nulls guards then (b, zeros) else (filter_rows keep b, left_out)

  -- The loop over the defaulted columns of `b`: its columns so far, and `defaulted` from here on.
  unfoldable pub fill_columns :
      RecordBatch Array → List Defaulted → List Array → EtlError ⊎ (List Array × List ℕ)
  fill_columns b [] columns = inr (columns, [])
  fill_columns b (d ∷ ds) columns = do
    a ← column_at b d.idx d.column
    filled ← if nulls (cells a) == 0 then inr a else fill_nulls a d.text d.column
    let n = nulls (cells a)
    let columns' = if n == 0 then columns else set columns d.idx filled
    rest ← fill_columns b ds columns'
    inr (rest.0, n ∷ rest.1)

  unfoldable pub filter : NullGuard → RecordBatch Array → EtlError ⊎ Filtered Array
  unfolding guarded_columns leave_out fill_columns strict_schema
  filter g b = do
    guards ← guarded_columns b g.columns
    let kept_rows = leave_out b guards
    columns ← fill_columns kept_rows.0 g.defaulted kept_rows.0.columns
    batch ← ar.try_new (strict_schema g kept_rows.0.fields) columns.0
    inr (record { batch = batch; left_out = kept_rows.1; defaulted = columns.1 })
