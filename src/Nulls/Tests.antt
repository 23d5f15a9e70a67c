-- ===== src/Nulls/Tests.antt =====
-- Tests of the NULL guard: a table of orders, keyed by a number, with a text that `order_by` names.
use quickhouse.Prelude.{
  ℕ, ◌+◌, ◌≡◌, refl, ◌⊎◌, inl, inr, Bool, true, false, Option, none, some, List, [], ◌∷◌, arith,
  map, length, unwrap_or, pos,
}
use quickhouse.Prelude.Text.{Text, codes}
use quickhouse.Arrow.{DataType, int64, utf8, ColumnType}
use quickhouse.Kinds.{WarningKind}
use quickhouse.Errors.{EtlError}
use quickhouse.Nulls.{
  Value, Field, RecordBatch, Fits, Arrays, NotNullBy, NullGuard, Filtered, kept, checked,
  zero_scalar, decode_columns, column_at, fill_nulls, filter,
}
use quickhouse.Nulls.Texts.{clickhouse_text_default}
use quickhouse.Nulls.Plan.{
  click_house, SyncMode, TransferConfig, SelectPlan, engine_parameter_columns, new,
}
use quickhouse.Nulls.Checked.{as_guard, Checks, new-Checks}
use quickhouse.Nulls.Kept.{Found}
use quickhouse.Nulls.Decoded.{Filters}
use quickhouse.Nulls.Delivered.{Under, filter-new}
use quickhouse.Nulls.Report.{tallies, archived_rows, count_all, left_out_total-tallies}
use quickhouse.Warnings.{Warnings, left_out_total}

abbrev PlainArray : Type 0
PlainArray = DataType × List (Option Value)

abbrev built : List Field → List PlainArray → EtlError ⊎ RecordBatch PlainArray
built fs [] = inl (EtlError.arrow (codes "must either specify a row count or at least one column"))
built fs (a ∷ arrays) = inr (record { fields = fs; columns = a ∷ arrays; num_rows = length a.1 })

built_fits :
    (n : ℕ) (f : Field) (fs : List Field) (a : PlainArray) (arrays : List PlainArray)
    → Fits (λ (x : PlainArray). x.0) (λ (x : PlainArray). x.1) n (f ∷ fs) (a ∷ arrays)
    → built (f ∷ fs) (a ∷ arrays)
      ≡ inr (record { fields = f ∷ fs; columns = a ∷ arrays; num_rows = n })
built_fits n f fs a arrays (ty, len, nn, rest) = rw len refl

abbrev plain : Arrays
plain = record {
  Array = PlainArray;
  data_type = λ x. x.0;
  cells = λ x. x.1;
  filter_cells = λ ks x. (x.0, kept ks x.1);
  fill = λ x v. (x.0, map (λ o. some (unwrap_or o v)) x.1);
  try_new = built;
  debug = λ ty. codes "a type";
  cells-filter_cells = λ ks x. refl;
  data_type-filter_cells = λ ks x. refl;
  cells-fill = λ x v. refl;
  data_type-fill = λ x v. refl;
  try_new_fits = built_fits;
}

abbrev column : Text → DataType → Text → Bool → ColumnType
column name ty inner nullable = record {
  name = name;
  type_id = 20;
  nullable = nullable;
  arrow = ty;
  clickhouse_inner = inner;
  arbitrary_precision_decimal = false;
  declared_decimal = none;
}

abbrev orders : SelectPlan
orders = record {
  source_columns = codes "id" ∷ codes "state" ∷ codes "total" ∷ [];
  source_select_exprs = none ∷ none ∷ none ∷ [];
  dest_columns =
      column (codes "id") int64 (codes "Int64") false
      ∷ column (codes "state") utf8 (codes "Enum8('open' = 1, 'new' = 0)") false
      ∷ column (codes "total") int64 (codes "Int64") true
      ∷ [];
}

abbrev options : TransferConfig
options = record {
  mode = SyncMode.incremental;
  watermark = none;
  key = codes "ID" ∷ [];
  order_by = codes "state" ∷ [];
  primary_key = [];
  not_null = [];
  engine = none;
}

abbrev guard : NullGuard
guard = record {
  columns =
      record { idx = 0; dest = codes "id"; column = codes "ID"; kind = WarningKind.null_key } ∷ [];
  defaulted =
      record {
        idx = 1;
        column = codes "state";
        by = NotNullBy.order_by;
        text = some (codes "new");
        shown = codes "'new'";
      }
      ∷ [];
}

guard_made : new orders options click_house ≡ some guard
unfolding new clickhouse_text_default
guard_made = refl

abbrev number : ℕ → Option Value
number n = some (Value.int (pos n))

abbrev word : Text → Option Value
word s = some (Value.text s)

abbrev fields : List Field
fields =
    record { name = codes "id"; data_type = int64; nullable = true }
    ∷ record { name = codes "state"; data_type = utf8; nullable = true }
    ∷ record { name = codes "total"; data_type = int64; nullable = true }
    ∷ []

abbrev batch : RecordBatch PlainArray
batch = record {
  fields = fields;
  columns =
      (int64, number 1 ∷ none ∷ number 3 ∷ [])
      ∷ (utf8, word (codes "open") ∷ none ∷ none ∷ [])
      ∷ (int64, none ∷ number 7 ∷ none ∷ [])
      ∷ [];
  num_rows = 3;
}

abbrev written : Filtered PlainArray
written = record {
  batch = record {
    fields =
        record { name = codes "id"; data_type = int64; nullable = false }
        ∷ record { name = codes "state"; data_type = utf8; nullable = false }
        ∷ record { name = codes "total"; data_type = int64; nullable = true }
        ∷ [];
    columns =
        (int64, number 1 ∷ number 3 ∷ [])
        ∷ (utf8, word (codes "open") ∷ word (codes "new") ∷ [])
        ∷ (int64, none ∷ none ∷ [])
        ∷ [];
    num_rows = 2;
  };
  left_out = 1 ∷ [];
  defaulted = 1 ∷ [];
}

batch_filtered : filter plain guard batch ≡ inr written
unfolding filter column_at fill_nulls zero_scalar
batch_filtered = refl

engine_columns :
    engine_parameter_columns
      (codes "ReplicatedReplacingMergeTree('/clickhouse/{shard}/t', '{replica}', ver)")
    ≡ codes "ver" ∷ []
unfolding engine_parameter_columns
engine_columns = refl

text_defaults :
    (clickhouse_text_default (codes "LowCardinality(Nullable(UUID))")
      ≡ some (codes "00000000-0000-0000-0000-000000000000"))
    × (clickhouse_text_default (codes "UInt64") ≡ some (codes "0"))
    × (clickhouse_text_default (codes "FixedString(3)") ≡ none)
unfolding clickhouse_text_default
text_defaults = (refl, refl, refl)

batch-Under : Under plain guard orders batch
unfolding decode_columns checked
batch-Under = record {
  schema = refl;
  accepted = (refl, refl, λ h. cc, (refl, refl, λ h. cc, (refl, refl, λ h. cc, tt)));
  known = (tt, (tt, (tt, tt)));
  some_column = omega arith;
}

new-Checks_example : Checks orders options click_house (as_guard (new orders options click_house))
new-Checks_example = new-Checks orders options click_house

filter-new_example :
    (guards : List PlainArray) × Found plain batch guard.columns guards
    × ((f : Filtered PlainArray) × (filter plain guard batch ≡ inr f)
        × Filters plain guard batch guards f)
filter-new_example = filter-new plain orders options click_house guard batch guard_made batch-Under

abbrev nothing_warned : Warnings
nothing_warned = record { raw = []; null_rows = [] }

left_out_total-tallies_example :
    (f : Filtered PlainArray) × (filter plain guard batch ≡ inr f)
    × (archived_rows plain (some guard) batch ≡ inr f.batch)
    × (left_out_total (count_all nothing_warned (tallies guard f)) + f.batch.num_rows
        ≡ left_out_total nothing_warned + batch.num_rows)
left_out_total-tallies_example =
    left_out_total-tallies plain orders options click_house guard batch nothing_warned guard_made
      batch-Under
