-- ===== src/Transform/Tests.antt =====
-- Tests of a plan: three columns of a table, of which one is left out and one renamed.
use quickhouse.Prelude.{
  ℕ, ◌≡◌, refl, inr, Bool, true, false, ◌&&◌, ◌||◌, Option, none, some, List, [], ◌∷◌, All, ℤ, pos,
  leb_ℤ,
}
use quickhouse.Prelude.Text.{Text, codes, show_ℕ, show_ℤ}
use quickhouse.Arrow.{DataType, int64, utf8, float64, ColumnType}
use quickhouse.Nulls.Plan.{
  click_house, SyncMode, SelectPlan, effective_engine, engine_parameter_columns,
}
use quickhouse.Transform.{PlanConfig, no_table, lists, included}
use quickhouse.Transform.Types.{datetime_override_tz, clickhouse_datetime_spelling}
use quickhouse.Transform.Decimals.{is_decimal_type}
use quickhouse.Transform.Plan.{
  decode_type, same_name, key_names, engine_names, plan_for_destination,
}
use quickhouse.Transform.Written.{AllRequired}
use quickhouse.Transform.Projects.{
  Planned, plan_for_destination-Planned, plan_for_destination-Strict,
}

tz : datetime_override_tz (codes "DateTime64(6, 'Asia/Baku')") ≡ some (some (codes "Asia/Baku"))
unfolding datetime_override_tz
tz = refl

spelled : clickhouse_datetime_spelling (codes "timestamp") ≡ codes "DateTime64(6, 'UTC')"
unfolding clickhouse_datetime_spelling
spelled = refl

numeric : is_decimal_type (codes "Nullable(Decimal(15, 2))") ≡ true
unfolding is_decimal_type
numeric = refl

abbrev column : Text → DataType → Text → Option (ℕ × ℤ) → ColumnType
column name arrow inner declared = record {
  name = name;
  type_id = 20;
  nullable = true;
  arrow = arrow;
  clickhouse_inner = inner;
  arbitrary_precision_decimal = false;
  declared_decimal = declared;
}

abbrev source : List ColumnType
source =
    column (codes "id") int64 (codes "Int64") none
    ∷ column (codes "note") utf8 (codes "String") none
    ∷ column (codes "paid") float64 (codes "Float64") (some (10, pos 2))
    ∷ []

abbrev config : PlanConfig
config = record {
  run = record {
    mode = SyncMode.full;
    watermark = none;
    key = codes "order_id" ∷ [];
    order_by = [];
    primary_key = [];
    not_null = [];
    engine = none;
  };
  include = [];
  exclude = codes "note" ∷ [];
  rename = (codes "id", codes "order_id") ∷ [];
  column_transforms = (codes "paid", codes "paid / 100") ∷ [];
  column_transform_types = [];
  type_overrides = [];
  numeric_as_decimal = none;
}

-- Any precision and scale.
abbrev valid : ℤ → ℤ → Bool
valid p s = leb_ℤ p (pos 38)

abbrev planned : SelectPlan
planned = record {
  source_columns = codes "id" ∷ codes "paid" ∷ [];
  source_select_exprs = none ∷ some (codes "paid / 100") ∷ [];
  dest_columns =
      record (column (codes "order_id") int64 (codes "Int64") none) { nullable = false }
      ∷ column (codes "paid") float64 (codes "Decimal(10, 2)") (some (10, pos 2))
      ∷ [];
}

plans : plan_for_destination valid source config click_house true no_table ≡ inr planned
unfolding plan_for_destination decode_type engine_names same_name effective_engine
    engine_parameter_columns show_ℕ show_ℤ
plans = refl

plan_for_destination-Planned_example :
    Planned config click_house source (included config source) planned
plan_for_destination-Planned_example =
    plan_for_destination-Planned valid source config click_house true no_table planned plans

plan_for_destination-Strict_example :
    AllRequired click_house config.run (included config source) planned.dest_columns
plan_for_destination-Strict_example =
    plan_for_destination-Strict valid source config click_house true no_table planned refl plans
