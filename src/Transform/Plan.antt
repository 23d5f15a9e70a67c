-- ===== src/Transform/Plan.antt =====
-- transform.rs: `plan_for_destination`, which columns a run reads, and what each becomes.
use quickhouse.Prelude.{
  is_nil, or_else, ℕ, ◌⊎◌, inl, inr, Bool, true, false, not, ◌&&◌, ◌||◌, Option, none, some, List,
  [], ◌∷◌, ◌++◌, map, any, if◌then◌else◌, is_some, unwrap_or, ℤ,
}
use quickhouse.Prelude.Text.{Text, codes, text_eq, trim}
use quickhouse.Columns.{column_key}
use quickhouse.Arrow.{DataType, timestamp, decimal128, ColumnType, TimeUnit}
use quickhouse.Errors.{EtlError, ◌>>=◌}
use quickhouse.Nulls.Plan.{
  DestKind, click_house, big_query, csv, TransferConfig, SelectPlan, effective_engine,
  engine_parameter_columns,
}
use quickhouse.Transform.{PlanConfig, ExistingColumns, no_table, get, lists, included, renamed}
use quickhouse.Transform.Types.{
  datetime_override_tz, clickhouse_datetime_spelling, parse_column_transform_type,
  may_coerce_to_null, resolve_decimal_promotion,
}
use quickhouse.Transform.Decimals.{ExistingDecimals, existing_decimals, declared_decimal_default}

abbrev pub Checked : Type 0
Checked = EtlError ⊎ Unit {0}

abbrev pub require : Bool → Text → Checked
require ok message = if ok then inr tt else inl (EtlError.config message)

abbrev pub each {ℓ} : {A : Type ℓ} → (A → Checked) → List A → Checked
each check [] = inr tt
each check (x ∷ xs) = check x >>= λ u. each check xs

abbrev pub named : List ColumnType → Text → Bool
named cs n = any (λ (c : ColumnType). text_eq c.name n) cs

abbrev pub check_transform : List ColumnType → Text × Text → Checked
unfolding trim
check_transform cs (col, expr) =
    require (named cs col) (codes "column_transforms references a column that is not transferred")
    >>= λ u. require (not (is_nil (trim expr))) (codes "column_transforms has an empty expression")

-- The checks before the columns are planned.
unfoldable pub check_config : PlanConfig → List ColumnType → List ColumnType → Checked
unfolding trim
check_config cfg source chosen =
    require (not (is_nil chosen)) (codes "column selection left no columns to transfer")
    >>= (λ u.
        each (λ want. require (named source want) (codes "include column not found in source"))
          cfg.include)
    >>= (λ u. each (check_transform chosen) cfg.column_transforms)
    >>= λ u.
        each
          (λ (entry : Text × Text).
            require (is_some (get cfg.column_transforms entry.0))
              (codes "column_transform_types has no matching column_transforms entry"))
          cfg.column_transform_types

-- The columns that may hold no NULL because the configuration names them.
abbrev pub key_names : TransferConfig → List Text
key_names run = run.key ++ (run.order_by ++ (run.primary_key ++ run.not_null))

abbrev for_click_house : DestKind → Text → Text
unfolding clickhouse_datetime_spelling
for_click_house click_house inner = clickhouse_datetime_spelling inner
for_click_house _ inner = inner

abbrev pub is_click_house : DestKind → Bool
is_click_house click_house = true
is_click_house _ = false

abbrev pub is_csv : DestKind → Bool
is_csv csv = true
is_csv _ = false

abbrev promoted : ColumnType → Option (ℕ × ℤ) → DataType
promoted c none = c.arrow
promoted c (some (p, s)) = decimal128 p s

abbrev retimed : DataType → Option (Option Text) → DataType
retimed t none = t
retimed t (some tz) = timestamp TimeUnit.microsecond tz

abbrev untransformed : DataType → Text → DataType
unfolding datetime_override_tz
untransformed (timestamp unit tz) inner = retimed (timestamp unit tz) (datetime_override_tz inner)
untransformed t inner = t

unfoldable pub decode_type :
    (ℤ → ℤ → Bool) → DestKind → ColumnType → Text → Option Text → EtlError ⊎ DataType
unfolding parse_column_transform_type resolve_decimal_promotion datetime_override_tz
decode_type valid dest_kind c inner (some name) = elim (parse_column_transform_type name) [
  | some t ↦ inr t
  | none ↦ inl (EtlError.config (codes "column_transform_types names no decode type"))
]
decode_type valid dest_kind c inner none =
    if c.arbitrary_precision_decimal
    then (resolve_decimal_promotion valid inner dest_kind >>= λ d. inr (promoted c d))
    else inr (untransformed c.arrow inner)

-- The engine columns are read for ClickHouse only.
unfoldable pub engine_names : DestKind → TransferConfig → List Text
unfolding effective_engine engine_parameter_columns
engine_names click_house run = engine_parameter_columns (effective_engine run)
engine_names _ run = []

abbrev pub is_watermark : TransferConfig → Text → Bool
is_watermark run name = elim run.watermark [ some w ↦ text_eq w name | none ↦ false ]

-- Of the column that is read as `name` and written as `dest_name`.
unfoldable pub force_non_nullable : DestKind → TransferConfig → Text → Text → Bool
unfolding effective_engine engine_parameter_columns
force_non_nullable dest_kind run name dest_name =
    not (is_csv dest_kind)
    && (lists (key_names run) dest_name
        || ((is_watermark run name
              && (text_eq (effective_engine run) (codes "ReplacingMergeTree")
                  && is_click_house dest_kind))
            || lists (engine_names dest_kind run) dest_name))

unfoldable pub nullable_as : DestKind → Bool → TransferConfig → ColumnType → Text → DataType → Bool
unfolding force_non_nullable may_coerce_to_null
nullable_as dest_kind may_coerce run c dest_name arrow =
    if force_non_nullable dest_kind run c.name dest_name
    then false
    else if is_csv dest_kind
    then true
    else c.nullable
      || ((may_coerce && may_coerce_to_null arrow)
          || (is_watermark run c.name && not (is_click_house dest_kind)))

module _ (valid : ℤ → ℤ → Bool) (cfg : PlanConfig) (dest_kind : DestKind) (may_coerce : Bool)
    (existing : ExistingColumns) (decimals : ExistingDecimals) where
  unfoldable pub ch_inner : ColumnType → Text
  unfolding declared_decimal_default clickhouse_datetime_spelling
  ch_inner c =
      let dest_name = renamed cfg c.name in
      for_click_house dest_kind (
        unwrap_or
          (or_else (get cfg.type_overrides c.name) (
            or_else (get cfg.type_overrides dest_name) (
              or_else (if c.arbitrary_precision_decimal then cfg.numeric_as_decimal else none)
                (declared_decimal_default c dest_name dest_kind existing decimals))))
          c.clickhouse_inner)

  -- What is written for a column that is decoded as `arrow`.
  abbrev pub written_as : ColumnType → DataType → ColumnType
  written_as c arrow = record c {
    name = renamed cfg c.name;
    nullable = nullable_as dest_kind may_coerce cfg.run c (renamed cfg c.name) arrow;
    arrow = arrow;
    clickhouse_inner = ch_inner c;
  }

  -- One round of the loop over the columns read.
  unfoldable pub dest_column : ColumnType → EtlError ⊎ ColumnType
  unfolding ch_inner nullable_as decode_type
  dest_column c =
      decode_type valid dest_kind c (ch_inner c) (get cfg.column_transform_types c.name)
      >>= λ arrow. inr (written_as c arrow)

  unfoldable pub dest_columns_of : List ColumnType → EtlError ⊎ List ColumnType
  unfolding dest_column
  dest_columns_of [] = inr []
  dest_columns_of (c ∷ cs) = dest_column c >>= λ d. dest_columns_of cs >>= λ ds. inr (d ∷ ds)

unfoldable pub same_name : DestKind → Text → Text → Bool
unfolding column_key
same_name big_query a b = text_eq (column_key a true) (column_key b true)
same_name _ a b = text_eq a b

abbrev left_out : PlanConfig → Text → Bool
left_out cfg k = (not (is_nil cfg.include) && not (lists cfg.include k)) || lists cfg.exclude k

abbrev why_not : PlanConfig → List ColumnType → Text → Text
why_not cfg source k =
    if named source k && left_out cfg k
    then codes ": the source has it, but include/exclude leaves it out"
    else if named source k && is_some (get cfg.rename k)
    then codes ": rename turns the source column into another, and key takes the destination name"
    else []

unfoldable pub ensure_key_columns :
    List ColumnType → PlanConfig → DestKind → List ColumnType → Checked
unfolding column_key
ensure_key_columns source cfg dest_kind dest_columns =
    each
      (λ k.
        require (any (λ (d : ColumnType). same_name dest_kind d.name k) dest_columns)
          (codes "key column is not a destination column" ++ why_not cfg source k))
      cfg.run.key

abbrev pub plan_of : PlanConfig → List ColumnType → List ColumnType → SelectPlan
plan_of cfg chosen dests = record {
  source_columns = map (λ (c : ColumnType). c.name) chosen;
  source_select_exprs = map (λ (c : ColumnType). get cfg.column_transforms c.name) chosen;
  dest_columns = dests;
}

abbrev pub existing_for : DestKind → ExistingColumns → ExistingColumns
existing_for csv existing = no_table
existing_for _ existing = existing

unfoldable pub plan_for_destination :
    (ℤ → ℤ → Bool)
    → List ColumnType
    → PlanConfig
    → DestKind
    → Bool
    → ExistingColumns
    → EtlError ⊎ SelectPlan
unfolding check_config existing_decimals dest_columns_of ensure_key_columns
plan_for_destination valid source cfg dest_kind may_coerce existing =
    let existing' = existing_for dest_kind existing in
    let chosen = included cfg source in
    check_config cfg source chosen >>= λ u.
    dest_columns_of valid cfg dest_kind may_coerce existing'
      (existing_decimals source cfg dest_kind existing') chosen
    >>= λ dests.
        ensure_key_columns source cfg dest_kind dests >>= λ u'. inr (plan_of cfg chosen dests)
