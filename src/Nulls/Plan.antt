-- ===== src/Nulls/Plan.antt =====
-- null_guard.rs: `NullGuard::new`, the columns that a run checks; ddl.rs: the columns that an engine
-- names. Of the plan and the configuration only what is read here is modelled.
use quickhouse.Prelude.{
  or_else, ℕ, ◌+◌, Bool, true, false, not, ◌&&◌, ◌||◌, Option, none, some, List, [], ◌∷◌, ◌++◌, any,
  get_elem?, ◌==◌, if◌then◌else◌, unwrap_or, ◌>>=◌,
}
use quickhouse.Prelude.Text.{Text, codes, text_eq, trim, trim_end, split_once, strip_char}
use quickhouse.Arrow.{DataType, utf8, large_utf8, ColumnType}
use quickhouse.Kinds.{WarningKind}
use quickhouse.Tracker.{position, later}
use quickhouse.Columns.{column_key, names_of}
use quickhouse.Nulls.{
  NotNullBy, order_by, primary_key, not_null, engine, Guarded, Defaulted, NullGuard,
}
use quickhouse.Nulls.Texts.{clickhouse_text_default, shown_zero, strip_prefix}
use quickhouse.Nulls.Enums.{strip_last}

pub data DestKind : Type 0 where
  click_house big_query csv : DestKind

pub data SyncMode : Type 0 where
  full incremental append : SyncMode

pub record TransferConfig : Type 0 where
  pub mode : SyncMode
  pub watermark : Option Text
  pub key : List Text
  pub order_by : List Text
  pub primary_key : List Text
  pub not_null : List Text
  pub engine : Option Text

pub record SelectPlan : Type 0 where
  pub source_columns : List Text
  pub source_select_exprs : List (Option Text)
  pub dest_columns : List ColumnType

abbrev default_engine : SyncMode → Text
default_engine SyncMode.incremental = codes "ReplacingMergeTree"
default_engine _ = codes "MergeTree"

unfoldable pub effective_engine : TransferConfig → Text
effective_engine cfg = unwrap_or cfg.engine (default_engine cfg.mode)

-- The arguments, split at the commas outside of quotes; `current` is what has been read of one.
abbrev split_args : Text → Bool → Text → List Text
split_args current quoted [] = current ∷ []
split_args current quoted (c ∷ s) =
    let next = split_args (current ++ c ∷ []) (if c == b'\'' then not quoted else quoted) s in
    let cut = split_args [] quoted s in if c == b',' && not quoted then current ∷ cut else next

abbrev first_is : ℕ → Text → Bool
first_is b [] = false
first_is b (c ∷ s) = c == b

abbrev is_empty : Text → Bool
is_empty [] = true
is_empty (c ∷ s) = false

abbrev unquoted : ℕ → Text → Option Text
unquoted q s = strip_char q s >>= strip_last q

abbrev argument_name : Text → Text
argument_name p = unwrap_or (unquoted b'`' p) (unwrap_or (unquoted b'"' p) p)

abbrev argument_names : List Text → List Text
unfolding trim
argument_names [] = []
argument_names (p ∷ ps) =
    let rest = argument_names ps in
    let p' = trim p in if is_empty p' || first_is b'\'' p' then rest else argument_name p' ∷ rest

abbrev names_columns : Text → Bool
names_columns family =
    text_eq family (codes "ReplacingMergeTree")
    || text_eq family (codes "CollapsingMergeTree")
    || text_eq family (codes "VersionedCollapsingMergeTree")

abbrev columns_of : Option (Text × Text) → List Text
unfolding trim trim_end
columns_of none = []
columns_of (some (family, args)) =
    let family' = unwrap_or (strip_prefix (codes "Replicated") (trim family)) (trim family) in
    let args' = unwrap_or (strip_last b')' (trim_end args)) (trim_end args) in
    if names_columns family' then argument_names (split_args [] false args') else []

unfoldable pub engine_parameter_columns : Text → List Text
unfolding trim trim_end split_once
engine_parameter_columns spelled = columns_of (split_once b'(' spelled)

-- The guarded columns so far, with one more, unless its position is among them.
abbrev pub taken : List Guarded → ℕ → Bool
taken columns idx = any (λ (g : Guarded). g.idx == idx) columns

abbrev pub guard_at : ℕ → Text → WarningKind → Option ColumnType → List Guarded → List Guarded
guard_at idx column kind none columns = columns
guard_at idx column kind (some d) columns =
    columns ++ record { idx = idx; dest = d.name; column = column; kind = kind } ∷ []

abbrev pub unless_nullable : Option ColumnType → Option ColumnType
unless_nullable none = none
unless_nullable (some d) = if d.nullable then none else some d

abbrev pub watermark_at : SelectPlan → Text → Option ℕ → List Guarded
watermark_at plan w none = []
watermark_at plan w (some idx) =
    guard_at idx w WarningKind.null_watermark (unless_nullable (get_elem? plan.dest_columns idx)) []

abbrev pub watermark_columns : SelectPlan → Option Text → List Guarded
watermark_columns plan none = []
watermark_columns plan (some w) = watermark_at plan w (position plan.source_columns w)

-- `eq_ignore_ascii_case`
abbrev position_any_case : List Text → Text → Option ℕ
unfolding column_key
position_any_case [] name = none
position_any_case (c ∷ cs) name =
    if text_eq (column_key c true) (column_key name true)
    then some 0
    else later (position_any_case cs name)

abbrev pub key_position : List Text → Text → Option ℕ
unfolding column_key
key_position names k = or_else (position names k) (position_any_case names k)

abbrev pub add_key : SelectPlan → Text → Option ℕ → List Guarded → List Guarded
add_key plan k none columns = columns
add_key plan k (some idx) columns =
    if taken columns idx
    then columns
    else guard_at idx k WarningKind.null_key (get_elem? plan.dest_columns idx) columns

-- `for k in &cfg.key`
unfoldable pub key_columns : SelectPlan → List Text → List Guarded → List Guarded
unfolding column_key
key_columns plan [] columns = columns
key_columns plan (k ∷ ks) columns =
    key_columns plan ks (add_key plan k (key_position (names_of plan.dest_columns) k) columns)

abbrev pub named : List Text → Text → Bool
named names name = any (λ c. text_eq c name) names

-- Which option makes the column NOT NULL.
unfoldable pub not_null_by : TransferConfig → List Text → Text → Option NotNullBy
not_null_by cfg engine_columns name =
    if named cfg.order_by name
    then some order_by
    else if named cfg.primary_key name
    then some primary_key
    else if named cfg.not_null name
    then some not_null
    else if named engine_columns name
    then some engine
    else none

abbrev text_for : DestKind → DataType → Text → Option Text
unfolding clickhouse_text_default
text_for DestKind.click_house utf8 inner = clickhouse_text_default inner
text_for DestKind.click_house large_utf8 inner = clickhouse_text_default inner
text_for _ _ inner = none

abbrev shown_text : Option Text → DataType → Text
unfolding shown_zero
shown_text (some t) ty = codes "'" ++ t ++ codes "'"
shown_text none ty = shown_zero ty

unfoldable pub default_entry : DestKind → ℕ → ColumnType → NotNullBy → Defaulted
unfolding clickhouse_text_default shown_zero
default_entry dest idx d by =
    let t = text_for dest d.arrow d.clickhouse_inner in
    record { idx = idx; column = d.name; by = by; text = t; shown = shown_text t d.arrow }

abbrev pub defaulted_by :
    DestKind → ℕ → ColumnType → Option NotNullBy → List Defaulted → List Defaulted
defaulted_by dest idx d none rest = rest
defaulted_by dest idx d (some by) rest = default_entry dest idx d by ∷ rest

-- The loop over the destination's columns, from the one at `idx` on.
unfoldable pub defaulted_from :
    DestKind → TransferConfig → List Text → List Guarded → ℕ → List ColumnType → List Defaulted
unfolding not_null_by default_entry
defaulted_from dest cfg engine_columns columns idx [] = []
defaulted_from dest cfg engine_columns columns idx (d ∷ ds) =
    let rest = defaulted_from dest cfg engine_columns columns (idx + 1) ds in
    if d.nullable || taken columns idx
    then rest
    else defaulted_by dest idx d (not_null_by cfg engine_columns d.name) rest

unfoldable pub engine_columns_for : DestKind → TransferConfig → List Text
unfolding engine_parameter_columns effective_engine
engine_columns_for DestKind.click_house cfg = engine_parameter_columns (effective_engine cfg)
engine_columns_for _ cfg = []

abbrev pub some_guard : List Guarded → List Defaulted → Option NullGuard
some_guard [] [] = none
some_guard cs ds = some (record { columns = cs; defaulted = ds })

abbrev pub guard_of : SelectPlan → TransferConfig → DestKind → Option NullGuard
guard_of plan cfg dest =
    let columns = key_columns plan cfg.key (watermark_columns plan cfg.watermark) in
    some_guard columns
      (defaulted_from dest cfg (engine_columns_for dest cfg) columns 0 plan.dest_columns)

unfoldable pub new : SelectPlan → TransferConfig → DestKind → Option NullGuard
unfolding key_columns defaulted_from engine_columns_for
new plan cfg DestKind.csv = none
new plan cfg DestKind.click_house = guard_of plan cfg DestKind.click_house
new plan cfg DestKind.big_query = guard_of plan cfg DestKind.big_query
