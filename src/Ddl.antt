-- ===== src/Ddl.antt =====
-- ddl.rs: the statements for ClickHouse tables; types.rs: the type of a column in them. The texts of
-- the errors are shortened.
pub mod Idents
pub mod Sorted
pub mod Tests
use quickhouse.Prelude.{
  is_nil, ℕ, ◌⊎◌, inl, inr, Bool, true, false, not, ◌&&◌, Option, none, some, List, [], ◌∷◌, ◌++◌,
  map, any, ◌==◌, if◌then◌else◌, is_some, unwrap_or, ◌>>=◌,
}
use quickhouse.Prelude.Text.{join, Text, codes, text_eq, trim, split_once}
use quickhouse.Arrow.{ColumnType}
use quickhouse.Errors.{EtlError}
use quickhouse.Nulls.Plan.{SyncMode, TransferConfig, effective_engine}
use quickhouse.Nulls.Texts.{strip_prefix}
use quickhouse.Nulls.Enums.{strip_last}

-- `str::replace` of one character.
abbrev pub replace : ℕ → Text → Text → Text
replace c by [] = []
replace c by (d ∷ s) = if d == c then by ++ replace c by s else d ∷ replace c by s

unfoldable pub quote_ident : Text → Text
quote_ident name =
    b'`' ∷ (replace b'`' (codes "\\`") (replace b'\\' (codes "\\\\") name) ++ b'`' ∷ [])

unfoldable pub qualified : Text → Text → Text
unfolding quote_ident
qualified db table = quote_ident db ++ codes "." ++ quote_ident table

abbrev pub row_merging_engines : List Text
row_merging_engines =
    codes "ReplacingMergeTree"
    ∷ codes "CollapsingMergeTree"
    ∷ codes "VersionedCollapsingMergeTree"
    ∷ codes "SummingMergeTree"
    ∷ codes "AggregatingMergeTree"
    ∷ []

abbrev pub in_front : Text → Option (Text × Text) → Text
in_front engine none = engine
in_front engine (some (family, args)) = family

abbrev pub without_parameters : Text → Text
unfolding split_once
without_parameters engine = in_front engine (split_once b'(' engine)

unfoldable pub is_row_merging_engine : Text → Bool
unfolding trim split_once
is_row_merging_engine engine =
    let family = trim (without_parameters engine) in
    let family' = unwrap_or (strip_prefix (codes "Replicated") family) family in
    any (text_eq family') row_merging_engines

abbrev strip_low_cardinality : Text → Option Text
strip_low_cardinality t = strip_prefix (codes "LowCardinality(") t >>= strip_last b')'

unfoldable pub wrap_clickhouse_nullable : Text → Text
wrap_clickhouse_nullable inner = elim (strip_low_cardinality inner) [
  | none ↦ codes "Nullable(" ++ inner ++ codes ")"
  | some stripped ↦
      if is_some (strip_prefix (codes "Nullable(") stripped)
      then inner
      else codes "LowCardinality(Nullable(" ++ stripped ++ codes "))"
]

unfoldable pub clickhouse_type : ColumnType → Text
unfolding wrap_clickhouse_nullable
clickhouse_type c =
    if c.nullable then wrap_clickhouse_nullable c.clickhouse_inner else c.clickhouse_inner

-- `run`, and what only the statement reads.
pub record TableConfig : Type 0 where
  pub run : TransferConfig
  pub partition_by : Option Text

abbrev pub or_key : List Text → List Text → List Text
or_key [] key = key
or_key (c ∷ cs) key = c ∷ cs

abbrev pub order_cols : TransferConfig → List Text
order_cols run = or_key run.order_by run.key

abbrev versioned : Option Text → SyncMode → Text
unfolding quote_ident
versioned (some w) SyncMode.incremental = codes "ReplacingMergeTree(" ++ quote_ident w ++ codes ")"
versioned _ _ = codes "ReplacingMergeTree"

abbrev column_line : ColumnType → Text
unfolding quote_ident clickhouse_type
column_line c = codes "    " ++ quote_ident c.name ++ codes " " ++ clickhouse_type c

abbrev idents : List Text → Text
unfolding quote_ident
idents names = join (codes ", ") (map quote_ident names)

abbrev primary_key_clause : List Text → Text
unfolding quote_ident
primary_key_clause [] = []
primary_key_clause (k ∷ ks) = codes "\nPRIMARY KEY (" ++ idents (k ∷ ks) ++ codes ")"

abbrev partition_clause : Option Text → Text
partition_clause none = []
partition_clause (some pb) = codes "\nPARTITION BY " ++ pb

unfoldable pub statement : Text → Text → List ColumnType → TableConfig → Text
unfolding quote_ident qualified clickhouse_type effective_engine
statement db table columns cfg =
    let engine = effective_engine cfg.run in
    codes "CREATE TABLE IF NOT EXISTS "
    ++ qualified db table
    ++ codes "\n(\n"
    ++ join (codes ",\n") (map column_line columns)
    ++ codes "\n)\nENGINE = "
    ++ (if text_eq engine (codes "ReplacingMergeTree")
        then versioned cfg.run.watermark cfg.run.mode
        else engine)
    ++ primary_key_clause cfg.run.primary_key
    ++ partition_clause cfg.partition_by
    ++ codes "\nORDER BY ("
    ++ (if is_nil (order_cols cfg.run) then codes "tuple()" else idents (order_cols cfg.run))
    ++ codes ")"

unfoldable pub create_table : Text → Text → List ColumnType → TableConfig → EtlError ⊎ Text
unfolding effective_engine is_row_merging_engine
create_table db table columns cfg =
    if is_nil columns
    then inl (EtlError.config (codes "cannot create a table with no columns"))
    else if is_nil (order_cols cfg.run) && is_row_merging_engine (effective_engine cfg.run)
    then inl (EtlError.config (codes "the engine needs a sorting key"))
    else inr (statement db table columns cfg)

abbrev chunk_resume_columns : List Text
chunk_resume_columns = codes "chunk_cursor" ∷ codes "chunk_upper" ∷ codes "chunk_read" ∷ []

unfoldable pub state_table_needs_migration : List Text → Bool
state_table_needs_migration existing =
    any (λ c. not (any (λ e. text_eq e c) existing)) chunk_resume_columns

unfoldable pub add_column : Text → Text → ColumnType → Text
unfolding quote_ident qualified wrap_clickhouse_nullable
add_column db table column =
    codes "ALTER TABLE "
    ++ qualified db table
    ++ codes " ADD COLUMN IF NOT EXISTS "
    ++ quote_ident column.name
    ++ codes " "
    ++ wrap_clickhouse_nullable column.clickhouse_inner
