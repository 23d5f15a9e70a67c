-- ===== src/Ddl/Tests.antt =====
-- Tests of the statements for ClickHouse tables.
use quickhouse.Prelude.{
  is_nil, ◌&&◌, inl, arith, ◌≡◌, ◌↔◌, refl, inr, true, false, none, some, [], ◌∷◌, ◌++◌,
}
use quickhouse.Prelude.Text.{Text, codes}
use quickhouse.Arrow.{int64, ColumnType}
use quickhouse.Nulls.Plan.{SyncMode, effective_engine}
use quickhouse.Ddl.{
  TableConfig, quote_ident, qualified, clickhouse_type, wrap_clickhouse_nullable, statement,
  create_table, state_table_needs_migration,
}
use quickhouse.Ddl.Idents.{read_ident, read_ident-quote_ident}
use quickhouse.Ddl.Sorted.{summing, create_table-Sorted, spelled}

abbrev id : ColumnType
id = record {
  name = codes "id";
  type_id = 20;
  nullable = false;
  arrow = int64;
  clickhouse_inner = codes "Int64";
  arbitrary_precision_decimal = false;
  declared_decimal = none;
}

low_cardinality :
    wrap_clickhouse_nullable (codes "LowCardinality(String)")
    ≡ codes "LowCardinality(Nullable(String))"
unfolding wrap_clickhouse_nullable
low_cardinality = refl

old_state : state_table_needs_migration (codes "chunk_cursor" ∷ codes "chunk_upper" ∷ []) ≡ true
unfolding state_table_needs_migration
old_state = refl

abbrev config : TableConfig
config = record {
  run = record {
    mode = SyncMode.incremental;
    watermark = some (codes "at");
    key = codes "id" ∷ [];
    order_by = [];
    primary_key = [];
    not_null = [];
    engine = none;
  };
  partition_by = none;
}

created :
    create_table (codes "db") (codes "t") (id ∷ []) config
    ≡ inr (
        codes
          "CREATE TABLE IF NOT EXISTS `db`.`t`\n(\n    `id` Int64\n)\nENGINE = ReplacingMergeTree(`at`)\nORDER BY (`id`)")
unfolding create_table statement quote_ident qualified clickhouse_type effective_engine
created = refl

read_ident-quote_ident_example :
    read_ident (quote_ident (codes "a`b\\") ++ codes " Int64")
    ≡ some (codes "a`b\\", codes " Int64")
read_ident-quote_ident_example = read_ident-quote_ident (codes "a`b\\") (codes " Int64")

-- An engine with parameters and with blanks around its name.
abbrev replicated_config : TableConfig
replicated_config = record {
  run = record {
    mode = SyncMode.full;
    watermark = none;
    key = codes "id" ∷ [];
    order_by = [];
    primary_key = [];
    not_null = [];
    engine = some (codes " ReplicatedSummingMergeTree\t('/a', 'b')");
  };
  partition_by = none;
}

replicated_engine :
    effective_engine replicated_config.run
    ≡ spelled (codes " ") true summing (codes "\t") (some (codes "'/a', 'b')"))
unfolding effective_engine
replicated_engine = refl

create_table-Sorted_example :
    ((stmt : Text) × (create_table (codes "db") (codes "t") (id ∷ []) replicated_config ≡ inr stmt))
    ↔ ((is_nil (id ∷ []) ≡ false)
        × ((is_nil replicated_config.run.order_by && is_nil replicated_config.run.key) ≡ false))
create_table-Sorted_example =
    create_table-Sorted (codes "db") (codes "t") (id ∷ []) replicated_config (codes " ") true
      summing (codes "\t") (some (codes "'/a', 'b')")) (inl refl, tt)
      (inr (omega arith, omega arith), tt) replicated_engine
