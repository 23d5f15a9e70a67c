-- ===== src/Columns/Tests.antt =====
-- Tests of the comparison of columns.
use quickhouse.Prelude.{◌≡◌, refl, true, false, none, List, [], ◌∷◌, ◌++◌}
use quickhouse.Prelude.Text.{Text, codes}
use quickhouse.Arrow.{ColumnType, int64}
use quickhouse.Columns.{
  column_key, has_column, names_of, missing_columns, dropped_columns, unsourced_columns,
}
use quickhouse.Columns.Exact.{Lacks, Picks, missing_columns_exact}

abbrev column : Text → ColumnType
column name = record {
  name = name;
  type_id = 20;
  nullable = true;
  arrow = int64;
  clickhouse_inner = codes "Int64";
  arbitrary_precision_decimal = false;
  declared_decimal = none;
}

abbrev existing : List Text
existing = codes "ID" ∷ codes "old" ∷ []

abbrev desired : List ColumnType
desired = column (codes "id") ∷ column (codes "New") ∷ []

unsourced : unsourced_columns existing desired true ≡ codes "old" ∷ []
unfolding unsourced_columns has_column column_key
unsourced = refl

added : missing_columns existing desired true ≡ column (codes "New") ∷ []
unfolding missing_columns has_column column_key
added = refl

missing_columns_exact_example :
    let missing = missing_columns existing desired true in
    let all = existing ++ names_of missing in
    Picks (λ (c : ColumnType). Lacks true existing c.name) desired missing
    × Picks (Lacks true (names_of desired)) existing (unsourced_columns existing desired true)
    × (missing_columns all desired true ≡ [])
    × (dropped_columns all desired true ≡ [])
missing_columns_exact_example = missing_columns_exact existing desired true
