-- ===== src/Transform/Projects.antt =====
-- What a plan reads and writes, and which columns of it hold no NULL.
use mathlib.Core.Sum.{inr-injective}
use quickhouse.Prelude.{
  is_nil, ◌≡◌, refl, sym, ap, ◌⊎◌, inr, Bool, true, false, Option, List, [], ◌∷◌, map, any, All, ℤ,
}
use quickhouse.Prelude.Text.{Text}
use quickhouse.Columns.{names_of}
use quickhouse.Arrow.{ColumnType}
use quickhouse.Errors.{EtlError, ◌>>=◌, chained}
use quickhouse.Nulls.Plan.{DestKind, SelectPlan}
use quickhouse.Transform.{PlanConfig, ExistingColumns, get, included, renamed}
use quickhouse.Transform.Decimals.{ExistingDecimals, existing_decimals}
use quickhouse.Transform.Written.{
  each-All, Chosen, check_config-Chosen, AllWritten, dest_columns_of-AllWritten, AllWritten-names,
  AllWritten-Required, AllRequired,
}
use quickhouse.Transform.Plan.{
  named, check_config, is_csv, dest_columns_of, same_name, ensure_key_columns, plan_of,
  existing_for, plan_for_destination,
}

-- A plan, for the columns `chosen` of the source.
pub record Planned (cfg : PlanConfig) (dest_kind : DestKind) (source chosen : List ColumnType)
    (p : SelectPlan) : Type 0 where
  pub sources : p.source_columns ≡ names_of chosen
  pub exprs : p.source_select_exprs ≡ map (get cfg.column_transforms) (names_of chosen)
  pub dests : names_of p.dest_columns ≡ map (renamed cfg) (names_of chosen)
  pub some_left : is_nil chosen ≡ false
  pub includes : All (λ n. named source n ≡ true) cfg.include
  pub keys :
      All
        (λ k. any (λ (d : ColumnType). same_name dest_kind d.name k) p.dest_columns ≡ true)
        cfg.run.key

module _ (valid : ℤ → ℤ → Bool) (source : List ColumnType) (cfg : PlanConfig) (dest_kind : DestKind)
    (may_coerce : Bool) (existing : ExistingColumns) where
  abbrev decimals_found : ExistingDecimals
  decimals_found = existing_decimals source cfg dest_kind (existing_for dest_kind existing)

  record Made (p : SelectPlan) : Type 0 where
    ds : List ColumnType
    is_plan : p ≡ plan_of cfg (included cfg source) ds
    all_written :
        AllWritten valid cfg dest_kind may_coerce
          (existing_for dest_kind existing)
          decimals_found
          (included cfg source)
          ds
    chosen_ok : Chosen cfg source (included cfg source)
    keys_ok :
        All (λ k. any (λ (d : ColumnType). same_name dest_kind d.name k) ds ≡ true) cfg.run.key

  abbrev rest_of_plan : EtlError ⊎ SelectPlan
  rest_of_plan =
      dest_columns_of valid cfg dest_kind may_coerce (existing_for dest_kind existing)
        decimals_found (included cfg source)
      >>= λ dests. ensure_key_columns source cfg dest_kind dests >>= λ u'.
          inr (plan_of cfg (included cfg source) dests)

  plan-Made :
      (p : SelectPlan)
      → plan_for_destination valid source cfg dest_kind may_coerce existing ≡ inr p
      → Made p
  unfolding plan_for_destination ensure_key_columns
  plan-Made p h =
      let chosen = included cfg source in
      let (u, a, b) =
        chained (check_config cfg source chosen) (λ (w : Unit {0}). rest_of_plan) p h in
      let (ds, c, d) =
        chained
          (dest_columns_of valid cfg dest_kind may_coerce (existing_for dest_kind existing)
            decimals_found chosen)
          (λ dests.
            ensure_key_columns source cfg dest_kind dests >>= λ w. inr (plan_of cfg chosen dests))
          p b in
      let (u', e, f) =
        chained (ensure_key_columns source cfg dest_kind ds)
          (λ (w : Unit {0}). inr (plan_of cfg chosen ds)) p d in
      record {
        ds = ds;
        is_plan = sym (inr-injective (plan_of cfg chosen ds) p f);
        all_written =
            dest_columns_of-AllWritten valid cfg dest_kind may_coerce
              (existing_for dest_kind existing) decimals_found chosen ds c;
        chosen_ok = check_config-Chosen cfg source chosen u a;
        keys_ok =
            each-All (λ k. any (λ (t : ColumnType). same_name dest_kind t.name k) ds) _ cfg.run.key
              u' e;
      }

map_names :
    (f : Text → Option Text) (cs : List ColumnType)
    → map (λ (c : ColumnType). f c.name) cs ≡ map f (names_of cs)
map_names f [] = refl
map_names f (c ∷ cs) = ap (◌∷◌ (f c.name)) (map_names f cs)

-- A run's plan reads the columns that include and exclude leave of the source, at least one, in the
-- order of the source, each as itself or as its transform; it writes one column for each, in that
-- order, under its name or the one that rename gives it. Every column that include names is one of
-- the source, and every key is the name of a column that is written.
pub plan_for_destination-Planned :
    (valid : ℤ → ℤ → Bool) (source : List ColumnType) (cfg : PlanConfig) (dest_kind : DestKind)
    (may_coerce : Bool) (existing : ExistingColumns) (p : SelectPlan)
    → plan_for_destination valid source cfg dest_kind may_coerce existing ≡ inr p
    → Planned cfg dest_kind source (included cfg source) p
plan_for_destination-Planned valid source cfg dest_kind may_coerce existing p h =
    let m = plan-Made valid source cfg dest_kind may_coerce existing p h in
    let chosen = included cfg source in
    rw m.is_plan (record {
      sources = refl;
      exprs = map_names (get cfg.column_transforms) chosen;
      dests =
          AllWritten-names valid cfg dest_kind may_coerce (existing_for dest_kind existing)
            (existing_decimals source cfg dest_kind (existing_for dest_kind existing)) chosen m.ds
            m.all_written;
      some_left = m.chosen_ok.some_left;
      includes = m.chosen_ok.includes;
      keys = m.keys_ok;
    })

-- For ClickHouse and BigQuery, no column that is written may hold a NULL if key, order_by,
-- primary_key or not_null names it. For ClickHouse, neither may one that an argument of the engine
-- names, nor the one that the watermark is written to, if the engine is a plain ReplacingMergeTree.
pub plan_for_destination-Strict :
    (valid : ℤ → ℤ → Bool) (source : List ColumnType) (cfg : PlanConfig) (dest_kind : DestKind)
    (may_coerce : Bool) (existing : ExistingColumns) (p : SelectPlan)
    → is_csv dest_kind ≡ false
    → plan_for_destination valid source cfg dest_kind may_coerce existing ≡ inr p
    → AllRequired dest_kind cfg.run (included cfg source) p.dest_columns
plan_for_destination-Strict valid source cfg dest_kind may_coerce existing p not_csv h =
    let m = plan-Made valid source cfg dest_kind may_coerce existing p h in
    let found = existing_decimals source cfg dest_kind (existing_for dest_kind existing) in
    rw m.is_plan (
      AllWritten-Required valid cfg dest_kind may_coerce (existing_for dest_kind existing) found
        (included cfg source) m.ds not_csv m.all_written)
