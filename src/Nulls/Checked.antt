-- ===== src/Nulls/Checked.antt =====
-- The guard of a run: what it checks, and that it filters whatever is decoded under its plan.
use quickhouse.Prelude.{
  ℕ, suc, ◌+◌, ◌≡◌, refl, ap, sym, ◌∙◌, subst, inl, inr, Bool, true, false, not, ◌||◌, Option, none,
  some, List, [], ◌∷◌, arith, any, All, get_elem?, Bool-cases, ◌==◌, is_some,
}
use quickhouse.Prelude.Text.{Text}
use quickhouse.Arrow.{ColumnType}
use quickhouse.Nulls.{Guarded, Defaulted, NullGuard, checked}
use quickhouse.Nulls.Plan.{
  DestKind, click_house, big_query, csv, TransferConfig, SelectPlan, taken, watermark_columns,
  key_columns, not_null_by, engine_columns_for, some_guard, guard_of, new, named,
  engine_parameter_columns, effective_engine,
}
use quickhouse.Nulls.Distinct.{
  Distinct, LeavesOut, positions, fill_positions, Placed, PlacedGuards, any-append-left,
  any-append-right, Distinct-append, taken-positions, Good, key_columns-Good,
  watermark_columns-Good,
}
use quickhouse.Nulls.Defaults.{
  FillsAt, fills, defaulted_from-FillsAt, defaulted_from-Distinct, fills-Apart, defaulted_from-has,
}

-- What is checked, where nothing is if there is no guard.
abbrev pub as_guard : Option NullGuard → NullGuard
as_guard none = record { columns = []; defaulted = [] }
as_guard (some g) = g

abbrev options_name : TransferConfig → Text → Bool
options_name cfg name =
    named cfg.order_by name || (named cfg.primary_key name || named cfg.not_null name)

-- Whether a column of that name can't be NULL at the destination because of the configuration.
abbrev pub is_not_null : DestKind → TransferConfig → Text → Bool
is_not_null csv cfg name = false
is_not_null big_query cfg name = options_name cfg name
is_not_null click_house cfg name =
    options_name cfg name || named (engine_parameter_columns (effective_engine cfg)) name

-- Of the columns from the one at `idx` on, each that can't be NULL for such a reason is checked.
abbrev pub NamedChecked : DestKind → TransferConfig → List ℕ → ℕ → List ColumnType → Type 0
NamedChecked dest cfg positions idx [] = Unit
NamedChecked dest cfg positions idx (c ∷ cs) =
    ((c.nullable || (not (is_not_null dest cfg c.name) || any (λ k. k == idx) positions)) ≡ true)
    × NamedChecked dest cfg positions (idx + 1) cs

-- What the guard of a run checks.
pub record Checks (plan : SelectPlan) (cfg : TransferConfig) (dest : DestKind) (g : NullGuard)
    : Type 0 where
  pub distinct : Distinct (checked g)
  pub guards : PlacedGuards plan g.columns
  pub leave_out : All LeavesOut g.columns
  pub fills : All (λ (d : Defaulted). Placed plan d.idx d.column) g.defaulted
  pub all_named : NamedChecked dest cfg (checked g) 0 plan.dest_columns

named_by :
    (cfg : TransferConfig) (names : List Text) (name : Text)
    → (options_name cfg name || named names name) ≡ true
    → is_some (not_null_by cfg names name) ≡ true
unfolding not_null_by
named_by cfg names name h = elim (Bool-cases (named cfg.order_by name)) [
  | inl e ↦ rw e refl
  | inr e ↦ elim (Bool-cases (named cfg.primary_key name)) [
    | inl e' ↦ rw (e, e') refl
    | inr e' ↦ elim (Bool-cases (named cfg.not_null name)) [
      | inl e'' ↦ rw (e, e', e'') refl
      | inr e'' ↦ let last : named names name ≡ true = ground arith in rw (e, e', e'', last) refl
    ]
  ]
]

is_not_null-named_by :
    (dest : DestKind) (cfg : TransferConfig) (name : Text)
    → is_not_null dest cfg name ≡ true
    → is_some (not_null_by cfg (engine_columns_for dest cfg) name) ≡ true
unfolding engine_columns_for
is_not_null-named_by csv cfg name h = cc
is_not_null-named_by big_query cfg name h = named_by cfg [] name (ground arith)
is_not_null-named_by click_house cfg name h =
    named_by cfg (engine_parameter_columns (effective_engine cfg)) name h

all-NamedChecked :
    (dest : DestKind) (cfg : TransferConfig) (positions : List ℕ) (idx : ℕ) (cs : List ColumnType)
    → ((k : ℕ) (col : ColumnType)
        → get_elem? cs k ≡ some col
        → col.nullable ≡ false
        → is_not_null dest cfg col.name ≡ true
        → any (λ c. c == idx + k) positions ≡ true)
    → NamedChecked dest cfg positions idx cs
all-NamedChecked dest cfg positions idx [] h = tt
all-NamedChecked dest cfg positions idx (c ∷ cs) h = (
  elim (Bool-cases c.nullable) [
    | inl e ↦ rw e refl
    | inr e ↦ elim (Bool-cases (is_not_null dest cfg c.name)) [
      | inr e' ↦ rw (e, e') refl
      | inl e' ↦
          let here : any (λ k. k == idx) positions ≡ true =
            ap (λ (j : ℕ). any (λ k. k == j) positions) (omega arith) ∙ h 0 c refl e e' in
          rw (e, e', here) refl
    ]
  ],
  all-NamedChecked dest cfg positions (idx + 1) cs (λ k col g n by.
      ap (λ (j : ℕ). any (λ c. c == j) positions) (omega arith) ∙ h (suc k) col g n by),
)

module _ (plan : SelectPlan) (cfg : TransferConfig) (dest : DestKind) where
  abbrev names : List Text
  names = engine_columns_for dest cfg

  placed_fills :
      (cs : List Guarded) (ds : List Defaulted)
      → All (λ (d : Defaulted). FillsAt cfg dest names cs plan.dest_columns 0 d.idx d.column) ds
      → All (λ (d : Defaulted). Placed plan d.idx d.column) ds
  placed_fills cs [] h = tt
  placed_fills cs (d ∷ ds) ((k, e, (col, hc, hn), f), hs) =
      ((col, ap (get_elem? plan.dest_columns) (omega arith) ∙ hc, hn), placed_fills cs ds hs)

  guard_columns : List Guarded
  guard_columns = key_columns plan cfg.key (watermark_columns plan cfg.watermark)

  guard_columns-Good : Good plan guard_columns
  unfolding guard_columns
  guard_columns-Good =
      key_columns-Good plan cfg.key (watermark_columns plan cfg.watermark)
        (watermark_columns-Good plan cfg.watermark)

  whole : List Guarded → NullGuard
  whole cs = record { columns = cs; defaulted = fills cfg dest names cs 0 plan.dest_columns }

  whole-Checks : (cs : List Guarded) → Good plan cs → Checks plan cfg dest (whole cs)
  unfolding checked whole
  whole-Checks cs good =
      let ds = fills cfg dest names cs 0 plan.dest_columns in
      let at = defaulted_from-FillsAt cfg dest names cs 0 plan.dest_columns in
      record {
        distinct =
            Distinct-append (positions cs) (fill_positions ds) good.distinct
              (defaulted_from-Distinct cfg dest names cs 0 plan.dest_columns)
              (fills-Apart cfg dest names cs plan.dest_columns 0 ds at);
        guards = good.placed;
        leave_out = good.kinds;
        fills = placed_fills cs ds at;
        all_named =
            all-NamedChecked dest cfg (checked (whole cs)) 0 plan.dest_columns (λ i col h n by.
              elim (Bool-cases (taken cs (0 + i))) [
                | inl e ↦
                    any-append-left (positions cs) (fill_positions ds) (0 + i)
                      (sym (taken-positions cs (0 + i)) ∙ e)
                | inr e ↦ any-append-right (positions cs) (fill_positions ds) (0 + i) (
                    defaulted_from-has cfg dest names cs 0 i plan.dest_columns col h n
                      (is_not_null-named_by dest cfg col.name by) e)
              ]);
      }

  some_guard-eq :
      (cs : List Guarded) (ds : List Defaulted)
      → record { columns = cs; defaulted = ds } ≡ as_guard (some_guard cs ds)
  some_guard-eq [] [] = refl
  some_guard-eq [] (d ∷ ds) = refl
  some_guard-eq (c ∷ cs) ds = refl

  guard_of-Checks : Checks plan cfg dest (as_guard (guard_of plan cfg dest))
  unfolding whole guard_columns
  guard_of-Checks =
      subst (Checks plan cfg dest)
        (some_guard-eq guard_columns (fills cfg dest names guard_columns 0 plan.dest_columns))
        (whole-Checks guard_columns guard_columns-Good)

no_NamedChecked :
    (cfg : TransferConfig) (idx : ℕ) (cs : List ColumnType) → NamedChecked csv cfg [] idx cs
no_NamedChecked cfg idx [] = tt
no_NamedChecked cfg idx (c ∷ cs) = (ground arith, no_NamedChecked cfg (idx + 1) cs)

-- A run checks no column twice. Each column that it leaves rows out for or fills in is the one of the
-- plan at its position. For ClickHouse and BigQuery, every column of the plan that is not nullable
-- and that order_by, primary_key or not_null names, or for ClickHouse an argument of the engine, is
-- checked, so that there is a guard if there is such a column.
pub new-Checks :
    (plan : SelectPlan) (cfg : TransferConfig) (dest : DestKind)
    → Checks plan cfg dest (as_guard (new plan cfg dest))
unfolding new checked
new-Checks plan cfg click_house = guard_of-Checks plan cfg click_house
new-Checks plan cfg big_query = guard_of-Checks plan cfg big_query
new-Checks plan cfg csv = record {
  distinct = tt;
  guards = tt;
  leave_out = tt;
  fills = tt;
  all_named = no_NamedChecked cfg 0 plan.dest_columns;
}

pub guard-Checks :
    (plan : SelectPlan) (cfg : TransferConfig) (dest : DestKind) (g : NullGuard)
    → new plan cfg dest ≡ some g
    → Checks plan cfg dest g
guard-Checks plan cfg dest g h =
    subst (Checks plan cfg dest) (ap as_guard h) (new-Checks plan cfg dest)
