-- ===== src/Transform/Written.antt =====
-- What becomes of the columns of a plan, and what its checks have made sure of.
use mathlib.Core.Sum.{inl-ne-inr, inr-injective}
use quickhouse.Prelude.{
  is_nil, ◌≡◌, refl, subst, ◌⊎◌, inl, inr, Bool, true, false, not, ◌&&◌, ◌||◌, List, [], ◌∷◌, ◌++◌,
  map, arith, All, Bool-cases, ℤ,
}
use quickhouse.Prelude.Text.{Text, codes, text_eq}
use quickhouse.Columns.{names_of}
use quickhouse.Arrow.{DataType, ColumnType}
use quickhouse.Errors.{EtlError, ◌>>=◌, chained}
use quickhouse.Nulls.Plan.{
  DestKind, click_house, big_query, csv, TransferConfig, effective_engine, engine_parameter_columns,
}
use quickhouse.Transform.{PlanConfig, ExistingColumns, lists, renamed}
use quickhouse.Transform.Decimals.{ExistingDecimals}
use quickhouse.Transform.Plan.{
  require, each, named, check_config, key_names, is_csv, is_click_house, is_watermark, engine_names,
  nullable_as, force_non_nullable, written_as, dest_column, dest_columns_of,
}

require-true : (ok : Bool) (m : Text) (u : Unit {0}) → require ok m ≡ inr u → ok ≡ true
require-true true m u h = refl
require-true false m u h = absurd (inl-ne-inr h)

pub each-All :
    {A : Type 0} (ok : A → Bool) (m : A → Text) (xs : List A) (u : Unit {0})
    → each (λ x. require (ok x) (m x)) xs ≡ inr u
    → All (λ x. ok x ≡ true) xs
each-All ok m [] u h = tt
each-All ok m (x ∷ xs) u h =
    let (v, a, b) = chained (require (ok x) (m x)) (λ w. each (λ y. require (ok y) (m y)) xs) u h in
    (require-true (ok x) (m x) v a, each-All ok m xs u b)

-- What the checks of the configuration have made sure of.
pub record Chosen (cfg : PlanConfig) (source chosen : List ColumnType) : Type 0 where
  pub some_left : is_nil chosen ≡ false
  pub includes : All (λ n. named source n ≡ true) cfg.include

pub check_config-Chosen :
    (cfg : PlanConfig) (source chosen : List ColumnType) (u : Unit {0})
    → check_config cfg source chosen ≡ inr u
    → Chosen cfg source chosen
unfolding check_config
check_config-Chosen cfg source chosen u h =
    let (u3, a, b) = chained _ _ u h in
    let (u2, c, d) = chained _ _ u3 a in
    let (u1, e, f) = chained _ _ u2 c in
    let some_left = require-true (not (is_nil chosen)) _ u1 e in
    record {
      some_left = ground arith;
      includes = each-All (λ n. named source n) _ cfg.include u2 f;
    }

forced :
    (csv key order primary strict click replaces mark argument : Bool)
    → csv ≡ false
    → (key || (order || (primary || (strict || (click && (argument || (replaces && mark)))))))
      ≡ true
    → (not csv
        && ((key || (order || (primary || strict)))
            || ((mark && (replaces && click)) || (click && argument))))
      ≡ true
forced true key order primary strict click replaces mark argument n h = absurd (ground arith)
forced false true order primary strict click replaces mark argument n h = refl
forced false false true primary strict click replaces mark argument n h = refl
forced false false false true strict click replaces mark argument n h = refl
forced false false false false true click replaces mark argument n h = refl
forced false false false false false false replaces mark argument n h = absurd (ground arith)
forced false false false false false true replaces mark true n h = ground arith
forced false false false false false true true true false n h = refl
forced false false false false false true true false false n h = h
forced false false false false false true false mark false n h = absurd (ground arith)

lists-append : (xs ys : List Text) (n : Text) → lists (xs ++ ys) n ≡ (lists xs n || lists ys n)
lists-append [] ys n = refl
lists-append (x ∷ xs) ys n = rw (lists-append xs ys n) (ground arith)

lists-key_names :
    (run : TransferConfig) (n : Text)
    → lists (key_names run) n ≡ (
        lists run.key n
        || (lists run.order_by n || (lists run.primary_key n || lists run.not_null n)))
lists-key_names run n =
    rw
      (
        lists-append run.key (run.order_by ++ (run.primary_key ++ run.not_null)) n,
        lists-append run.order_by (run.primary_key ++ run.not_null) n,
        lists-append run.primary_key run.not_null n,
      )
      refl

lists-engine_names :
    (dest_kind : DestKind) (run : TransferConfig) (n : Text)
    → lists (engine_names dest_kind run) n
      ≡ (is_click_house dest_kind && lists (engine_parameter_columns (effective_engine run)) n)
unfolding engine_names
lists-engine_names click_house run n = refl
lists-engine_names big_query run n = refl
lists-engine_names csv run n = refl

and_false : (b : Bool) → (b && false) ≡ false
and_false true = refl
and_false false = refl

-- Whether the column that is read as `source` and written as `name` may hold no NULL: an option
-- names it or, in ClickHouse, the engine does, as an argument or as the version that the watermark is
-- for a ReplacingMergeTree.
abbrev pub is_required : DestKind → TransferConfig → Text → Text → Bool
is_required dest_kind run source name =
    lists run.key name
    || (lists run.order_by name
        || (lists run.primary_key name
            || (lists run.not_null name
                || (is_click_house dest_kind
                    && (lists (engine_parameter_columns (effective_engine run)) name
                        || (text_eq (effective_engine run) (codes "ReplacingMergeTree")
                            && is_watermark run source))))))

-- Each column of `ds`, read as the one of `cs` at its place, may hold a NULL only if nothing
-- forbids it.
abbrev pub AllRequired : DestKind → TransferConfig → List ColumnType → List ColumnType → Type 0
AllRequired dest_kind run [] [] = Unit
AllRequired dest_kind run [] (d ∷ ds) = ⊥
AllRequired dest_kind run (c ∷ cs) [] = ⊥
AllRequired dest_kind run (c ∷ cs) (d ∷ ds) =
    ((d.nullable && is_required dest_kind run c.name d.name) ≡ false)
    × AllRequired dest_kind run cs ds

module _ (valid : ℤ → ℤ → Bool) (cfg : PlanConfig) (dest_kind : DestKind) (may_coerce : Bool)
    (existing : ExistingColumns) (decimals : ExistingDecimals) where
  -- Of the column read as `c` and written as `d`.
  pub record Written (c d : ColumnType) : Type 0 where
    pub name : d.name ≡ renamed cfg c.name
    pub nullable :
        d.nullable ≡ nullable_as dest_kind may_coerce cfg.run c (renamed cfg c.name) d.arrow

  dest_column-Written :
      (c d : ColumnType)
      → dest_column valid cfg dest_kind may_coerce existing decimals c ≡ inr d
      → Written c d
  unfolding dest_column
  dest_column-Written c d h = from _ h
    where
      from :
          (t : EtlError ⊎ DataType)
          → (t >>= λ arrow.
              inr (written_as valid cfg dest_kind may_coerce existing decimals c arrow))
            ≡ inr d
          → Written c d
      from (inl e) g = absurd (inl-ne-inr g)
      from (inr t) g =
          subst (Written c)
            (inr-injective (written_as valid cfg dest_kind may_coerce existing decimals c t) d g)
            (record { name = refl; nullable = refl })

  abbrev pub AllWritten : List ColumnType → List ColumnType → Type 0
  AllWritten [] [] = Unit
  AllWritten [] (d ∷ ds) = ⊥
  AllWritten (c ∷ cs) [] = ⊥
  AllWritten (c ∷ cs) (d ∷ ds) = Written c d × AllWritten cs ds

  pub dest_columns_of-AllWritten :
      (cs ds : List ColumnType)
      → dest_columns_of valid cfg dest_kind may_coerce existing decimals cs ≡ inr ds
      → AllWritten cs ds
  unfolding dest_columns_of
  dest_columns_of-AllWritten [] ds h = subst (AllWritten []) (inr-injective [] ds h) tt
  dest_columns_of-AllWritten (c ∷ cs) ds h =
      let (d, a, b) = chained _ _ ds h in
      let (ds', a', b') = chained _ _ ds b in
      subst (AllWritten (c ∷ cs)) (inr-injective (d ∷ ds') ds b')
        (dest_column-Written c d a, dest_columns_of-AllWritten cs ds' a')

  pub AllWritten-names :
      (cs ds : List ColumnType) → AllWritten cs ds → names_of ds ≡ map (renamed cfg) (names_of cs)
  AllWritten-names [] [] w = refl
  AllWritten-names [] (d ∷ ds) w = absurd w
  AllWritten-names (c ∷ cs) [] w = absurd w
  AllWritten-names (c ∷ cs) (d ∷ ds) (w, ws) = rw (w.name, AllWritten-names cs ds ws) refl

  required-force :
      (source name : Text)
      → is_csv dest_kind ≡ false
      → is_required dest_kind cfg.run source name ≡ true
      → force_non_nullable dest_kind cfg.run source name ≡ true
  unfolding force_non_nullable
  required-force source name n h =
      let run = cfg.run in
      rw (lists-key_names run name, lists-engine_names dest_kind run name)
        (forced (is_csv dest_kind) (lists run.key name) (lists run.order_by name)
          (lists run.primary_key name) (lists run.not_null name) (is_click_house dest_kind)
          (text_eq (effective_engine run) (codes "ReplacingMergeTree")) (is_watermark run source)
          (lists (engine_parameter_columns (effective_engine run)) name) n h)

  required_not_nullable :
      (c : ColumnType) (name : Text) (arrow : DataType)
      → is_csv dest_kind ≡ false
      → (nullable_as dest_kind may_coerce cfg.run c name arrow
          && is_required dest_kind cfg.run c.name name)
        ≡ false
  unfolding nullable_as
  required_not_nullable c name arrow n =
      elim (Bool-cases (is_required dest_kind cfg.run c.name name)) [
        | inr e ↦ rw e (and_false _)
        | inl e ↦ rw (required-force c.name name n e) refl
      ]

  pub AllWritten-Required :
      (cs ds : List ColumnType)
      → is_csv dest_kind ≡ false
      → AllWritten cs ds
      → AllRequired dest_kind cfg.run cs ds
  AllWritten-Required [] [] n w = tt
  AllWritten-Required [] (d ∷ ds) n w = absurd w
  AllWritten-Required (c ∷ cs) [] n w = absurd w
  AllWritten-Required (c ∷ cs) (d ∷ ds) n (w, ws) = (
    rw (w.nullable, w.name) (required_not_nullable c (renamed cfg c.name) d.arrow n),
    AllWritten-Required cs ds n ws,
  )
