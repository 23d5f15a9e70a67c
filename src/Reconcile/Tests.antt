-- ===== src/Reconcile/Tests.antt =====
-- Tests of the comparison of keys.
use mathlib.Core.Sum.{inr-injective}
use quickhouse.Prelude.{◌≡◌, refl, inr, ◌⊎◌, true, false, none, some, List, [], ◌∷◌, length, subst}
use quickhouse.Prelude.Text.{Text, codes, trim, trim_start, trim_end}
use quickhouse.Reconcile.{
  ReconcileConfig, SourceConfig, Systems, Distinct, ready, reconcile_keys, validate,
  ensure_keyset_source, effective_dest_window,
}
use quickhouse.Reconcile.Repairs.{
  Measured, Deleted, reconcile_keys-Deletes, reconcile_keys-Measures,
}

abbrev in_source : List Text
in_source = codes "1" ∷ codes "2" ∷ codes "5" ∷ []

abbrev in_dest : List Text
in_dest = codes "1" ∷ codes "2" ∷ codes "3" ∷ codes "4" ∷ []

-- The world is the list of what was deleted.
abbrev shop : Systems
shop = record {
  World = List Text;
  source = SourceConfig.postgres;
  is_csv = false;
  sink = inr true;
  distinct_keys = λ w. (inr in_dest, w);
  read_source_keys = λ w. (inr in_source, w);
  delete_keys = λ ks w. (inr (length ks), ks);
  dest_distinct =
      λ w ks h. subst Distinct (inr-injective in_dest ks h) (refl, (refl, (refl, (refl, tt))));
  source_distinct =
      λ w ks h. subst Distinct (inr-injective in_source ks h) (refl, (refl, (refl, tt)));
}

abbrev measure : ReconcileConfig
measure = record {
  source_table = some (codes "orders");
  source_query = none;
  dest_table = codes "orders";
  key = codes "id";
  window = some (codes "day > 3");
  dest_window = none;
  delete = false;
  max_delete_keys = 3;
  sample_limit = 1;
}

abbrev delete : ReconcileConfig
delete = record measure { delete = true }

deletes : reconcile_keys shop delete [] ≡ (
  inr (record {
    source_keys = 3;
    dest_keys = 4;
    orphan_keys = 2;
    missing_keys = 1;
    rows_deleted = 2;
    orphan_sample = codes "3" ∷ [];
    missing_sample = codes "5" ∷ [];
  }),
  codes "3" ∷ codes "4" ∷ [],
)
unfolding reconcile_keys
deletes = refl

deletable : ready shop delete ≡ inr tt
unfolding ready validate ensure_keyset_source effective_dest_window trim trim_start trim_end
deletable = refl

measurable : ready shop measure ≡ inr tt
unfolding ready validate ensure_keyset_source effective_dest_window trim trim_start trim_end
measurable = refl

reconcile_keys-Deletes_example :
    let w' = (reconcile_keys shop delete []).1 in
    ((w' ≡ []) ⊎ ((w' ≡ []) ⊎ (w' ≡ []))) ⊎ Deleted shop delete [] w'
reconcile_keys-Deletes_example = reconcile_keys-Deletes shop delete []

reconcile_keys-Measures_example : Measured in_source in_dest (reconcile_keys shop measure []).0
reconcile_keys-Measures_example =
    reconcile_keys-Measures shop measure [] [] [] in_source in_dest measurable refl refl refl
