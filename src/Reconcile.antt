-- ===== src/Reconcile.antt =====
-- reconcile.rs: `reconcile_keys`, which compares the keys of a source with those of a destination and
-- deletes what the source no longer has. The two systems are a parameter: a world that each read and
-- the delete move on, since other runs write to them meanwhile. Samples in errors are left out, and
-- their texts shortened.
pub mod Keys
pub mod Repairs
pub mod Tests
use quickhouse.Prelude.{
  ℕ, zero, suc, ◌+◌, ◌≡◌, ◌⊎◌, inl, inr, Bool, true, false, not, ◌&&◌, Option, none, some, List, [],
  ◌∷◌, length, take, any, ltb, ◌==◌, if◌then◌else◌, is_some,
}
use quickhouse.Prelude.Text.{Text, codes, text_eq, trim}
use quickhouse.Columns.{filter}
use quickhouse.Errors.{EtlError, ◌>>=◌}

pub record ReconcileConfig : Type 0 where
  pub source_table : Option Text
  pub source_query : Option Text
  pub dest_table : Text
  pub key : Text
  pub window : Option Text
  pub dest_window : Option Text
  pub delete : Bool
  -- no ceiling if 0
  pub max_delete_keys : ℕ
  pub sample_limit : ℕ

-- The duration of the run is left out.
pub record ReconcileResult : Type 0 where
  pub source_keys : ℕ
  pub dest_keys : ℕ
  pub orphan_keys : ℕ
  pub missing_keys : ℕ
  pub rows_deleted : ℕ
  pub orphan_sample : List Text
  pub missing_sample : List Text

pub data SourceConfig : Type 0 where
  postgres my_sql big_query click_house clever_tap apps_flyer http_api arrow : SourceConfig

unfoldable pub ensure_keyset_source : SourceConfig → EtlError ⊎ Unit {0}
ensure_keyset_source postgres = inr tt
ensure_keyset_source my_sql = inr tt
ensure_keyset_source click_house = inr tt
ensure_keyset_source _ = inl (EtlError.config (codes "reconcile_keys does not support this source"))

unfoldable pub effective_dest_window : ReconcileConfig → Option Text
effective_dest_window cfg = elim cfg.dest_window [ some w ↦ some w | none ↦ cfg.window ]

abbrev pub blank : Text → Bool
blank s = elim (trim s) [ [] ↦ true | c ∷ s' ↦ false ]

abbrev pub one_source : Option Text → Option Text → EtlError ⊎ Unit {0}
one_source (some t) (some q) =
    inl (EtlError.config (codes "reconcile_keys takes source_table or source_query, not both"))
one_source none none =
    inl (EtlError.config (codes "reconcile_keys requires source_table or source_query"))
one_source (some t) none = inr tt
one_source none (some q) = inr tt

abbrev pub bounded_delete : Bool → Option Text → EtlError ⊎ Unit {0}
bounded_delete delete window =
    if delete && not (is_some window)
    then inl (EtlError.config (codes "reconcile_keys with delete=True requires a window"))
    else inr tt

unfoldable pub validate : ReconcileConfig → EtlError ⊎ Unit {0}
unfolding effective_dest_window trim
validate cfg =
    if blank cfg.dest_table
    then inl (EtlError.config (codes "reconcile_keys requires dest_table"))
    else if blank cfg.key
    then inl (EtlError.config (codes "reconcile_keys requires key"))
    else one_source cfg.source_table cfg.source_query >>= λ u.
        bounded_delete cfg.delete (effective_dest_window cfg)

-- `HashSet::contains`, and `len` of the set of a list.
abbrev pub among : List Text → Text → Bool
among ks k = any (text_eq k) ks

abbrev pub set_len : List Text → ℕ
set_len [] = 0
set_len (k ∷ ks) = (if among ks k then 0 else 1) + set_len ks

abbrev pub Distinct : List Text → Type 0
Distinct [] = Unit
Distinct (k ∷ ks) = (among ks k ≡ false) × Distinct ks

-- The keys of `xs` that `ys` has not.
unfoldable pub lacking : List Text → List Text → List Text
lacking ys xs = filter (λ k. not (among ys k)) xs

unfoldable pub compare_keys : ℕ → List Text → List Text → ReconcileResult
unfolding lacking
compare_keys sample_limit source_keys dest_keys =
    let orphans = lacking source_keys dest_keys in
    let missing = lacking dest_keys source_keys in
    record {
      source_keys = set_len source_keys;
      dest_keys = set_len dest_keys;
      orphan_keys = length orphans;
      missing_keys = length missing;
      rows_deleted = 0;
      orphan_sample = take sample_limit orphans;
      missing_sample = take sample_limit missing;
    }

-- Keys on both sides, and none in common.
unfoldable pub nothing_in_common : ReconcileResult → Bool
nothing_in_common r =
    ltb 0 r.source_keys
    && (ltb 0 r.dest_keys && (r.orphan_keys == r.dest_keys && r.missing_keys == r.source_keys))

abbrev pub over_ceiling : ReconcileConfig → ReconcileResult → Bool
over_ceiling cfg r = ltb 0 cfg.max_delete_keys && ltb cfg.max_delete_keys r.orphan_keys

-- The systems: the kind of the source; whether the destination is CSV files, whether its sink could
-- be built, and if so whether it deletes single rows; the keys of the destination and of the source,
-- each once; and the deletion of keys, which counts rows.
pub record Systems : Type 1 where
  pub World : Type 0
  pub source : SourceConfig
  pub is_csv : Bool
  pub sink : EtlError ⊎ Bool
  pub distinct_keys : World → (EtlError ⊎ List Text) × World
  pub read_source_keys : World → (EtlError ⊎ List Text) × World
  pub delete_keys : List Text → World → (EtlError ⊎ ℕ) × World
  pub dest_distinct : (w : World) (ks : List Text) → (distinct_keys w).0 ≡ inr ks → Distinct ks
  pub source_distinct : (w : World) (ks : List Text) → (read_source_keys w).0 ≡ inr ks → Distinct ks

abbrev pub not_csv : Bool → EtlError ⊎ Unit {0}
not_csv is_csv =
    if is_csv
    then inl (EtlError.config (codes "reconcile_keys is not supported for a CSV destination"))
    else inr tt

abbrev pub can_delete : Bool → Bool → EtlError ⊎ Unit {0}
can_delete delete supported =
    if delete && not supported
    then inl (EtlError.config (codes "this destination cannot delete individual rows"))
    else inr tt

module _ (sys : Systems) (cfg : ReconcileConfig) where
  -- The checks before anything is read.
  unfoldable pub ready : EtlError ⊎ Unit {0}
  unfolding validate ensure_keyset_source
  ready =
      not_csv sys.is_csv
      >>= (λ u. validate cfg)
      >>= (λ u. ensure_keyset_source sys.source)
      >>= (λ u. sys.sink)
      >>= can_delete cfg.delete

  abbrev pub with_deleted :
      ReconcileResult → (EtlError ⊎ ℕ) × sys.World → (EtlError ⊎ ReconcileResult) × sys.World
  with_deleted r (inl e, w) = (inl e, w)
  with_deleted r (inr n, w) = (inr (record r { rows_deleted = n }), w)

  -- What follows the comparison.
  unfoldable pub repair :
      ReconcileResult → List Text → sys.World → (EtlError ⊎ ReconcileResult) × sys.World
  repair r [] w = (inr r, w)
  repair r (k ∷ orphans) w =
      if cfg.delete
      then (if over_ceiling cfg r
          then (inl (EtlError.config (codes "above the max_delete_keys ceiling")), w)
          else with_deleted r (sys.delete_keys (k ∷ orphans) w))
      else (inr r, w)

  unfoldable pub settle_keys :
      List Text → (EtlError ⊎ List Text) × sys.World → (EtlError ⊎ ReconcileResult) × sys.World
  unfolding repair compare_keys nothing_in_common
  settle_keys dest_keys (inl e, w) = (inl e, w)
  settle_keys dest_keys (inr source_keys, w) =
      let r = compare_keys cfg.sample_limit source_keys dest_keys in
      if nothing_in_common r
      then (inl (EtlError.config (codes "reconcile found NO keys in common")), w)
      else repair r (lacking source_keys dest_keys) w

  -- The destination is read before the source.
  abbrev pub read_both :
      (EtlError ⊎ List Text) × sys.World → (EtlError ⊎ ReconcileResult) × sys.World
  read_both (inl e, w) = (inl e, w)
  read_both (inr dest_keys, w) = settle_keys dest_keys (sys.read_source_keys w)

  unfoldable pub reconcile_keys : sys.World → (EtlError ⊎ ReconcileResult) × sys.World
  unfolding ready settle_keys
  reconcile_keys w = elim ready [ inl e ↦ (inl e, w) | inr u ↦ read_both (sys.distinct_keys w) ]
