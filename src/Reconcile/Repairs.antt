-- ===== src/Reconcile/Repairs.antt =====
-- What `reconcile_keys` measures, and what it deletes.
use mathlib.Core.Sum.{inl-ne-inr}
use quickhouse.Prelude.{
  ℕ, ◌+◌, ◌≤◌, ◌≡◌, refl, sym, ap, ◌∙◌, ◌⊎◌, inl, inr, Bool, true, false, not, ◌&&◌, Option, none,
  some, List, [], ◌∷◌, length, arith, Bool-cases, if◌then◌else◌, is_some,
}
use quickhouse.Prelude.Text.{Text}
use quickhouse.Errors.{EtlError, chained}
use quickhouse.Reconcile.{
  Distinct, blank, one_source, bounded_delete, can_delete, validate, ensure_keyset_source,
  effective_dest_window, ReconcileConfig, ReconcileResult, Systems, among, lacking, compare_keys,
  nothing_in_common, over_ceiling, with_deleted, repair, settle_keys, read_both, ready,
  reconcile_keys,
}
use quickhouse.Reconcile.Keys.{
  among-lacking, shared, compare_keys-Counts, disjoint_keys, common_keys,
}

-- What a comparison is to report, of the keys `ss` of the source and `ds` of the destination.
abbrev pub Measured : List Text → List Text → EtlError ⊎ ReconcileResult → Type 0
Measured ss ds (inl e) = (shared ss ds ≡ 0) × (1 ≤ length ss) × (1 ≤ length ds)
Measured ss ds (inr r) =
    (r.source_keys ≡ length ss)
    × (r.dest_keys ≡ length ds)
    × (r.orphan_keys + shared ss ds ≡ length ds)
    × (r.missing_keys + shared ss ds ≡ length ss)
    × (r.rows_deleted ≡ 0)
    × ((length ss ≡ 0) ⊎ ((length ds ≡ 0) ⊎ (1 ≤ shared ss ds)))

module _ (sys : Systems) (cfg : ReconcileConfig) where
  repair_kept :
      (r : ReconcileResult) (orphans : List Text) (w : sys.World)
      → cfg.delete ≡ false
      → repair sys cfg r orphans w ≡ (inr r, w)
  unfolding repair
  repair_kept r [] w off = refl
  repair_kept r (k ∷ orphans) w off = rw off refl

  settle_keys-Measured :
      (ss ds : List Text) (w : sys.World)
      → cfg.delete ≡ false
      → Distinct ss
      → Distinct ds
      → Measured ss ds (settle_keys sys cfg ds (inr ss, w)).0
  unfolding settle_keys
  settle_keys-Measured ss ds w off a b =
      let r = compare_keys cfg.sample_limit ss ds in
      let c = compare_keys-Counts cfg.sample_limit ss ds a b in
      elim (Bool-cases (nothing_in_common r)) [
        | inl e ↦ rw e (disjoint_keys cfg.sample_limit ss ds a b e)
        | inr e ↦
            rw (e, repair_kept r (lacking ss ds) w off)
              (
                c.sources,
                c.dests,
                c.orphans,
                c.missing_,
                c.untouched,
                common_keys cfg.sample_limit ss ds a b e,
              )
      ]

-- What was deleted, where the destination was read in the world `w`, and the source after that.
pub record Deleted (sys : Systems) (cfg : ReconcileConfig) (w w' : sys.World) : Type 0 where
  pub orphans : List Text
  pub dests : List Text
  pub sources : List Text
  pub dests_read : (sys.distinct_keys w).0 ≡ inr dests
  pub sources_read : (sys.read_source_keys (sys.distinct_keys w).1).0 ≡ inr sources
  pub deleted : w' ≡ (sys.delete_keys orphans (sys.read_source_keys (sys.distinct_keys w).1).1).1
  pub wanted : cfg.delete ≡ true
  pub windowed : is_some (effective_dest_window cfg) ≡ true
  pub are_orphans : (k : Text) → among orphans k ≡ (among dests k && not (among sources k))
  pub within_ceiling : (cfg.max_delete_keys ≡ 0) ⊎ (length orphans ≤ cfg.max_delete_keys)
  pub comparable : (length sources ≡ 0) ⊎ ((length dests ≡ 0) ⊎ (1 ≤ shared sources dests))

-- What is left of a chain of checks that passed.
after_check :
    {A : Type 0} (b : Bool) (x : EtlError) (y : EtlError ⊎ A) (a : A)
    → (if b then inl x else y) ≡ inr a
    → y ≡ inr a
after_check true x y a h = absurd (inl-ne-inr h)
after_check false x y a h = h

bounded_window :
    (window : Option Text) (u : Unit {0})
    → bounded_delete true window ≡ inr u
    → is_some window ≡ true
bounded_window (some t) u h = refl
bounded_window none u h = absurd (inl-ne-inr h)

validate_window :
    (cfg : ReconcileConfig) (u : Unit {0})
    → validate cfg ≡ inr u
    → cfg.delete ≡ true
    → is_some (effective_dest_window cfg) ≡ true
unfolding validate
validate_window cfg u h on =
    let a = after_check (blank cfg.dest_table) _ _ u h in
    let b = after_check (blank cfg.key) _ _ u a in
    let (v, c, d) = chained (one_source cfg.source_table cfg.source_query) _ u b in
    bounded_window (effective_dest_window cfg) u (rw on at d)

ready_window :
    (sys : Systems) (cfg : ReconcileConfig) (u : Unit {0})
    → ready sys cfg ≡ inr u
    → cfg.delete ≡ true
    → is_some (effective_dest_window cfg) ≡ true
unfolding ready
ready_window sys cfg u h on =
    let (supported, a, b) = chained _ (can_delete cfg.delete) u h in
    let (v, c, d) = chained _ (λ (x : Unit {0}). sys.sink) supported a in
    let (v', c', d') = chained _ (λ (x : Unit {0}). ensure_keyset_source sys.source) v c in
    let (v'', c'', d'') = chained _ (λ (x : Unit {0}). validate cfg) v' c' in
    validate_window cfg v' d'' on

module _ (sys : Systems) (cfg : ReconcileConfig)
    (window : cfg.delete ≡ true → is_some (effective_dest_window cfg) ≡ true) where
  abbrev Ends : sys.World → sys.World → Type 0
  Ends w w' =
      let d = sys.distinct_keys w in
      let s = sys.read_source_keys d.1 in
      ((w' ≡ w) ⊎ ((w' ≡ d.1) ⊎ (w' ≡ s.1))) ⊎ Deleted sys cfg w w'

  with_deleted-world :
      (r : ReconcileResult) (x : (EtlError ⊎ ℕ) × sys.World) → (with_deleted sys cfg r x).1 ≡ x.1
  with_deleted-world r (inl e, w) = refl
  with_deleted-world r (inr n, w) = refl

  repair-Ends :
      (r : ReconcileResult) (orphans : List Text) (w : sys.World)
      → ((repair sys cfg r orphans w).1 ≡ w)
        ⊎ (((repair sys cfg r orphans w).1 ≡ (sys.delete_keys orphans w).1)
            × (cfg.delete ≡ true)
            × (over_ceiling cfg r ≡ false))
  unfolding repair
  repair-Ends r [] w = inl refl
  repair-Ends r (k ∷ orphans) w = elim (Bool-cases cfg.delete) [
    | inr off ↦ rw off (inl refl)
    | inl on ↦ elim (Bool-cases (over_ceiling cfg r)) [
      | inl over ↦ rw (on, over) (inl refl)
      | inr fits ↦
          rw (on, fits) (inr (with_deleted-world r (sys.delete_keys (k ∷ orphans) w), refl, refl))
    ]
  ]

  ceiling :
      (limit : ℕ) (ss ds : List Text)
      → over_ceiling cfg (compare_keys limit ss ds) ≡ false
      → (cfg.max_delete_keys ≡ 0) ⊎ (length (lacking ss ds) ≤ cfg.max_delete_keys)
  unfolding compare_keys
  ceiling limit ss ds e = ground arith

  settle_keys-Ends :
      (w : sys.World) (ds : List Text) (s : (EtlError ⊎ List Text) × sys.World)
      → (sys.distinct_keys w).0 ≡ inr ds
      → sys.read_source_keys (sys.distinct_keys w).1 ≡ s
      → Ends w (settle_keys sys cfg ds s).1
  unfolding settle_keys
  settle_keys-Ends w ds (inl e, w2) d s = inl (inr (inr (sym (ap (λ x. x.1) s))))
  settle_keys-Ends w ds (inr ss, w2) d s =
      let r = compare_keys cfg.sample_limit ss ds in
      let at_end : w2 ≡ (sys.read_source_keys (sys.distinct_keys w).1).1 = sym (ap (λ x. x.1) s) in
      let read : (sys.read_source_keys (sys.distinct_keys w).1).0 ≡ inr ss = ap (λ x. x.0) s in
      elim (Bool-cases (nothing_in_common r)) [
        | inl e ↦ rw e (inl (inr (inr at_end)))
        | inr e ↦ rw e (elim (repair-Ends r (lacking ss ds) w2) [
          | inl same ↦ inl (inr (inr (same ∙ at_end)))
          | inr (gone, on, fits) ↦ inr (record {
            orphans = lacking ss ds;
            dests = ds;
            sources = ss;
            dests_read = d;
            sources_read = read;
            deleted = gone ∙ ap (λ v. (sys.delete_keys (lacking ss ds) v).1) at_end;
            wanted = on;
            windowed = window on;
            are_orphans = among-lacking ss ds;
            within_ceiling = ceiling cfg.sample_limit ss ds fits;
            comparable =
                common_keys cfg.sample_limit ss ds (sys.source_distinct _ ss read)
                  (sys.dest_distinct w ds d) e;
          })
        ])
      ]

  read_both-Ends :
      (w : sys.World) (d : (EtlError ⊎ List Text) × sys.World)
      → sys.distinct_keys w ≡ d
      → Ends w (read_both sys cfg d).1
  read_both-Ends w (inl e, w1) d = inl (inr (inl (sym (ap (λ x. x.1) d))))
  read_both-Ends w (inr ds, w1) d =
      let moved : (sys.distinct_keys w).1 ≡ w1 = ap (λ x. x.1) d in
      settle_keys-Ends w ds (sys.read_source_keys w1) (ap (λ x. x.0) d)
        (ap sys.read_source_keys moved)

-- Whatever `reconcile_keys` returns, the world it leaves is that before it, or after the reads it
-- made, or after one deletion: of exactly the keys that the destination held when it was read and
-- the source no longer had when it was read after that; only where a delete was asked for, in a window, of no
-- more keys than `max_delete_keys` where it is set, and never where both sides have keys and none
-- in common.
pub reconcile_keys-Deletes :
    (sys : Systems) (cfg : ReconcileConfig) (w : sys.World)
    → let d = sys.distinct_keys w in
      let s = sys.read_source_keys d.1 in
      let w' = (reconcile_keys sys cfg w).1 in
      ((w' ≡ w) ⊎ ((w' ≡ d.1) ⊎ (w' ≡ s.1))) ⊎ Deleted sys cfg w w'
unfolding reconcile_keys
reconcile_keys-Deletes sys cfg w = from (ready sys cfg) refl
  where
    from :
        (c : EtlError ⊎ Unit {0})
        → ready sys cfg ≡ c
        → let d = sys.distinct_keys w in
          let s = sys.read_source_keys d.1 in
          let w' = (reconcile_keys sys cfg w).1 in
          ((w' ≡ w) ⊎ ((w' ≡ d.1) ⊎ (w' ≡ s.1))) ⊎ Deleted sys cfg w w'
    from (inl e) h = rw (reconcile_keys, h) (inl (inl refl))
    from (inr u) h =
        rw (reconcile_keys, h)
          (read_both-Ends sys cfg (ready_window sys cfg u h) w (sys.distinct_keys w) refl)

-- Where nothing is to be deleted and both sides could be read, `reconcile_keys` counts the keys of
-- each side and how many of them the other lacks, the rest of either being the keys in common, and
-- deletes no row. It refuses exactly if both sides have keys and none in common.
pub reconcile_keys-Measures :
    (sys : Systems) (cfg : ReconcileConfig) (w w1 w2 : sys.World) (ss ds : List Text)
    → ready sys cfg ≡ inr tt
    → cfg.delete ≡ false
    → sys.distinct_keys w ≡ (inr ds, w1)
    → sys.read_source_keys w1 ≡ (inr ss, w2)
    → Measured ss ds (reconcile_keys sys cfg w).0
unfolding reconcile_keys
reconcile_keys-Measures sys cfg w w1 w2 ss ds ok off d s =
    rw (reconcile_keys, ok, d, s)
      (settle_keys-Measured sys cfg ss ds w2 off (sys.source_distinct w1 ss (ap (λ x. x.0) s))
        (sys.dest_distinct w ds (ap (λ x. x.0) d)))
