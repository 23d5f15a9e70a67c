-- ===== src/Tracker/Fold.antt =====
-- The maximum over all the batches that a tracker has observed.
use quickhouse.Prelude.{
  ◌≡◌, refl, ◌⊎◌, inl, inr, ap, sym, subst, ◌∙◌, Option, none, some, List, [], ◌∷◌, ◌++◌, arith,
  All, All-append, ℤ, ◌≤ℤ◌, ◌<ℤ◌, max_ℤ, max_ℤ_bounds, max_ℤ_cases, ltb_ℤ-cases, i64_min, pos_part,
  neg_part,
}
use mathlib.Core.List.{Memᴰ}
use quickhouse.Tracker.{WatermarkTracker, Values, fold_max, observe}

-- The non-NULL values of a column, and of all columns observed.
abbrev pub present : List (Option ℤ) → List ℤ
present [] = []
present (none ∷ vs) = present vs
present (some v ∷ vs) = v ∷ present vs

abbrev pub values : List Values → List ℤ
values [] = []
values (none ∷ bs) = values bs
values (some vs ∷ bs) = present vs ++ values bs

unfoldable pub observe_all : WatermarkTracker → List Values → WatermarkTracker
observe_all t [] = t
observe_all t (b ∷ bs) = observe_all (observe t b) bs

-- `m` is the largest of `start` and `vs`.
pub record IsMax (start : ℤ) (vs : List ℤ) (m : ℤ) : Type 0 where
  pub from_start : start ≤ℤ m
  pub bounds : All (λ v. v ≤ℤ m) vs
  pub attained : (m ≡ start) ⊎ Memᴰ m vs

pub le_trans_ℤ : (a b c : ℤ) → a ≤ℤ b → b ≤ℤ c → a ≤ℤ c
le_trans_ℤ a b c h k = omega arith

All-le : (vs : List ℤ) (m m' : ℤ) → m ≤ℤ m' → All (λ v. v ≤ℤ m) vs → All (λ v. v ≤ℤ m') vs
All-le [] m m' h _ = tt
All-le (v ∷ vs) m m' h (hv, hvs) = (le_trans_ℤ v m m' hv h, All-le vs m m' h hvs)

attained_cons :
    (local v m : ℤ) (vs : List ℤ) → (m ≡ max_ℤ local v) ⊎ Memᴰ m vs → (m ≡ local) ⊎ Memᴰ m (v ∷ vs)
attained_cons local v m vs (inr mem) = inr (Memᴰ.tail mem)
attained_cons local v m vs (inl e) = elim (max_ℤ_cases local v) [
  | inl (p, _) ↦ inr (Memᴰ.head (e ∙ p))
  | inr (p, _) ↦ inl (e ∙ p)
]

pub IsMax-cons : (local v m : ℤ) (vs : List ℤ) → IsMax (max_ℤ local v) vs m → IsMax local (v ∷ vs) m
IsMax-cons local v m vs h =
    let b = max_ℤ_bounds local v in
    record {
      from_start = le_trans_ℤ local _ m b.0 h.from_start;
      bounds = (le_trans_ℤ v _ m b.1 h.from_start, h.bounds);
      attained = attained_cons local v m vs h.attained;
    }

fold_max-IsMax : (local : ℤ) (vs : List (Option ℤ)) → IsMax local (present vs) (fold_max local vs)
unfolding fold_max
fold_max-IsMax local [] = record { from_start = omega arith; bounds = tt; attained = inl refl }
fold_max-IsMax local (none ∷ vs) = fold_max-IsMax local vs
fold_max-IsMax local (some v ∷ vs) =
    IsMax-cons local v (fold_max (max_ℤ local v) vs) (present vs)
      (fold_max-IsMax (max_ℤ local v) vs)

Memᴰ-left {ℓ} : {A : Type ℓ} {a : A} (xs ys : List A) → Memᴰ a xs → Memᴰ a (xs ++ ys)
Memᴰ-left _ ys (Memᴰ.head e) = Memᴰ.head e
Memᴰ-left _ ys (Memᴰ.tail {xs = xs} m) = Memᴰ.tail (Memᴰ-left xs ys m)

Memᴰ-right {ℓ} : {A : Type ℓ} {a : A} (xs ys : List A) → Memᴰ a ys → Memᴰ a (xs ++ ys)
Memᴰ-right [] ys m = m
Memᴰ-right (x ∷ xs) ys m = Memᴰ.tail (Memᴰ-right xs ys m)

attained_append :
    (a m m' : ℤ) (vs ws : List ℤ)
    → (m ≡ a) ⊎ Memᴰ m vs
    → (m' ≡ m) ⊎ Memᴰ m' ws
    → (m' ≡ a) ⊎ Memᴰ m' (vs ++ ws)
attained_append a m m' vs ws h (inr mem) = inr (Memᴰ-right vs ws mem)
attained_append a m m' vs ws (inl p) (inl q) = inl (q ∙ p)
attained_append a m m' vs ws (inr mem) (inl q) =
    inr (subst (λ x. Memᴰ x (vs ++ ws)) (sym q) (Memᴰ-left vs ws mem))

IsMax-append : (a m m' : ℤ) (vs ws : List ℤ) → IsMax a vs m → IsMax m ws m' → IsMax a (vs ++ ws) m'
IsMax-append a m m' vs ws h k = record {
  from_start = le_trans_ℤ a m m' h.from_start k.from_start;
  bounds = All-append _ vs ws (All-le vs m m' k.from_start h.bounds) k.bounds;
  attained = attained_append a m m' vs ws h.attained k.attained;
}

-- The maximum of a batch, taken into the tracker.
IsMax-join :
    (a local : ℤ) (vs : List ℤ)
    → i64_min ≤ℤ a
    → IsMax i64_min vs local
    → i64_min <ℤ local
    → IsMax a vs (max_ℤ a local)
IsMax-join a local vs low h above = record {
  from_start = (max_ℤ_bounds a local).0;
  bounds = All-le vs local (max_ℤ a local) (max_ℤ_bounds a local).1 h.bounds;
  attained = joined h.attained (max_ℤ_cases a local);
}
  where
    found : (local ≡ i64_min) ⊎ Memᴰ local vs → Memᴰ local vs
    found (inl e) = absurd (omega (arith, ap pos_part e, ap neg_part e))
    found (inr mem) = mem

    joined :
        (local ≡ i64_min) ⊎ Memᴰ local vs
        → ((max_ℤ a local ≡ local) × (a ≤ℤ local)) ⊎ ((max_ℤ a local ≡ a) × (local ≤ℤ a))
        → (max_ℤ a local ≡ a) ⊎ Memᴰ (max_ℤ a local) vs
    joined at (inl (e, _)) = inr (subst (λ x. Memᴰ x vs) (sym e) (found at))
    joined at (inr (e, _)) = inl e

observe-IsMax :
    (t : WatermarkTracker) (vs : List (Option ℤ))
    → i64_min ≤ℤ t.max
    → IsMax t.max (present vs) (observe t (some vs)).max
unfolding observe
observe-IsMax t vs low =
    let local = fold_max i64_min vs in
    let h = fold_max-IsMax i64_min vs in
    elim (ltb_ℤ-cases i64_min local) [
      | inl (e, above) ↦ rw e (IsMax-join t.max local (present vs) low h above)
      | inr (e, none_seen) ↦ rw e (record {
        from_start = omega arith;
        bounds =
            All-le (present vs) local t.max (le_trans_ℤ local i64_min t.max none_seen low) h.bounds;
        attained = inl refl;
      })
    ]

-- After any batches, in any order, the tracker holds the largest of the value that it started with
-- and of the non-NULL values in the batches, if it started at or above the sentinel `i64::MIN`.
pub observe_all-IsMax :
    (t : WatermarkTracker) (bs : List Values)
    → i64_min ≤ℤ t.max
    → IsMax t.max (values bs) (observe_all t bs).max
unfolding observe_all observe
observe_all-IsMax t [] low = record { from_start = omega arith; bounds = tt; attained = inl refl }
observe_all-IsMax t (none ∷ bs) low = observe_all-IsMax t bs low
observe_all-IsMax t (some vs ∷ bs) low =
    let h = observe-IsMax t vs low in
    IsMax-append t.max (observe t (some vs)).max _ (present vs) (values bs) h
      (observe_all-IsMax (observe t (some vs)) bs (le_trans_ℤ i64_min t.max _ low h.from_start))
