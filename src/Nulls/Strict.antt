-- ===== src/Nulls/Strict.antt =====
-- The schema of what is kept: the checked columns hold no NULL, and it says so.
use quickhouse.Prelude.{
  ℕ, suc, ◌+◌, ◌<◌, ◌≡◌, refl, ap, sym, ◌∙◌, inl, inr, true, some, List, [], ◌∷◌, arith, length,
  get_elem?, All, any, all, Bool-cases, ◌==◌, ==→eq,
}
use mathlib.Core.Option.{some-injective}
use quickhouse.Nulls.{
  Field, nulls, Fits, Arrays, NullGuard, checked, strict_from, strict_at, strict_schema,
}
use quickhouse.Nulls.Written.{NoNull}

length-strict_from :
    (positions : List ℕ) (i : ℕ) (fs : List Field) → length (strict_from positions i fs) ≡ length fs
length-strict_from positions i [] = refl
length-strict_from positions i (f ∷ fs) = ap suc (length-strict_from positions (i + 1) fs)

pub length-strict_schema :
    (g : NullGuard) (fs : List Field) → length (strict_schema g fs) ≡ length fs
unfolding strict_schema
length-strict_schema g fs = elim (Bool-cases (all (strict_at fs) (checked g))) [
  | inl e ↦ rw e refl
  | inr e ↦ rw e (length-strict_from (checked g) 0 fs)
]

module _ (ar : Arrays) where
  open ar use {Array, data_type, cells}

  Fits-strict_from :
      (positions : List ℕ) (n i : ℕ) (fs : List Field) (xs : List Array)
      → Fits data_type cells n fs xs
      → ((k : ℕ) (x : Array)
          → get_elem? xs k ≡ some x
          → any (λ c. c == i + k) positions ≡ true
          → nulls (cells x) ≡ 0)
      → Fits data_type cells n (strict_from positions i fs) xs
  Fits-strict_from positions n i [] [] fits h = tt
  Fits-strict_from positions n i [] (x ∷ xs) fits h = absurd fits
  Fits-strict_from positions n i (f ∷ fs) [] fits h = absurd fits
  Fits-strict_from positions n i (f ∷ fs) (x ∷ xs) (ty, len, nn, fits) h = (
    ty,
    len,
    λ strict. elim (Bool-cases (any (λ c. c == i) positions)) [
      | inl e ↦ h 0 x refl (ap (λ m. any (λ c. c == m) positions) (omega arith) ∙ e)
      | inr e ↦ nn (ground arith)
    ],
    Fits-strict_from positions n (i + 1) fs xs fits
        (λ k y hy e. h (suc k) y hy (ap (λ m. any (λ c. c == m) positions) (omega arith) ∙ e)),
  )

  any-NoNull :
      (xs : List Array) (positions : List ℕ) (k : ℕ) (x : Array)
      → All (NoNull ar xs) positions
      → get_elem? xs k ≡ some x
      → any (λ c. c == k) positions ≡ true
      → nulls (cells x) ≡ 0
  any-NoNull xs [] k x a h e = cc
  any-NoNull xs (c ∷ positions) k x (p, a) h e = elim (Bool-cases (c == k)) [
    | inl s ↦
        let (y, hy, ny) = p in
        let y-x : y ≡ x = some-injective y x (sym hy ∙ ap (get_elem? xs) (==→eq c k s) ∙ h) in
        ap (λ z. nulls (cells z)) (sym y-x) ∙ ny
    | inr s ↦ any-NoNull xs positions k x a h (rw s at e)
  ]

  pub Fits-strict_schema :
      (g : NullGuard) (n : ℕ) (fs : List Field) (xs : List Array)
      → Fits data_type cells n fs xs
      → All (NoNull ar xs) (checked g)
      → Fits data_type cells n (strict_schema g fs) xs
  unfolding strict_schema
  Fits-strict_schema g n fs xs fits a = elim (Bool-cases (all (strict_at fs) (checked g))) [
    | inl e ↦ rw e fits
    | inr e ↦ rw e (
        Fits-strict_from (checked g) n 0 fs xs fits (λ k x h m.
          any-NoNull xs (checked g) k x a h
            (ap (λ j. any (λ c. c == j) (checked g)) (omega arith) ∙ m)))
  ]

  pub try_new-Fits :
      (n : ℕ) (fs : List Field) (xs : List Array)
      → 0 < length fs
      → Fits data_type cells n fs xs
      → ar.try_new fs xs ≡ inr (record { fields = fs; columns = xs; num_rows = n })
  try_new-Fits n [] xs h fits = absurd (omega arith)
  try_new-Fits n (f ∷ fs) [] h fits = absurd fits
  try_new-Fits n (f ∷ fs) (x ∷ xs) h fits = ar.try_new_fits n f fs x xs fits
