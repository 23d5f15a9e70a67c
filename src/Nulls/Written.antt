-- ===== src/Nulls/Written.antt =====
-- What stands in a column once its NULLs have become a default.
use quickhouse.Prelude.{
  ℕ, zero, suc, ◌≡◌, refl, ap, sym, ◌∙◌, ◌⊎◌, inl, inr, Option, some, List, [], ◌∷◌, arith, length,
  get_elem?, map, Bool-cases, ◌==◌, ==→eq, if◌then◌else◌, unwrap_or, subst,
}
use mathlib.Core.Option.{some-injective}
use quickhouse.Nulls.{Value, Field, nulls, Fits, Arrays, Defaulted, zero_scalar, set}

pub get_elem?-set :
    {A : Type 0} (xs : List A) (i j : ℕ) (x a : A)
    → get_elem? xs i ≡ some x
    → get_elem? (set xs i a) j ≡ (if i == j then some a else get_elem? xs j)
get_elem?-set [] i j x a h = cc
get_elem?-set (y ∷ ys) zero zero x a h = refl
get_elem?-set (y ∷ ys) zero (suc j) x a h = ground arith
get_elem?-set (y ∷ ys) (suc i) zero x a h = ground arith
get_elem?-set (y ∷ ys) (suc i) (suc j) x a h = ground (arith, get_elem?-set ys i j x a)

pub nulls-filled :
    (v : Value) (os : List (Option Value)) → nulls (map (λ o. some (unwrap_or o v)) os) ≡ 0
nulls-filled v [] = refl
nulls-filled v (o ∷ os) = omega (arith, nulls-filled v os)

pub length-filled :
    (v : Value) (os : List (Option Value)) → length (map (λ o. some (unwrap_or o v)) os) ≡ length os
length-filled v [] = refl
length-filled v (o ∷ os) = ap suc (length-filled v os)

module _ (ar : Arrays) where
  open ar use {Array, data_type, cells}

  -- The column at `i` holds no NULL.
  abbrev pub NoNull : List Array → ℕ → Type 0
  NoNull xs i = (a : Array) × (get_elem? xs i ≡ some a) × (nulls (cells a) ≡ 0)

  abbrev pub Listed : List Defaulted → Defaulted → Type 0
  Listed ds d = (j : ℕ) × (get_elem? ds j ≡ some d)

  -- `y`, at `i`, is `x` with each NULL replaced by the default of one of the columns `ds`.
  abbrev pub FilledIn : List Defaulted → ℕ → Array → Array → Type 0
  FilledIn ds i x y =
      (d : Defaulted) × (v : Value) × (Listed ds d)
      × (d.idx ≡ i)
      × (zero_scalar (data_type x) d.text ≡ some v)
      × (cells y ≡ map (λ o. some (unwrap_or o v)) (cells x))

  abbrev pub Written : List Defaulted → ℕ → Array → Array → Type 0
  Written ds i x y = (data_type y ≡ data_type x) × ((cells y ≡ cells x) ⊎ FilledIn ds i x y)

  -- Every column of `ys` comes from the one of `xs` at its place.
  abbrev pub WrittenFrom : List Defaulted → List Array → List Array → Type 0
  WrittenFrom ds xs ys =
      (i : ℕ) (x : Array)
      → get_elem? xs i ≡ some x
      → (y : Array) × (get_elem? ys i ≡ some y) × Written ds i x y

  pub Fits-set :
      (n : ℕ) (fs : List Field) (xs : List Array) (i : ℕ) (x a : Array)
      → get_elem? xs i ≡ some x
      → data_type a ≡ data_type x
      → length (cells a) ≡ n
      → nulls (cells a) ≡ 0
      → Fits data_type cells n fs xs
      → Fits data_type cells n fs (set xs i a)
  Fits-set n [] [] i x a h ty len nn fits = tt
  Fits-set n [] (y ∷ ys) i x a h ty len nn fits = absurd fits
  Fits-set n (f ∷ fs) [] i x a h ty len nn fits = absurd fits
  Fits-set n (f ∷ fs) (y ∷ ys) zero x a h ty len nn (t, l, m, fits) =
      (t ∙ ap data_type (some-injective y x h) ∙ sym ty, len, λ _. nn, fits)
  Fits-set n (f ∷ fs) (y ∷ ys) (suc i) x a h ty len nn (t, l, m, fits) =
      (t, l, m, Fits-set n fs ys i x a h ty len nn fits)

  pub Fits-get :
      (n : ℕ) (fs : List Field) (xs : List Array) (i : ℕ) (x : Array)
      → get_elem? xs i ≡ some x
      → Fits data_type cells n fs xs
      → length (cells x) ≡ n
  Fits-get n [] [] i x h fits = cc
  Fits-get n [] (y ∷ ys) i x h fits = absurd fits
  Fits-get n (f ∷ fs) [] i x h fits = absurd fits
  Fits-get n (f ∷ fs) (y ∷ ys) zero x h (t, l, m, fits) =
      ap (λ a. length (cells a)) (sym (some-injective y x h)) ∙ l
  Fits-get n (f ∷ fs) (y ∷ ys) (suc i) x h (t, l, m, fits) = Fits-get n fs ys i x h fits

  pub NoNull-set :
      (xs : List Array) (i j : ℕ) (x a : Array)
      → get_elem? xs i ≡ some x
      → nulls (cells a) ≡ 0
      → NoNull xs j
      → NoNull (set xs i a) j
  NoNull-set xs i j x a h nn (c, hc, hn) = elim (Bool-cases (i == j)) [
    | inl e ↦ (a, get_elem?-set xs i j x a h ∙ rw e refl, nn)
    | inr e ↦ (c, get_elem?-set xs i j x a h ∙ rw e hc, hn)
  ]

  pub WrittenFrom-set :
      (ds : List Defaulted) (xs ys : List Array) (i : ℕ) (x y a : Array)
      → get_elem? xs i ≡ some x
      → get_elem? ys i ≡ some y
      → Written ds i x a
      → WrittenFrom ds xs ys
      → WrittenFrom ds xs (set ys i a)
  WrittenFrom-set ds xs ys i x y a hx hy w from j z hz = elim (Bool-cases (i == j)) [
    | inl e ↦
        let k : i ≡ j = ==→eq i j e in
        let x-z : x ≡ z = some-injective x z (sym hx ∙ ap (get_elem? xs) k ∙ hz) in
        (
          a,
          get_elem?-set ys i j y a hy ∙ rw e refl,
          subst (λ m. Written ds m z a) k (subst (λ c. Written ds i c a) x-z w),
        )
    | inr e ↦ let (c, hc, hw) = from j z hz in (c, get_elem?-set ys i j y a hy ∙ rw e hc, hw)
  ]
