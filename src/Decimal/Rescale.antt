-- ===== src/Decimal/Rescale.antt =====
-- Rescaling is exact when it widens, and rounds half away from zero when it narrows.
use quickhouse.Prelude.{
  ℕ, zero, suc, ◌+◌, ◌-◌, ◌*◌, ◌/◌, ◌%◌, ◌^◌, ◌≤◌, ◌<◌, ◌≡◌, refl, ap, sym, subst, ◌∙◌, Bool, true,
  false, Option, some, arith, ltb, leb, ◌==◌, if◌then◌else◌, Bool-cases, inl, inr, ℤ, pos, negsuc,
  ◌-ℤ◌, ◌≤ℤ◌, i128_max,
}
use native.Mathlib.Nat.{pow-le-pow_right, one-le-pow, mod-lt}
use native.Mathlib.Omega.{div_any}
use quickhouse.Decimal.{
  rescale_mantissa, checked_i32, checked_pow10, by_shift, times_factor, divided_by, at_most_i128,
}

-- `m / 10^p`, rounded to the nearest number, a half upwards.
abbrev pub rounded : ℕ → ℕ → ℕ
rounded m p = (2 * m + 10 ^ p) / (2 * 10 ^ p)

-- What a rescale by `diff` places means.
abbrev pub rescaled : ℕ → ℤ → Option ℕ
rescaled m (pos d) = at_most_i128 (m * 10 ^ d)
rescaled m (negsuc n) = some (rounded m (suc n))

pow_mono : (p q : ℕ) → p ≤ q → 10 ^ p ≤ 10 ^ q
pow_mono p q h = pow-le-pow_right (omega arith) h

-- A power of ten that is no i128 is more than twice one.
past_i128 : (p : ℕ) → leb (10 ^ p) i128_max ≡ false → 2 * i128_max < 10 ^ p
past_i128 p h = elim (Bool-cases (leb p 38)) [
  | inl e ↦ let small = pow_mono p 38 (ground arith) in ground arith
  | inr e ↦ let big = pow_mono 39 p (ground arith) in ground arith
]

too_wide : (m f : ℕ) → (m == 0) ≡ false → leb f i128_max ≡ false → leb (m * f) i128_max ≡ false
too_wide zero f h h' = absurd cc
too_wide (suc k) f h h' = grind arith

round_zero : (m f : ℕ) → m ≤ i128_max → 2 * i128_max < f → (2 * m + f) / (2 * f) ≡ 0
round_zero m f h h' = grind arith

half_up :
    (q r e : ℕ)
    → r < 2 * e
    → (2 * (2 * e * q + r) + 2 * e) / (2 * (2 * e)) ≡ (if leb e r then q + 1 else q)
half_up q r e h = grind arith

halves : (n : ℕ) → (e : ℕ) × (10 ^ suc n ≡ 2 * e)
halves n = (5 * 10 ^ n, grind arith)

if_some : (b : Bool) (x y : ℕ) → (if b then some x else some y) ≡ some (if b then x else y)
if_some true x y = refl
if_some false x y = refl

-- The division of the code rounds a half upwards.
divided_rounds :
    (m e : ℕ) → 0 < 2 * e → divided_by m (some (2 * e)) ≡ some ((2 * m + 2 * e) / (2 * (2 * e)))
divided_rounds m e h =
    let q = m / (2 * e) in
    let r = m % (2 * e) in
    let whole : 2 * e * q + r ≡ m = div_any m (2 * e) in
    let half : 2 * e / 2 ≡ e = omega arith in
    let up = half_up q r e (mod-lt m h) in
    rw half (
      if_some (leb e r) (q + 1) q
      ∙ ap some (sym up)
      ∙ ap (λ n. some ((2 * n + 2 * e) / (2 * (2 * e)))) whole)

divided_by_power : (m n : ℕ) → divided_by m (some (10 ^ suc n)) ≡ some (rounded m (suc n))
divided_by_power m n =
    let (e, half) = halves n in
    subst (λ d. divided_by m (some d) ≡ some ((2 * m + d) / (2 * d))) (sym half)
      (divided_rounds m e (subst (λ d. 0 < d) half (one-le-pow (suc n) 10 (omega arith))))

narrowed :
    (m n : ℕ) → m ≤ i128_max → divided_by m (checked_pow10 (suc n)) ≡ some (rounded m (suc n))
unfolding checked_pow10
narrowed m n h = elim (Bool-cases (leb (10 ^ suc n) i128_max)) [
  | inl e ↦ rw e (divided_by_power m n)
  | inr e ↦ rw e (ap some (sym (round_zero m (10 ^ suc n) h (past_i128 (suc n) e))))
]

widened :
    (m d : ℕ) → (m == 0) ≡ false → times_factor m (checked_pow10 d) ≡ at_most_i128 (m * 10 ^ d)
unfolding checked_pow10
widened m d h = elim (Bool-cases (leb (10 ^ d) i128_max)) [
  | inl e ↦ rw e refl
  | inr e ↦ rw (e, too_wide m (10 ^ d) h e) refl
]

in_i32 : (z : ℤ) → negsuc (2 ^ 31 - 1) ≤ℤ z → z ≤ℤ pos (2 ^ 31 - 1) → checked_i32 z ≡ some z
unfolding checked_i32
in_i32 z h h' = ground arith

zero_times : (f : ℕ) → 0 * f ≡ 0
zero_times f = omega arith

half_of_one : (f : ℕ) → 0 < f → (2 * 0 + f) / (2 * f) ≡ 0
half_of_one f h = grind arith

zero_rescaled : (diff : ℤ) → rescaled 0 diff ≡ some 0
zero_rescaled (pos d) = let z = zero_times (10 ^ d) in rw z refl
zero_rescaled (negsuc n) = ap some (half_of_one (10 ^ suc n) (one-le-pow (suc n) 10 (omega arith)))

shifted :
    (m : ℕ) (diff : ℤ)
    → (m == 0) ≡ false
    → m ≤ i128_max
    → negsuc (2 ^ 31 - 2) ≤ℤ diff
    → by_shift m (some diff) ≡ rescaled m diff
shifted m (pos d) h fits low = widened m d h
shifted m (negsuc n) h fits low =
    let small : ltb (suc n) (2 ^ 31) ≡ true = ground arith in rw small (narrowed m n fits)

-- From scales that are at most 2^31 - 1 apart, a magnitude that fits an i128 is rescaled to the exact
-- product with the power of ten when the scale grows, or to nothing if that is no i128, and to the
-- nearest quotient, a half away from zero, when it falls.
pub rescale_mantissa_exact :
    (m : ℕ) (from to : ℤ)
    → m ≤ i128_max
    → negsuc (2 ^ 31 - 2) ≤ℤ to -ℤ from
    → to -ℤ from ≤ℤ pos (2 ^ 31 - 1)
    → rescale_mantissa m from to ≡ rescaled m (to -ℤ from)
unfolding rescale_mantissa
rescale_mantissa_exact m from to fits low high = elim (Bool-cases (m == 0)) [
  | inl e ↦ let z : m ≡ 0 = ground arith in rw z (sym (zero_rescaled (to -ℤ from)))
  | inr e ↦ rw (e, in_i32 (to -ℤ from) (omega arith) high) (shifted m (to -ℤ from) e fits low)
]
