-- ===== src/Decimal/RoundTrip.antt =====
-- A decimal that is printed with fractional digits parses back to what it was.
use quickhouse.Prelude.{
  ℕ, zero, suc, ◌+◌, ◌-◌, ◌*◌, ◌≤◌, ◌<◌, ◌≡◌, ◌≢◌, refl, ap, sym, subst, ◌∙◌, inl, inr, Bool, true,
  false, Option, some, [], ◌∷◌, ◌++◌, arith, all, All, All-append, length, length-append,
  length-replicate, take, drop, replicate, ltb, leb, ◌==◌, if◌then◌else◌, Bool-cases, ℤ, pos,
  negsuc, pos_part, neg_part, i128_max,
}
use quickhouse.Prelude.Text.{
  Text, is_digit, IsDigit, is_space, trim, trim_start, trim_end, keep_char, split_once, value,
  show_ℕ, value-show_ℕ, show_ℕ-IsDigit, show_ℕ-ne-nil,
}
use quickhouse.Decimal.{
  DecimalText, ok, push_digit, push_int_digits, push_frac_digits, parse_decimal_text,
  decimal128_to_string, signed, pointed,
}

abbrev NotSpace : ℕ → Type 0
NotSpace c = is_space c ≡ false

keep-NotSpace : (c : ℕ) (s : Text) → NotSpace c → keep_char c s ≡ c ∷ s
keep-NotSpace c [] h = rw h refl
keep-NotSpace c (d ∷ s) h = refl

trim_end_id : (s : Text) → All NotSpace s → trim_end s ≡ s
unfolding trim_end
trim_end_id [] h = refl
trim_end_id (c ∷ s) (h, hs) = rw (trim_end_id s hs) (keep-NotSpace c s h)

trim_id : (s : Text) → All NotSpace s → trim s ≡ s
unfolding trim trim_start
trim_id [] h = trim_end_id [] tt
trim_id (c ∷ s) (h, hs) = rw h (trim_end_id (c ∷ s) (h, hs))

digits-NotSpace : (s : Text) → All IsDigit s → All NotSpace s
digits-NotSpace [] h = tt
digits-NotSpace (c ∷ s) (h, hs) = (ground arith, digits-NotSpace s hs)

digits_all : (s : Text) → All IsDigit s → all is_digit s ≡ true
digits_all [] h = refl
digits_all (c ∷ s) (h, hs) = ground (arith, digits_all s hs)

split_at_point : (ip fp : Text) → All IsDigit ip → split_once b'.' (ip ++ b'.' ∷ fp) ≡ some (ip, fp)
unfolding split_once
split_at_point [] fp h = refl
split_at_point (c ∷ ip) fp (h, hs) =
    let e : (c == b'.') ≡ false = ground arith in rw (e, split_at_point ip fp hs) refl

value_grows : (s : Text) (m : ℕ) → m ≤ value m s
value_grows [] m = omega arith
value_grows (c ∷ s) m = omega (arith, value_grows s (m * 10 + (c - b'0')))

value-append : (xs ys : Text) (m : ℕ) → value m (xs ++ ys) ≡ value (value m xs) ys
value-append [] ys m = refl
value-append (c ∷ xs) ys m = value-append xs ys (m * 10 + (c - b'0'))

value-zeros : (k : ℕ) → value 0 (replicate k b'0') ≡ 0
value-zeros zero = refl
value-zeros (suc k) = value-zeros k

push_digit_fits :
    (m c : ℕ) → m * 10 + (c - b'0') ≤ i128_max → push_digit m c ≡ some (m * 10 + (c - b'0'))
unfolding push_digit
push_digit_fits m c h =
    let e : leb (m * 10) i128_max ≡ true = ground arith in
    let e' : leb (m * 10 + (c - b'0')) i128_max ≡ true = ground arith in rw (e, e') refl

push_int_digits_fit :
    (s : Text) (m : ℕ) → value m s ≤ i128_max → push_int_digits s m ≡ some (value m s)
unfolding push_int_digits
push_int_digits_fit [] m h = refl
push_int_digits_fit (c ∷ s) m h =
    rw (push_digit_fits m c (omega (arith, value_grows s (m * 10 + (c - b'0')))))
      (push_int_digits_fit s (m * 10 + (c - b'0')) h)

moved : (m k k' : ℕ) → k ≡ k' → ◌≡◌ {A = ℕ × ℕ} (m, k) (m, k')
moved m k k' e = rw e refl

push_frac_digits_fit :
    (s : Text) (m k : ℕ) → value m s ≤ i128_max → push_frac_digits s m k ≡ (value m s, k + length s)
unfolding push_frac_digits
push_frac_digits_fit [] m k h = moved m k (k + 0) (omega arith)
push_frac_digits_fit (c ∷ s) m k h =
    rw (push_digit_fits m c (omega (arith, value_grows s (m * 10 + (c - b'0'))))) (
      push_frac_digits_fit s (m * 10 + (c - b'0')) (k + 1) h
      ∙ moved (value (m * 10 + (c - b'0')) s) (k + 1 + length s) (k + suc (length s)) (omega arith))

-- The sign that is printed.
abbrev minus_if : Bool → Text → Text
minus_if negative s = if negative then b'-' ∷ s else s

signed-minus_if :
    (negative : Bool) (c : ℕ) (s : Text)
    → IsDigit c
    → signed (minus_if negative (c ∷ s)) ≡ (negative, c ∷ s)
signed-minus_if true c s h = refl
signed-minus_if false c s h =
    let e : (c == b'-') ≡ false = ground arith in
    let e' : (c == b'+') ≡ false = ground arith in rw (e, signed, e', signed) refl

minus-NotSpace : (negative : Bool) (s : Text) → All NotSpace s → All NotSpace (minus_if negative s)
minus-NotSpace true s h = (refl, h)
minus-NotSpace false s h = h

ok_moved :
    (negative : Bool) (m m' k k' : ℕ)
    → m ≡ m'
    → k ≡ k'
    → ◌≡◌ {A = Option DecimalText} (some (ok negative m k)) (some (ok negative m' k'))
ok_moved negative m m' k k' e e' = rw (e, e') refl

-- Digits, a point and digits, with a sign or without.
parse_parts :
    (negative : Bool) (ip fp : Text)
    → All IsDigit ip
    → All IsDigit fp
    → ip ≢ []
    → fp ≢ []
    → value 0 (ip ++ fp) ≤ i128_max
    → parse_decimal_text (minus_if negative (ip ++ b'.' ∷ fp))
      ≡ some (ok negative (value 0 (ip ++ fp)) (length fp))
unfolding parse_decimal_text
parse_parts negative [] fp hi hf ne ne' fits = absurd (ne refl)
parse_parts negative (c ∷ ip) [] hi hf ne ne' fits = absurd (ne' refl)
parse_parts negative (c ∷ ip) (d ∷ fp) hi hf ne ne' fits =
    let int_part : Text = c ∷ ip in
    let frac_part : Text = d ∷ fp in
    let body : Text = int_part ++ b'.' ∷ frac_part in
    let spaceless : All NotSpace body =
      All-append NotSpace int_part (b'.' ∷ frac_part) (digits-NotSpace int_part hi)
        (refl, digits-NotSpace frac_part hf) in
    let joined = value-append int_part frac_part 0 in
    let small : value 0 int_part ≤ i128_max =
      omega (arith, joined, value_grows frac_part (value 0 int_part)) in
    let trimmed = trim_id (minus_if negative body) (minus-NotSpace negative body spaceless) in
    let unsigned = signed-minus_if negative c (ip ++ b'.' ∷ frac_part) hi.0 in
    let split = split_at_point int_part frac_part hi in
    let ints = push_int_digits_fit int_part 0 small in
    let fracs =
      push_frac_digits_fit frac_part (value 0 int_part) 0 (subst (λ n. n ≤ i128_max) joined fits) in
    rw (trimmed, unsigned, split, digits_all int_part hi, digits_all frac_part hf, ints, fracs)
      (ok_moved negative _ _ _ _ (sym joined) (omega arith))

zeros_are_digits : (k : ℕ) → All IsDigit (replicate k b'0')
zeros_are_digits zero = tt
zeros_are_digits (suc k) = ((omega arith, omega arith), zeros_are_digits k)

take_digits : (k : ℕ) (s : Text) → All IsDigit s → All IsDigit (take k s)
take_digits zero s h = tt
take_digits (suc k) [] h = tt
take_digits (suc k) (c ∷ s) (h, hs) = (h, take_digits k s hs)

drop_digits : (k : ℕ) (s : Text) → All IsDigit s → All IsDigit (drop k s)
drop_digits zero s h = h
drop_digits (suc k) [] h = tt
drop_digits (suc k) (c ∷ s) (h, hs) = drop_digits k s hs

take-drop : (k : ℕ) (s : Text) → take k s ++ drop k s ≡ s
take-drop zero s = refl
take-drop (suc k) [] = refl
take-drop (suc k) (c ∷ s) = ap (◌∷◌ c) (take-drop k s)

length-drop : (k : ℕ) (s : Text) → length (drop k s) ≡ length s - k
length-drop zero s = omega arith
length-drop (suc k) [] = omega arith
length-drop (suc k) (c ∷ s) = omega (arith, length-drop k s)

nonempty_drop : (k : ℕ) (s : Text) → k < length s → drop k s ≢ []
nonempty_drop k s h e = absurd (omega (arith, length-drop k s, ap length e))

nonempty_take : (k : ℕ) (s : Text) → 0 < k → k < length s → take k s ≢ []
nonempty_take zero s h h' e = absurd (omega arith)
nonempty_take (suc k) [] h h' e = absurd (omega arith)
nonempty_take (suc k) (c ∷ s) h h' e = cc

after_zeros : (k : ℕ) (s : Text) → s ≢ [] → replicate k b'0' ++ s ≢ []
after_zeros zero s h e = h e
after_zeros (suc k) s h e = cc

-- The digits of a number with the point `k + 1` places from the end.
parse-pointed :
    (negative : Bool) (ds : Text) (k : ℕ)
    → All IsDigit ds
    → ds ≢ []
    → value 0 ds ≤ i128_max
    → parse_decimal_text (minus_if negative (pointed ds (suc k)))
      ≡ some (ok negative (value 0 ds) (suc k))
parse-pointed negative ds k h ne fits = elim (Bool-cases (ltb (suc k) (length ds))) [
  | inl e ↦
      let longer : suc k < length ds = ground arith in
      let point = length ds - suc k in
      let whole = ap (value 0) (take-drop point ds) in
      rw e (
        parse_parts negative (take point ds) (drop point ds) (take_digits point ds h)
          (drop_digits point ds h) (nonempty_take point ds (omega arith) (omega arith))
          (nonempty_drop point ds (omega arith)) (subst (λ n. n ≤ i128_max) (sym whole) fits)
        ∙ ok_moved negative _ _ _ _ whole (omega (arith, length-drop point ds)))
  | inr e ↦
      let shorter : length ds ≤ suc k = ground arith in
      let pad = suc k - length ds in
      let zeros : Text = replicate pad b'0' in
      let same : value 0 (zeros ++ ds) ≡ value 0 ds =
        value-append zeros ds 0 ∙ ap (λ m. value m ds) (value-zeros pad) in
      rw e (
        parse_parts negative (b'0' ∷ []) (zeros ++ ds) ((omega arith, omega arith), tt)
          (All-append IsDigit zeros ds (zeros_are_digits pad) h) (λ q. cc) (after_zeros pad ds ne)
          (subst (λ n. n ≤ i128_max) (sym same) fits)
        ∙ ok_moved negative _ _ _ _ same
            (omega (arith, length-append zeros ds, length-replicate {A = ℕ} pad b'0')))
]

parse-shown :
    (negative : Bool) (n k : ℕ)
    → n ≤ i128_max
    → parse_decimal_text (minus_if negative (pointed (show_ℕ n) (suc k)))
      ≡ some (ok negative n (suc k))
parse-shown negative n k fits =
    let same = value-show_ℕ n in
    parse-pointed negative (show_ℕ n) k (show_ℕ-IsDigit n) (show_ℕ-ne-nil n)
      (subst (λ m. m ≤ i128_max) (sym same) fits)
    ∙ ok_moved negative _ _ _ _ same refl

abbrev pub is_negative : ℤ → Bool
is_negative (pos n) = false
is_negative (negsuc n) = true

-- A value whose magnitude fits an i128, printed with one fractional digit or more, parses back to
-- its sign, its magnitude and its scale.
pub parse-decimal128_to_string :
    (v : ℤ) (k : ℕ)
    → pos_part v + neg_part v ≤ i128_max
    → parse_decimal_text (decimal128_to_string v (pos (suc k)))
      ≡ some (ok (is_negative v) (pos_part v + neg_part v) (suc k))
unfolding decimal128_to_string
parse-decimal128_to_string (pos n) k fits = parse-shown false (n + 0) k fits
parse-decimal128_to_string (negsuc n) k fits = parse-shown true (0 + suc n) k fits
