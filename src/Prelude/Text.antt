-- ===== src/Prelude/Text.antt =====
-- Text as the list of its bytes, and the decimal print of a number (`to_string`).
use Prim.Native.Nat.{ℕ, zero, suc, ◌+◌, ◌-◌, ◌*◌, ◌/◌, ◌%◌, ◌≤◌, ◌<◌}
use Prim.Native.Char.{code}
use Prim.Native.String.{String}
use mathlib.Core.Path.{◌≡◌, refl}
use mathlib.Core.Logic.{◌≢◌}
use mathlib.Core.Option.{Option, none, some}
use mathlib.Core.Bool.{◌||◌, Bool, true, false, ◌&&◌}
use mathlib.Core.List.{List, [], ◌∷◌, ◌++◌}
use native.Mathlib.Omega.{arith}
use quickhouse.Prelude.Tests.{ltb, leb, if◌then◌else◌, ◌==◌}
use quickhouse.Prelude.Lists.{All, all}
use quickhouse.Prelude.Int.{ℤ, pos, negsuc, checked_i64}

abbrev pub Text : Type 0
Text = List ℕ

-- The code points of a literal; these are its bytes where the text is ASCII.
abbrev pub codes : String → Text
codes String.[] = []
codes (String.◌∷◌ c s) = code c ∷ codes s

-- Equality of two texts.
abbrev pub text_eq : Text → Text → Bool
text_eq [] [] = true
text_eq [] (y ∷ ys) = false
text_eq (x ∷ xs) [] = false
text_eq (x ∷ xs) (y ∷ ys) = x == y && text_eq xs ys

pub text_eq→eq : (xs ys : Text) → text_eq xs ys ≡ true → xs ≡ ys
text_eq→eq [] [] h = refl
text_eq→eq [] (y ∷ ys) h = cc
text_eq→eq (x ∷ xs) [] h = cc
text_eq→eq (x ∷ xs) (y ∷ ys) h = ground (arith, text_eq→eq xs ys)

pub text_eq_refl : (xs : Text) → text_eq xs xs ≡ true
text_eq_refl [] = refl
text_eq_refl (x ∷ xs) = ground (arith, text_eq_refl xs)

abbrev pub is_digit : ℕ → Bool
is_digit c = leb b'0' c && leb c b'9'

abbrev pub IsDigit : ℕ → Type 0
IsDigit c = (b'0' ≤ c) × (c ≤ b'9')

-- `loop { out.push_front(n % 10); n /= 10 }` until nothing is left.
emit : ℕ → ℕ → Text → Text
emit zero n out = out
emit (suc f) n out =
    let rest = emit f (n / 10) ((b'0' + n % 10) ∷ out) in
    if ltb n 10 then (b'0' + n) ∷ out else rest

unfoldable pub show_ℕ : ℕ → Text
unfolding emit
show_ℕ n = emit (suc n) n []

unfoldable pub show_ℤ : ℤ → Text
unfolding show_ℕ
show_ℤ (pos n) = show_ℕ n
show_ℤ (negsuc n) = b'-' ∷ show_ℕ (suc n)

-- The number that digits spell behind `acc`.
abbrev pub value : ℕ → Text → ℕ
value acc [] = acc
value acc (c ∷ s) = value (acc * 10 + (c - b'0')) s

value-emit : (f n : ℕ) (out : Text) → n < f → value 0 (emit f n out) ≡ value n out
unfolding emit
value-emit zero n out h = absurd (omega arith)
value-emit (suc f) n out h = ground (arith, value-emit f (n / 10) ((b'0' + n % 10) ∷ out))

emit_digits : (f n : ℕ) (out : Text) → All IsDigit out → All IsDigit (emit f n out)
unfolding emit
emit_digits zero n out h = h
emit_digits (suc f) n out h = ground (arith, emit_digits f (n / 10) ((b'0' + n % 10) ∷ out))

emit-ne-nil : (f n : ℕ) (out : Text) → n < f → emit f n out ≢ []
unfolding emit
emit-ne-nil zero n out h = absurd (omega arith)
emit-ne-nil (suc f) n out h = ground (arith, emit-ne-nil f (n / 10) ((b'0' + n % 10) ∷ out))

-- The digits of a number spell it.
pub value-show_ℕ : (n : ℕ) → value 0 (show_ℕ n) ≡ n
unfolding show_ℕ
value-show_ℕ n = value-emit (suc n) n [] (omega arith)

pub show_ℕ-IsDigit : (n : ℕ) → All IsDigit (show_ℕ n)
unfolding show_ℕ
show_ℕ-IsDigit n = emit_digits (suc n) n [] tt

pub show_ℕ-ne-nil : (n : ℕ) → show_ℕ n ≢ []
unfolding show_ℕ
show_ℕ-ne-nil n = emit-ne-nil (suc n) n [] (omega arith)

-- ASCII whitespace: the characters of that property that the texts here can hold.
abbrev pub is_space : ℕ → Bool
is_space c = (leb 9 c && leb c 13) || c == 32

unfoldable pub trim_start : Text → Text
trim_start [] = []
trim_start (c ∷ s) = if is_space c then trim_start s else c ∷ s

abbrev pub keep_char : ℕ → Text → Text
keep_char c [] = if is_space c then [] else c ∷ []
keep_char c (d ∷ s) = c ∷ d ∷ s

unfoldable pub trim_end : Text → Text
trim_end [] = []
trim_end (c ∷ s) = keep_char c (trim_end s)

unfoldable pub trim : Text → Text
unfolding trim_start trim_end
trim s = trim_end (trim_start s)

-- `strip_prefix` of one character, and `split_once`.
abbrev pub strip_char : ℕ → Text → Option Text
strip_char b [] = none
strip_char b (c ∷ s) = if c == b then some s else none

abbrev pub join : Text → List Text → Text
join sep [] = []
join sep (a ∷ []) = a
join sep (a ∷ b ∷ rest) = a ++ sep ++ join sep (b ∷ rest)

abbrev pub before : ℕ → Option (Text × Text) → Option (Text × Text)
before c none = none
before c (some (a, b)) = some (c ∷ a, b)

unfoldable pub split_once : ℕ → Text → Option (Text × Text)
split_once b [] = none
split_once b (c ∷ s) = let rest = split_once b s in if c == b then some ([], s) else before c rest

-- `str::parse` into an integer, before its range is checked: a sign or none, and digits.
abbrev digits_value : Text → Option ℕ
digits_value [] = none
digits_value (c ∷ s) = if all is_digit (c ∷ s) then some (value 0 (c ∷ s)) else none

abbrev negated : Option ℕ → Option ℤ
negated none = none
negated (some zero) = some (pos 0)
negated (some (suc n)) = some (negsuc n)

abbrev as_pos : Option ℕ → Option ℤ
as_pos none = none
as_pos (some n) = some (pos n)

unfoldable pub parse_ℤ : Text → Option ℤ
parse_ℤ [] = none
parse_ℤ (c ∷ s) =
    if c == b'-'
    then negated (digits_value s)
    else if c == b'+'
    then as_pos (digits_value s)
    else as_pos (digits_value (c ∷ s))

unfoldable pub parse_i64 : Text → Option ℤ
unfolding parse_ℤ checked_i64
parse_i64 s = elim (parse_ℤ s) [ none ↦ none | some z ↦ checked_i64 z ]

show_example : show_ℤ (negsuc 1233) ≡ codes "-1234"
unfolding show_ℤ
show_example = refl

parse_example :
    (parse_i64 (codes "-42") ≡ some (negsuc 41)) × (parse_i64 (codes "9223372036854775808") ≡ none)
unfolding parse_i64
parse_example = (refl, refl)

split_example : split_once b'.' (trim (codes " 1.25 ")) ≡ some (codes "1", codes "25")
unfolding split_once trim
split_example = refl
