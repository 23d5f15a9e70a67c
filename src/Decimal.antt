-- ===== src/Decimal.antt =====
-- decimal.rs: exact decimal numbers. A magnitude is a number that fits an i128; a scale is an i32.
pub mod Rescale
pub mod RoundTrip
pub mod Tally
pub mod Reported
pub mod Tests
use quickhouse.Prelude.{
  ℕ, zero, suc, ◌+◌, ◌-◌, ◌*◌, ◌/◌, ◌%◌, ◌^◌, ◌≤◌, ◌≡◌, refl, Bool, true, false, not, ◌&&◌, Option,
  none, some, List, [], ◌∷◌, ◌++◌, ◌>>=◌, map, all, length, take, drop, replicate, get_elem?, sum,
  ltb, leb, ◌==◌, if◌then◌else◌, unwrap_or, ℤ, pos, negsuc, ◌-ℤ◌, leb_ℤ, pos_part, neg_part,
  i128_max,
}
use quickhouse.Prelude.Text.{Text, codes, trim, strip_char, split_once, is_digit, show_ℕ, parse_ℤ}
use quickhouse.Kinds.{WarningKind}

-- A range check, as the checked operations of a machine type make it.
abbrev in_range : ℤ → ℤ → ℤ → Option ℤ
in_range lo hi z = if leb_ℤ lo z then (if leb_ℤ z hi then some z else none) else none

unfoldable pub checked_i32 : ℤ → Option ℤ
checked_i32 z = in_range (negsuc (2 ^ 31 - 1)) (pos (2 ^ 31 - 1)) z

abbrev at_most_i128 : ℕ → Option ℕ
at_most_i128 n = if leb n i128_max then some n else none

unfoldable pub checked_pow10 : ℕ → Option ℕ
checked_pow10 d = at_most_i128 (10 ^ d)

abbrev times_factor : ℕ → Option ℕ → Option ℕ
times_factor m none = none
times_factor m (some factor) = at_most_i128 (m * factor)

abbrev divided_by : ℕ → Option ℕ → Option ℕ
divided_by m none = some 0
divided_by m (some divisor) =
    if leb (divisor / 2) (m % divisor) then some (m / divisor + 1) else some (m / divisor)

-- `checked_neg` of an i32 that is not positive.
abbrev by_shift : ℕ → Option ℤ → Option ℕ
by_shift m none = none
by_shift m (some (pos d)) = times_factor m (checked_pow10 d)
by_shift m (some (negsuc n)) =
    if ltb (suc n) (2 ^ 31) then divided_by m (checked_pow10 (suc n)) else none

unfoldable pub rescale_mantissa : ℕ → ℤ → ℤ → Option ℕ
unfolding checked_i32 checked_pow10
rescale_mantissa magnitude from_scale to_scale =
    if magnitude == 0 then some 0 else by_shift magnitude (checked_i32 (to_scale -ℤ from_scale))

pub data DecimalText : Type 0 where
  ok : (negative : Bool) (magnitude scale : ℕ) → DecimalText
  magnitude_overflow : DecimalText

unfoldable pub push_digit : ℕ → ℕ → Option ℕ
push_digit magnitude digit =
    at_most_i128 (magnitude * 10) >>= (λ m. at_most_i128 (m + (digit - b'0')))

push_int_digits : Text → ℕ → Option ℕ
unfolding push_digit
push_int_digits [] magnitude = some magnitude
push_int_digits (b ∷ s) magnitude = push_digit magnitude b >>= push_int_digits s

abbrev stopped : (ℕ → ℕ → ℕ × ℕ) → ℕ → ℕ → Option ℕ → ℕ × ℕ
stopped further magnitude scale none = (magnitude, scale)
stopped further magnitude scale (some m) = further m (scale + 1)

push_frac_digits : Text → ℕ → ℕ → ℕ × ℕ
unfolding push_digit
push_frac_digits [] magnitude scale = (magnitude, scale)
push_frac_digits (b ∷ s) magnitude scale =
    stopped (push_frac_digits s) magnitude scale (push_digit magnitude b)

abbrev is_blank : Text → Bool
is_blank [] = true
is_blank (c ∷ s) = false

abbrev is_valid : Text → Text → Bool
is_valid int_part frac_part =
    if is_blank int_part
    then (if is_blank frac_part then false else all is_digit frac_part)
    else if is_blank frac_part
    then all is_digit int_part
    else all is_digit int_part && all is_digit frac_part

abbrev signed : Text → Bool × Text
signed s = elim (strip_char b'-' s) [
  | some r ↦ (true, r)
  | none ↦ (false, unwrap_or (strip_char b'+' s) s)
]

abbrev with_fraction : Bool → Text → Option ℕ → DecimalText
with_fraction negative frac_part none = magnitude_overflow
with_fraction negative frac_part (some m) =
    let (magnitude, scale) = push_frac_digits frac_part m 0 in ok negative magnitude scale

-- `none` is the error for a text that is no decimal.
unfoldable pub parse_decimal_text : Text → Option DecimalText
unfolding push_int_digits push_frac_digits
parse_decimal_text s =
    let (negative, rest) = signed (trim s) in
    let (int_part, frac_part) = unwrap_or (split_once b'.' rest) (rest, []) in
    if is_valid int_part frac_part
    then some (with_fraction negative frac_part (push_int_digits int_part 0))
    else none

abbrev pointed : Text → ℕ → Text
pointed digits scale =
    let point = length digits - scale in
    if ltb scale (length digits)
    then take point digits ++ b'.' ∷ drop point digits
    else codes "0." ++ replicate (scale - length digits) b'0' ++ digits

unfoldable pub decimal128_to_string : ℤ → ℤ → Text
decimal128_to_string value scale =
    let digits = show_ℕ (pos_part value + neg_part value) in
    let body : Text = elim scale [
      | pos zero ↦ digits
      | pos (suc k) ↦ pointed digits (suc k)
      | negsuc k ↦ digits ++ replicate (suc k) b'0'
    ] in
    elim value [ pos n ↦ body | negsuc n ↦ b'-' ∷ body ]

abbrev strip_text : Text → Text → Option Text
strip_text [] s = some s
strip_text (p ∷ ps) s = strip_char p s >>= strip_text ps

-- `strip_suffix` of one character.
abbrev strip_last : ℕ → Text → Option Text
strip_last b [] = none
strip_last b (c ∷ []) = if c == b then some [] else none
strip_last b (c ∷ d ∷ s) = elim (strip_last b (d ∷ s)) [ none ↦ none | some r ↦ some (c ∷ r) ]

-- `str::parse` into an unsigned type takes no minus sign.
abbrev parse_u8 : Text → Option ℤ
parse_u8 [] = none
parse_u8 (c ∷ s) =
    let parsed = parse_ℤ (c ∷ s) >>= in_range (pos 0) (pos 255) in
    if c == b'-' then none else parsed

unfoldable pub parse_decimal_override : Text → Option (ℤ × ℤ)
parse_decimal_override s = do
  opened ← strip_text (codes "Decimal(") (trim s)
  rest ← strip_last b')' opened
  parts ← split_once b',' rest
  precision ← parse_u8 (trim parts.0)
  scale ← parse_ℤ (trim parts.1) >>= in_range (negsuc 127) (pos 127)
  some (precision, scale)
