-- ===== src/Decimal/Tests.antt =====
-- Tests of decimal numbers and of the tally of coercions.
use quickhouse.Prelude.{◌≡◌, refl, arith, true, false, some, [], ◌∷◌, pos, negsuc, ◌-ℤ◌}
use quickhouse.Prelude.Text.{codes, trim, split_once, show_ℕ, parse_ℤ}
use quickhouse.Decimal.{
  ok, rescale_mantissa, checked_i32, checked_pow10, parse_decimal_text, push_digit,
  decimal128_to_string, parse_decimal_override,
}
use quickhouse.Decimal.Rescale.{rescaled, rescale_mantissa_exact}
use quickhouse.Decimal.RoundTrip.{parse-decimal128_to_string}
use quickhouse.Decimal.Tally.{CoercionTally}

rescale_narrows : rescale_mantissa 12345 (pos 4) (pos 1) ≡ some 12
unfolding rescale_mantissa checked_i32 checked_pow10 ◌-ℤ◌
rescale_narrows = refl

parse_negative : parse_decimal_text (codes " -12.50") ≡ some (ok true 1250 2)
unfolding parse_decimal_text push_digit trim split_once
parse_negative = refl

print_small : decimal128_to_string (negsuc 6) (pos 3) ≡ codes "-0.007"
unfolding decimal128_to_string show_ℕ
print_small = refl

override_spaces : parse_decimal_override (codes "Decimal( 18 , 4 )") ≡ some (pos 18, pos 4)
unfolding parse_decimal_override trim split_once parse_ℤ
override_spaces = refl

-- Thirty-nine fractional digits: the last one no longer fits and is dropped, not rounded, although
-- nothing is left to round it when the scale stays at 38.
dropped_digit :
    parse_decimal_text (codes "0.222222222222222222222222222222222222229")
    ≡ some (ok false 22222222222222222222222222222222222222 38)
unfolding parse_decimal_text push_digit trim split_once
dropped_digit = refl

rescale_mantissa_exact_example :
    rescale_mantissa 12355 (pos 4) (pos 2) ≡ rescaled 12355 (pos 2 -ℤ pos 4)
unfolding ◌-ℤ◌
rescale_mantissa_exact_example =
    rescale_mantissa_exact 12355 (pos 4) (pos 2) (omega arith) (omega arith) (omega arith)

abbrev two_columns : CoercionTally
two_columns = record {
  names = codes "a" ∷ codes "b" ∷ [];
  counts =
      record { date = 1; decimal = 0; bool = 2; scalar = 0 }
      ∷ record { date = 0; decimal = 0; bool = 3; scalar = 0 }
      ∷ [];
}

parse-decimal128_to_string_example :
    parse_decimal_text (decimal128_to_string (negsuc 1249) (pos 2)) ≡ some (ok true 1250 2)
parse-decimal128_to_string_example = parse-decimal128_to_string (negsuc 1249) 1 (omega arith)
