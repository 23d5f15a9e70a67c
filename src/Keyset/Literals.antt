-- ===== src/Keyset/Literals.antt =====
-- What `integer_literal` lets through into the SQL.
use quickhouse.Prelude.{
  ℕ, suc, ◌≡◌, ◌≢◌, inl, inr, refl, true, false, not, [], ◌∷◌, arith, all, All, Bool-cases, ◌==◌,
  tests, ◌<ℤ◌, i64_min, ℤ, pos, negsuc, some,
}
use quickhouse.Prelude.Text.{Text, is_digit, IsDigit, show_ℤ, show_ℕ, show_ℕ-IsDigit, show_ℕ-ne-nil}
use quickhouse.Sql.{render, gt, le, both, holds, Row}
use quickhouse.Keyset.{
  upper_bound, ordered_limit, is_bare_integer, is_empty, integer_literal, keyset_predicate,
}

-- A sign or none, and then one decimal digit or more.
pub data IsInteger : Text → Type 0 where
  plain : (digits : Text) → digits ≢ [] → All IsDigit digits → IsInteger digits
  signed : (digits : Text) → digits ≢ [] → All IsDigit digits → IsInteger (b'-' ∷ digits)

all-IsDigit : (s : Text) → all is_digit s ≡ true → All IsDigit s
all-IsDigit [] h = tt
all-IsDigit (c ∷ s) h = ground (arith, all-IsDigit s)

IsDigit-all : (s : Text) → All IsDigit s → all is_digit s ≡ true
IsDigit-all [] h = refl
IsDigit-all (c ∷ s) (hc, hs) = ground (arith, IsDigit-all s hs)

nonempty : (s : Text) → not (is_empty s) ≡ true → s ≢ []
nonempty [] h e = cc
nonempty (c ∷ s) h e = cc

is_bare_integer_sound : (v : Text) → is_bare_integer v ≡ true → IsInteger v
unfolding is_bare_integer
is_bare_integer_sound [] h = cc
is_bare_integer_sound (c ∷ rest) h = elim (Bool-cases (c == b'-')) [
  | inl e ↦
      let parts : (not (is_empty rest) ≡ true) × (all is_digit rest ≡ true) = ground arith in
      let c_eq : b'-' ≡ c = omega tests in
      rw (← c_eq) (signed rest (nonempty rest parts.0) (all-IsDigit rest parts.1))
  | inr e ↦ plain (c ∷ rest) (λ p. cc) (ground (arith, all-IsDigit rest))
]

digits_are_bare : (s : Text) → All IsDigit s → s ≢ [] → is_bare_integer s ≡ true
unfolding is_bare_integer
digits_are_bare [] h ne = absurd (ne refl)
digits_are_bare (c ∷ s) h ne = ground (arith, IsDigit-all s h.1)

signed_digits_are_bare : (s : Text) → All IsDigit s → s ≢ [] → is_bare_integer (b'-' ∷ s) ≡ true
unfolding is_bare_integer
signed_digits_are_bare [] h ne = absurd (ne refl)
signed_digits_are_bare (c ∷ s) h ne = ground (arith, IsDigit-all s h.1)

is_bare_integer_complete : (v : Text) → IsInteger v → is_bare_integer v ≡ true
is_bare_integer_complete _ (plain digits ne h) = digits_are_bare digits h ne
is_bare_integer_complete _ (signed digits ne h) = signed_digits_are_bare digits h ne

pub show_ℤ-IsInteger : (z : ℤ) → IsInteger (show_ℤ z)
unfolding show_ℤ
show_ℤ-IsInteger (pos n) = plain (show_ℕ n) (show_ℕ-ne-nil n) (show_ℕ-IsDigit n)
show_ℤ-IsInteger (negsuc n) =
    signed (show_ℕ (suc n)) (show_ℕ-ne-nil (suc n)) (show_ℕ-IsDigit (suc n))

-- An integer is spliced as it stands.
integer_literal_keeps : (v : Text) → IsInteger v → integer_literal v ≡ v
unfolding integer_literal
integer_literal_keeps v h = rw (is_bare_integer_complete v h)

-- Whatever text is given, what is spliced is an optional sign and one or more digits, and a text
-- of that form is spliced unchanged.
pub integer_literal_safe :
    (v : Text) → IsInteger (integer_literal v) × (IsInteger v → integer_literal v ≡ v)
unfolding integer_literal
integer_literal_safe v = (spliced, integer_literal_keeps v)
  where
    spliced : IsInteger (integer_literal v)
    spliced = elim (Bool-cases (is_bare_integer v)) [
      | inl e ↦ rw e (is_bare_integer_sound v e)
      | inr e ↦ rw e (show_ℤ-IsInteger i64_min)
    ]

-- With the cursor and the bound that the readers print, the predicate of a window is the condition
-- that selects the keys of the half-open range (lo, hi].
pub keyset_predicate_window :
    (col : Text) (lo hi : ℤ)
    → keyset_predicate
        (record { col_quoted = col; cursor = some (show_ℤ lo); bound = upper_bound (show_ℤ hi) })
      ≡ some (render (both (gt col lo) (le col hi)))
unfolding keyset_predicate render
keyset_predicate_window col lo hi = rw (
  integer_literal_keeps (show_ℤ lo) (show_ℤ-IsInteger lo),
  integer_literal_keeps (show_ℤ hi) (show_ℤ-IsInteger hi),
)

-- A cursor that is no integer becomes the lower bound `i64::MIN`, which every greater key passes.
pub invalid_cursor_selects :
    (col cur : Text) (n : ℕ) (row : Row) (k : ℤ)
    → is_bare_integer cur ≡ false
    → row col ≡ some k
    → i64_min <ℤ k
    → (keyset_predicate (record { col_quoted = col; cursor = some cur; bound = ordered_limit n })
        ≡ some (render (gt col i64_min)))
      × (holds (gt col i64_min) row ≡ true)
unfolding keyset_predicate integer_literal render holds
invalid_cursor_selects col cur n row k bad at_key above = (rw bad, rw at_key (ground arith))
