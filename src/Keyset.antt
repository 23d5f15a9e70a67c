-- ===== src/Keyset.antt =====
-- source/mod.rs: `Keyset`, `keyset_predicate` and `integer_literal`.
pub mod Literals
pub mod Tests
use quickhouse.Prelude.{
  ℕ, Bool, true, false, Option, none, some, List, [], ◌∷◌, ◌++◌, ◌&&◌, not, all, ◌==◌,
  if◌then◌else◌, i64_min,
}
use quickhouse.Prelude.Text.{Text, codes, is_digit, show_ℤ}

pub data KeysetBound : Type 0 where
  ordered_limit : ℕ → KeysetBound
  upper_bound : Text → KeysetBound

pub record Keyset : Type 0 where
  pub col_quoted : Text
  pub cursor : Option Text
  pub bound : KeysetBound

abbrev pub is_empty : Text → Bool
is_empty [] = true
is_empty (c ∷ s) = false

-- `^-?[0-9]+$`, by the match on the first character.
unfoldable pub is_bare_integer : Text → Bool
is_bare_integer [] = false
is_bare_integer (c ∷ rest) =
    if c == b'-' then not (is_empty rest) && all is_digit rest else is_digit c && all is_digit rest

-- The error that the code logs for a value that is no integer is not modelled.
unfoldable pub integer_literal : Text → Text
unfolding is_bare_integer show_ℤ
integer_literal v = if is_bare_integer v then v else show_ℤ i64_min

abbrev lower_bound : Text → Option Text → Option Text
lower_bound col none = none
lower_bound col (some cur) = some (col ++ codes " > " ++ integer_literal cur)

abbrev window_bound : Text → KeysetBound → Option Text
window_bound col (upper_bound hi) = some (col ++ codes " <= " ++ integer_literal hi)
window_bound col (ordered_limit n) = none

abbrev join_bounds : Option Text → Option Text → Option Text
join_bounds (some l) (some u) = some (l ++ codes " AND " ++ u)
join_bounds (some l) none = some l
join_bounds none (some u) = some u
join_bounds none none = none

unfoldable pub keyset_predicate : Keyset → Option Text
unfolding integer_literal
keyset_predicate k =
    join_bounds (lower_bound k.col_quoted k.cursor) (window_bound k.col_quoted k.bound)
