-- ===== src/Nulls/Enums.antt =====
-- null_guard.rs: `enum_default`, the element of an `Enum` type with the lowest value. The characters
-- are a list, of which `peekable` takes one at a time; a loop over them has as fuel their number.
use quickhouse.Prelude.{
  ℕ, zero, suc, Bool, ◌||◌, Option, none, some, [], ◌∷◌, length, ◌==◌, if◌then◌else◌, ◌>>=◌, ℤ, pos,
  ◌+ℤ◌, ltb_ℤ, ◌≡◌, refl,
}
use quickhouse.Prelude.Text.{
  Text, codes, is_digit, is_space, parse_i64, strip_char, trim_end, split_once,
}

abbrev drop_while : (ℕ → Bool) → Text → Text
drop_while p [] = []
drop_while p (c ∷ s) = if p c then drop_while p s else c ∷ s

abbrev push_name : ℕ → Option (Text × Text) → Option (Text × Text)
push_name c none = none
push_name c (some (name, s)) = some (c ∷ name, s)

-- The name up to its closing quote, and what follows; a quote is escaped by a backslash or doubled.
unfoldable pub quoted_name : Text → Option (Text × Text)
quoted_name [] = none
quoted_name (c ∷ []) = if c == b'\'' then some ([], []) else none
quoted_name (c ∷ d ∷ s) =
    let escaped = push_name d (quoted_name s) in
    let plain = push_name c (quoted_name (d ∷ s)) in
    if c == b'\\'
    then escaped
    else if c == b'\''
    then (if d == b'\'' then escaped else some ([], d ∷ s))
    else plain

abbrev is_gap : ℕ → Bool
is_gap c = is_space c || c == b','

abbrev in_number : ℕ → Bool
in_number c = is_space c || c == b'-' || is_digit c

-- The characters of a number, without the whitespace, and what follows them.
abbrev take_number : Text → Text × Text
take_number [] = ([], [])
take_number (c ∷ s) =
    let (number, rest) = take_number s in
    if in_number c then (if is_space c then number else c ∷ number, rest) else ([], c ∷ s)

abbrev with_rest : Text → Option ℤ → Option (ℤ × Text)
with_rest rest none = none
with_rest rest (some v) = some (v, rest)

-- `= n`, or the value after that of the element before.
abbrev element_value : ℤ → Text → Option (ℤ × Text)
unfolding parse_i64
element_value next [] = some (next, [])
element_value next (c ∷ s) =
    let (number, rest) = take_number s in
    if c == b'=' then with_rest rest (parse_i64 number) else some (next, c ∷ s)

abbrev lower_of : Option (ℤ × Text) → ℤ → Text → ℤ × Text
lower_of none v name = (v, name)
lower_of (some (w, n)) v name = if ltb_ℤ v w then (v, name) else (w, n)

-- After an element: the loop goes on behind a comma, and ends at the end of the text.
abbrev go_on : (Text → Option Text) → Text → Text → Option Text
go_on again name [] = some name
go_on again name (c ∷ s) = let rest = again s in if c == b',' then rest else none

unfoldable pub enum_loop : ℕ → Option (ℤ × Text) → ℤ → Text → Option Text
unfolding quoted_name parse_i64 ◌+ℤ◌
enum_loop zero lowest next s = none
enum_loop (suc fuel) lowest next s = do
  s' ← strip_char b'\'' (drop_while is_gap s)
  quoted ← quoted_name s'
  read ← element_value next (drop_while is_space quoted.1)
  let lowest' = lower_of lowest read.0 quoted.0
  go_on (enum_loop fuel (some lowest') (read.0 +ℤ pos 1)) lowest'.1 (drop_while is_space read.1)

-- `strip_suffix` of one character.
abbrev pub strip_last : ℕ → Text → Option Text
strip_last b [] = none
strip_last b (c ∷ []) = if c == b then some [] else none
strip_last b (c ∷ d ∷ s) = strip_last b (d ∷ s) >>= λ r. some (c ∷ r)

unfoldable pub enum_default : Text → Option Text
unfolding enum_loop trim_end split_once
enum_default ty = do
  split ← split_once b'(' ty
  body ← strip_last b')' (trim_end split.1)
  enum_loop (suc (length body)) none (pos 1) body

enum_default_test :
    (enum_default (codes "Enum8('a' = 1, 'b''c' = -2, 'd')") ≡ some (codes "b'c"))
    × (enum_default (codes "Enum('x','y')") ≡ some (codes "x"))
    × (enum_default (codes "Enum8('a' = 1") ≡ none)
unfolding enum_default
enum_default_test = (refl, refl, refl)
