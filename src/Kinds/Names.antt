-- ===== src/Kinds/Names.antt =====
-- The names and the order of the warning kinds.
use quickhouse.Prelude.{
  ◌≡◌, refl, ap, sym, ◌∙◌, true, some, List, [], ◌∷◌, arith, find, get_elem?, ==→eq, Bool-cases,
  inl, inr,
}
use mathlib.Core.Option.{some-injective}
use quickhouse.Prelude.Text.{Text, text_eq, text_eq→eq}
use quickhouse.Kinds.{WarningKind, all_kinds, as_str, from_name, rank, kind_eq}

-- `all_kinds` lists every kind at its place.
get_elem?-rank : (k : WarningKind) → get_elem? all_kinds (rank k) ≡ some k
unfolding rank
get_elem?-rank WarningKind.collapsed_bool = refl
get_elem?-rank _ = refl

rank-injective : (a b : WarningKind) → rank a ≡ rank b → a ≡ b
rank-injective a b h =
    some-injective a b (sym (get_elem?-rank a) ∙ ap (get_elem? all_kinds) h ∙ get_elem?-rank b)

pub kind_eq→eq : (a b : WarningKind) → kind_eq a b ≡ true → a ≡ b
unfolding kind_eq
kind_eq→eq a b h = rank-injective a b (==→eq (rank a) (rank b) h)

pub kind_eq_refl : (a : WarningKind) → kind_eq a a ≡ true
unfolding kind_eq
kind_eq_refl a = ground arith

find_named :
    (ks : List WarningKind) (name : Text) (k : WarningKind)
    → find (λ j. text_eq (as_str j) name) ks ≡ some k
    → as_str k ≡ name
find_named [] name k h = cc
find_named (j ∷ ks) name k h = elim (Bool-cases (text_eq (as_str j) name)) [
  | inl e ↦ ground (arith, text_eq→eq (as_str j) name)
  | inr e ↦ find_named ks name k (ground arith)
]

from_name-as_str : (k : WarningKind) → from_name (as_str k) ≡ some k
unfolding from_name
from_name-as_str WarningKind.collapsed_bool = refl
from_name-as_str _ = refl

-- The name of a kind is read back as that kind, and a text that is read as a kind is its name.
pub from_name_exact :
    (k : WarningKind) (name : Text)
    → (from_name (as_str k) ≡ some k) × (from_name name ≡ some k → as_str k ≡ name)
unfolding from_name
from_name_exact k name = (from_name-as_str k, find_named all_kinds name k)
