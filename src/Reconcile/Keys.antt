-- ===== src/Reconcile/Keys.antt =====
-- What the comparison of two lists of distinct keys counts.
use quickhouse.Prelude.{
  ℕ, ◌+◌, ◌≤◌, ◌≡◌, refl, sym, ap, ◌∙◌, ◌⊎◌, inl, inr, true, false, not, ◌&&◌, List, [], ◌∷◌,
  length, arith, Bool-cases, if◌then◌else◌,
}
use quickhouse.Prelude.Text.{Text, text_eq, text_eq→eq, text_eq_refl}
use quickhouse.Reconcile.{Distinct, among, set_len, lacking, compare_keys, nothing_in_common}

-- How many of the keys `xs` are among `ys`.
abbrev pub shared : List Text → List Text → ℕ
shared ys [] = 0
shared ys (x ∷ xs) = (if among ys x then 1 else 0) + shared ys xs

pub set_len-Distinct : (ks : List Text) → Distinct ks → set_len ks ≡ length ks
set_len-Distinct [] d = refl
set_len-Distinct (k ∷ ks) (new, d) = rw (new, set_len-Distinct ks d) (omega arith)

pub length-lacking : (ys xs : List Text) → length (lacking ys xs) + shared ys xs ≡ length xs
unfolding lacking
length-lacking ys [] = refl
length-lacking ys (x ∷ xs) = elim (Bool-cases (among ys x)) [
  | inl a ↦ rw a (omega (arith, length-lacking ys xs))
  | inr a ↦ rw a (omega (arith, length-lacking ys xs))
]

text_eq_comm : (a b : Text) → text_eq a b ≡ text_eq b a
text_eq_comm a b = elim (Bool-cases (text_eq a b)) [
  | inl e ↦ let same : a ≡ b = text_eq→eq a b e in e ∙ sym (rw same (text_eq_refl b))
  | inr e ↦ elim (Bool-cases (text_eq b a)) [
    | inr e' ↦ e ∙ sym e'
    | inl e' ↦
        let same : b ≡ a = text_eq→eq b a e' in
        let clash : true ≡ false = sym (rw same (text_eq_refl a)) ∙ e in cc
  ]
]

shared_none :
    (d : Text) (ds xs : List Text) → among xs d ≡ false → shared (d ∷ ds) xs ≡ shared ds xs
shared_none d ds [] h = refl
shared_none d ds (x ∷ xs) h =
    let other : text_eq x d ≡ false = text_eq_comm x d ∙ ground arith in
    let rest = shared_none d ds xs (ground arith) in rw (other, rest) refl

shared_new :
    (d : Text) (ds xs : List Text)
    → among ds d ≡ false
    → Distinct xs
    → shared (d ∷ ds) xs ≡ (if among xs d then 1 else 0) + shared ds xs
shared_new d ds [] new h = refl
shared_new d ds (x ∷ xs) new (first, h) = elim (Bool-cases (text_eq x d)) [
  | inl e ↦
      let same : x ≡ d = text_eq→eq x d e in
      let gone : among xs d ≡ false = rw same at first in
      let none_left = shared_none d ds xs gone in
      rw (same, text_eq_refl d, new, none_left) (omega arith)
  | inr e ↦
      let other : text_eq d x ≡ false = text_eq_comm d x ∙ e in
      rw (e, other, shared_new d ds xs new h) (omega arith)
]

-- The keys in common are as many from either side.
pub shared_comm : (ys xs : List Text) → Distinct ys → Distinct xs → shared ys xs ≡ shared xs ys
shared_comm [] xs dy dx = nothing xs
  where
    nothing : (xs : List Text) → shared [] xs ≡ 0
    nothing [] = refl
    nothing (x ∷ xs) = omega (arith, nothing xs)
shared_comm (y ∷ ys) xs (new, dy) dx =
    shared_new y ys xs new dx
    ∙ ap (λ n. (if among xs y then 1 else 0) + n) (shared_comm ys xs dy dx)

pub record Counts (limit : ℕ) (ss ds : List Text) : Type 0 where
  pub sources : (compare_keys limit ss ds).source_keys ≡ length ss
  pub dests : (compare_keys limit ss ds).dest_keys ≡ length ds
  pub orphans : (compare_keys limit ss ds).orphan_keys + shared ss ds ≡ length ds
  pub missing_ : (compare_keys limit ss ds).missing_keys + shared ss ds ≡ length ss
  pub untouched : (compare_keys limit ss ds).rows_deleted ≡ 0

pub compare_keys-Counts :
    (limit : ℕ) (ss ds : List Text) → Distinct ss → Distinct ds → Counts limit ss ds
unfolding compare_keys
compare_keys-Counts limit ss ds a b = record {
  sources = set_len-Distinct ss a;
  dests = set_len-Distinct ds b;
  orphans = length-lacking ss ds;
  missing_ = rw (shared_comm ss ds a b) (length-lacking ds ss);
  untouched = refl;
}

pub disjoint_keys :
    (limit : ℕ) (ss ds : List Text)
    → Distinct ss
    → Distinct ds
    → nothing_in_common (compare_keys limit ss ds) ≡ true
    → (shared ss ds ≡ 0) × (1 ≤ length ss) × (1 ≤ length ds)
unfolding nothing_in_common
disjoint_keys limit ss ds a b e =
    let c = compare_keys-Counts limit ss ds a b in
    let h1 = c.sources in
    let h2 = c.dests in
    let h3 = c.orphans in let h4 = c.missing_ in (ground arith, ground arith, ground arith)

pub common_keys :
    (limit : ℕ) (ss ds : List Text)
    → Distinct ss
    → Distinct ds
    → nothing_in_common (compare_keys limit ss ds) ≡ false
    → (length ss ≡ 0) ⊎ ((length ds ≡ 0) ⊎ (1 ≤ shared ss ds))
unfolding nothing_in_common
common_keys limit ss ds a b e =
    let c = compare_keys-Counts limit ss ds a b in
    let h1 = c.sources in
    let h2 = c.dests in let h3 = c.orphans in let h4 = c.missing_ in ground arith

pub among-lacking :
    (ys xs : List Text) (k : Text) → among (lacking ys xs) k ≡ (among xs k && not (among ys k))
unfolding lacking
among-lacking ys [] k = refl
among-lacking ys (x ∷ xs) k =
    let rest = among-lacking ys xs k in
    elim (Bool-cases (text_eq k x)) [
      | inl e ↦
          let same : k ≡ x = text_eq→eq k x e in
          elim (Bool-cases (among ys x)) [
            | inl a ↦ rw (e, a, rest, same, a) (ground arith)
            | inr a ↦ rw (a, e, same, a) refl
          ]
      | inr e ↦ elim (Bool-cases (among ys x)) [ inl a ↦ rw (a, e) rest | inr a ↦ rw (a, e) rest ]
    ]
