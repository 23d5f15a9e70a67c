-- ===== src/Ddl/Idents.antt =====
-- A quoted identifier is read back as the name that was quoted.
use quickhouse.Prelude.{
  ℕ, ◌≡◌, refl, ap, ◌∙◌, inl, inr, Bool, true, false, Option, none, some, [], ◌∷◌, ◌++◌,
  append_assoc, ◌==◌, ==→eq, if◌then◌else◌, Bool-cases,
}
use quickhouse.Prelude.Text.{Text, codes}
use quickhouse.Ddl.{replace, quote_ident}

abbrev onto : ℕ → Option (Text × Text) → Option (Text × Text)
onto c none = none
onto c (some (name, rest)) = some (c ∷ name, rest)

-- ClickHouse's reading of an identifier behind its opening backtick: a backslash takes the next
-- character as it stands, and a backtick ends it. `escaped` is set behind a backslash.
abbrev pub read_quoted : Bool → Text → Option (Text × Text)
read_quoted escaped [] = none
read_quoted true (c ∷ s) = onto c (read_quoted false s)
read_quoted false (c ∷ s) =
    let next = read_quoted false s in
    let taken = read_quoted true s in
    if c == b'\\' then taken else if c == b'`' then some ([], s) else onto c next

abbrev pub read_ident : Text → Option (Text × Text)
read_ident [] = none
read_ident (c ∷ s) = if c == b'`' then read_quoted false s else none

abbrev inside : Text → Text
inside name = replace b'`' (codes "\\`") (replace b'\\' (codes "\\\\") name)

read_quoted-inside :
    (name rest : Text) → read_quoted false (inside name ++ b'`' ∷ rest) ≡ some (name, rest)
read_quoted-inside [] rest = refl
read_quoted-inside (c ∷ name) rest = elim (Bool-cases (c == b'\\')) [
  | inl e ↦ let same : c ≡ b'\\' = ==→eq c b'\\' e in rw (same, read_quoted-inside name rest) refl
  | inr e ↦ elim (Bool-cases (c == b'`')) [
    | inl q ↦ let same : c ≡ b'`' = ==→eq c b'`' q in rw (same, read_quoted-inside name rest) refl
    | inr q ↦ rw (e, q, e, q, read_quoted-inside name rest) refl
  ]
]

-- Whatever a name holds, what stands behind its quoted form is read as it is, and the name as it was
-- given: no name ends its quotes.
pub read_ident-quote_ident :
    (name rest : Text) → read_ident (quote_ident name ++ rest) ≡ some (name, rest)
unfolding quote_ident
read_ident-quote_ident name rest =
    ap (read_quoted false) (append_assoc (inside name) (b'`' ∷ []) rest)
    ∙ read_quoted-inside name rest
