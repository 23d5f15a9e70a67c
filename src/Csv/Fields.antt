-- ===== src/Csv/Fields.antt =====
-- A reader of RFC 4180 records, and that it reads what the writer writes.
use quickhouse.Prelude.{
  ℕ, ◌≡◌, refl, ap, sym, ◌∙◌, inl, inr, true, false, ◌||◌, Option, none, some, [], ◌∷◌, ◌++◌,
  append_assoc, append-nil, arith, any, Bool-cases, ◌==◌, ==→eq, if◌then◌else◌,
}
use quickhouse.Prelude.Text.{Text, codes}
use quickhouse.Csv.{
  quote, lf, check_delimiter, is_special, doubled, push_field, Cell, null, text, boolean, push_cell,
}

abbrev onto : ℕ → Option (Text × Text) → Option (Text × Text)
onto c none = none
onto c (some (s, rest)) = some (c ∷ s, rest)

-- Behind the opening quote: two quotes are one, and one ends the field.
pub read_quoted : Text → Option (Text × Text)
read_quoted [] = none
read_quoted (c ∷ []) = if c == quote then some ([], []) else none
read_quoted (c ∷ d ∷ s) =
    let twice = onto quote (read_quoted s) in
    let plain = onto c (read_quoted (d ∷ s)) in
    if c == quote then (if d == quote then twice else some ([], d ∷ s)) else plain

-- Up to the delimiter or the end of the line.
pub read_plain : ℕ → Text → Text × Text
read_plain d [] = ([], [])
read_plain d (c ∷ s) =
    let (field, rest) = read_plain d s in
    if c == d || c == lf then ([], c ∷ s) else (c ∷ field, rest)

abbrev as_field : Text × Text → Option Text × Text
as_field ([], rest) = (none, rest)
as_field (c ∷ s, rest) = (some (c ∷ s), rest)

abbrev as_quoted : Option (Text × Text) → Option (Option Text × Text)
as_quoted none = none
as_quoted (some (s, rest)) = some (some s, rest)

-- One field: a quoted one is its text, one that is empty and not quoted is NULL.
unfoldable pub read_field : ℕ → Text → Option (Option Text × Text)
unfolding read_quoted read_plain
read_field d [] = some (none, [])
read_field d (c ∷ s) =
    if c == quote then as_quoted (read_quoted s) else some (as_field (read_plain d (c ∷ s)))

-- What ends a field.
abbrev pub Ends : ℕ → Text → Type 0
Ends d [] = ⊥
Ends d (c ∷ s) = (c == d || c == lf) ≡ true

-- What a cell reads as.
abbrev pub meaning : Cell → Option Text
meaning null = none
meaning (text s) = some s
meaning (boolean true) = some (codes "true")
meaning (boolean false) = some (codes "false")

-- A boolean stands in a row as it is, so the delimiter may not be one of its letters.
abbrev pub Apart : ℕ → Cell → Type 0
Apart d null = Unit
Apart d (text s) = Unit
Apart d (boolean b) = any (λ c. c == d) (codes "truefals") ≡ false

Ends-not_quote :
    (d c : ℕ) → check_delimiter d ≡ true → (c == d || c == lf) ≡ true → (c == quote) ≡ false
unfolding check_delimiter
Ends-not_quote d c h e = ground arith

read_quoted_plain :
    (b : ℕ) (t : Text) → (b == quote) ≡ false → read_quoted (b ∷ t) ≡ onto b (read_quoted t)
unfolding read_quoted
read_quoted_plain b [] h = rw h refl
read_quoted_plain b (c ∷ t) h = rw h refl

read_quoted-doubled :
    (d : ℕ) (v rest : Text)
    → check_delimiter d ≡ true
    → Ends d rest
    → read_quoted (doubled v ++ quote ∷ rest) ≡ some (v, rest)
unfolding read_quoted
read_quoted-doubled d [] [] h e = absurd e
read_quoted-doubled d [] (c ∷ rest) h e = rw (Ends-not_quote d c h e) refl
read_quoted-doubled d (b ∷ v) rest h e = elim (Bool-cases (b == quote)) [
  | inl q ↦
      let same : b ≡ quote = ==→eq b quote q in
      rw same (ap (onto quote) (read_quoted-doubled d v rest h e))
  | inr q ↦ rw q (
      read_quoted_plain b (doubled v ++ quote ∷ rest) q
      ∙ ap (onto b) (read_quoted-doubled d v rest h e))
]

read_plain-append :
    (d : ℕ) (v rest : Text)
    → any (is_special d) v ≡ false
    → Ends d rest
    → read_plain d (v ++ rest) ≡ (v, rest)
unfolding read_plain
read_plain-append d [] [] h e = absurd e
read_plain-append d [] (c ∷ rest) h e = rw e refl
read_plain-append d (b ∷ v) rest h e =
    let off : (b == d || b == lf) ≡ false = ground arith in
    rw (off, read_plain-append d v rest (ground arith) e) refl

-- What the writer adds for a field that is text.
abbrev field_text : ℕ → Text → Text
field_text d [] = quote ∷ quote ∷ []
field_text d (b ∷ v) =
    if any (is_special d) (b ∷ v) then quote ∷ (doubled (b ∷ v) ++ quote ∷ []) else b ∷ v

abbrev pub cell_text : ℕ → Cell → Text
cell_text d null = []
cell_text d (text s) = field_text d s
cell_text d (boolean true) = codes "true"
cell_text d (boolean false) = codes "false"

pub push_field-append : (out v : Text) (d : ℕ) → push_field out v d ≡ out ++ field_text d v
unfolding push_field
push_field-append out [] d = refl
push_field-append out (b ∷ v) d = elim (Bool-cases (any (is_special d) (b ∷ v))) [
  | inl e ↦ rw e refl
  | inr e ↦ rw e refl
]

pub push_cell-append : (out : Text) (c : Cell) (d : ℕ) → push_cell out c d ≡ out ++ cell_text d c
unfolding push_cell
push_cell-append out null d = sym (append-nil out)
push_cell-append out (text s) d = push_field-append out s d
push_cell-append out (boolean true) d = refl
push_cell-append out (boolean false) d = refl

read_field-text :
    (d : ℕ) (v rest : Text)
    → check_delimiter d ≡ true
    → Ends d rest
    → read_field d (field_text d v ++ rest) ≡ some (some v, rest)
unfolding read_field
read_field-text d [] rest h e = ap as_quoted (read_quoted-doubled d [] rest h e)
read_field-text d (b ∷ v) rest h e = elim (Bool-cases (any (is_special d) (b ∷ v))) [
  | inl s ↦ rw s (
      ap (λ t. as_quoted (read_quoted t)) (append_assoc (doubled (b ∷ v)) (quote ∷ []) rest)
      ∙ ap as_quoted (read_quoted-doubled d (b ∷ v) rest h e))
  | inr s ↦
      let open_ : (b == quote) ≡ false = ground arith in
      rw s (rw open_ (ap (λ r. some (as_field r)) (read_plain-append d (b ∷ v) rest s e)))
]

true_plain :
    (d : ℕ)
    → check_delimiter d ≡ true
    → any (λ c. c == d) (codes "truefals") ≡ false
    → any (is_special d) (codes "true") ≡ false
true_plain d h a = ground arith

false_plain :
    (d : ℕ)
    → check_delimiter d ≡ true
    → any (λ c. c == d) (codes "truefals") ≡ false
    → any (is_special d) (codes "false") ≡ false
false_plain d h a = ground arith

-- A cell is read back from what is written for it.
pub read_field-cell :
    (d : ℕ) (c : Cell) (rest : Text)
    → check_delimiter d ≡ true
    → Apart d c
    → Ends d rest
    → read_field d (cell_text d c ++ rest) ≡ some (meaning c, rest)
unfolding read_field read_plain
read_field-cell d null [] h a e = absurd e
read_field-cell d null (x ∷ rest) h a e = rw (Ends-not_quote d x h e, e) refl
read_field-cell d (text s) rest h a e = read_field-text d s rest h e
read_field-cell d (boolean true) rest h a e =
    ap (λ r. some (as_field r)) (read_plain-append d (codes "true") rest (true_plain d h a) e)
read_field-cell d (boolean false) rest h a e =
    ap (λ r. some (as_field r)) (read_plain-append d (codes "false") rest (false_plain d h a) e)
