-- ===== src/Csv/Rows.antt =====
-- Whole rows are read back, and so are the columns of a header.
use quickhouse.Prelude.{
  ℕ, zero, suc, ◌≡◌, refl, ap, sym, ◌∙◌, true, Option, none, some, List, [], ◌∷◌, ◌++◌,
  append_assoc, append-nil, arith, map, length, All, ◌==◌, if◌then◌else◌, ◌>>=◌,
}
use quickhouse.Prelude.Text.{Text}
use quickhouse.Csv.{
  lf, check_delimiter, Cell, text, push_cell, push_rest, push_row, push_rows, names_from,
  push_header, push_field,
}
use quickhouse.Csv.Fields.{
  read_field, Ends, meaning, Apart, cell_text, push_cell-append, read_field-cell,
}

abbrev expect : ℕ → Text → Option Text
expect c [] = none
expect c (x ∷ s) = if x == c then some s else none

-- The fields of a row of `n` columns more, each behind a delimiter, and the end of its line.
pub read_rest : ℕ → ℕ → Text → Option (List (Option Text) × Text)
read_rest d zero s = do s' ← expect lf s; some ([], s')
read_rest d (suc n) s = do
  s' ← expect d s
  field ← read_field d s'
  row ← read_rest d n field.1
  some (field.0 ∷ row.0, row.1)

-- A row of `suc n` columns.
unfoldable pub read_row : ℕ → ℕ → Text → Option (List (Option Text) × Text)
unfolding read_rest
read_row d n s = do
  field ← read_field d s
  row ← read_rest d n field.1
  some (field.0 ∷ row.0, row.1)

-- All rows of a part: the fuel bounds their number.
unfoldable pub read_rows : ℕ → ℕ → ℕ → Text → Option (List (List (Option Text)))
unfolding read_row
read_rows fuel d n [] = some []
read_rows zero d n (c ∷ s) = none
read_rows (suc fuel) d n (c ∷ s) = do
  row ← read_row d n (c ∷ s)
  rest ← read_rows fuel d n row.1
  some (row.0 ∷ rest)

abbrev rest_text : ℕ → List Cell → Text
rest_text d [] = lf ∷ []
rest_text d (c ∷ cs) = d ∷ (cell_text d c ++ rest_text d cs)

push_rest-append :
    (out : Text) (cs : List Cell) (d : ℕ) → push_rest out cs d ≡ out ++ rest_text d cs
unfolding push_rest
push_rest-append out [] d = refl
push_rest-append out (c ∷ cs) d =
    push_rest-append (push_cell (out ++ d ∷ []) c d) cs d
    ∙ ap (λ t. t ++ rest_text d cs) (push_cell-append (out ++ d ∷ []) c d)
    ∙ append_assoc (out ++ d ∷ []) (cell_text d c) (rest_text d cs)
    ∙ append_assoc out (d ∷ []) (cell_text d c ++ rest_text d cs)

rest-Ends : (d : ℕ) (cs : List Cell) (s : Text) → Ends d (rest_text d cs ++ s)
rest-Ends d [] s = ground arith
rest-Ends d (c ∷ cs) s = ground arith

eq_refl : (d : ℕ) → (d == d) ≡ true
eq_refl d = ground arith

-- A row of `suc n` cells.
abbrev pub Row : ℕ → ℕ → List Cell → Type 0
Row d n [] = ⊥
Row d n (c ∷ cs) = (length cs ≡ n) × Apart d c × All (Apart d) cs

module _ (d : ℕ) (good : check_delimiter d ≡ true) where
  read_rest-text :
      (cs : List Cell) (s : Text)
      → All (Apart d) cs
      → read_rest d (length cs) (rest_text d cs ++ s) ≡ some (map meaning cs, s)
  unfolding read_rest
  read_rest-text [] s a = refl
  read_rest-text (c ∷ cs) s (a, as_) =
      let whole = append_assoc (cell_text d c) (rest_text d cs) s in
      rw (eq_refl d, whole, read_field-cell d c (rest_text d cs ++ s) good a (rest-Ends d cs s))
        (rw (read_rest-text cs s as_) refl)

  row_text : Cell → List Cell → Text
  row_text c cs = cell_text d c ++ rest_text d cs

  push_row-append :
      (out : Text) (c : Cell) (cs : List Cell) → push_row out (c ∷ cs) d ≡ out ++ row_text c cs
  unfolding push_row row_text
  push_row-append out c cs =
      push_rest-append (push_cell out c d) cs d
      ∙ ap (λ t. t ++ rest_text d cs) (push_cell-append out c d)
      ∙ append_assoc out (cell_text d c) (rest_text d cs)

  read_row-text :
      (c : Cell) (cs : List Cell) (s : Text)
      → Apart d c
      → All (Apart d) cs
      → read_row d (length cs) (row_text c cs ++ s) ≡ some (map meaning (c ∷ cs), s)
  unfolding read_row row_text
  read_row-text c cs s a as_ =
      rw
        (
          append_assoc (cell_text d c) (rest_text d cs) s,
          read_field-cell d c (rest_text d cs ++ s) good a (rest-Ends d cs s),
        )
        (rw (read_rest-text cs s as_) refl)

  row_text-ne-nil : (c : Cell) (cs : List Cell) → (b : ℕ) × (t : Text) × (row_text c cs ≡ b ∷ t)
  unfolding row_text
  row_text-ne-nil c cs = starts (cell_text d c) cs
    where
      starts : (s : Text) (ds : List Cell) → (b : ℕ) × (t : Text) × (s ++ rest_text d ds ≡ b ∷ t)
      starts [] [] = (lf, [], refl)
      starts [] (e ∷ ds) = (d, cell_text d e ++ rest_text d ds, refl)
      starts (b ∷ s) ds = (b, s ++ rest_text d ds, refl)

  rows_text : List (List Cell) → Text
  rows_text [] = []
  rows_text ([] ∷ rs) = rows_text rs
  rows_text ((c ∷ cs) ∷ rs) = row_text c cs ++ rows_text rs

  push_rows-append :
      (n : ℕ) (out : Text) (rs : List (List Cell))
      → All (Row d n) rs
      → push_rows out rs d ≡ out ++ rows_text rs
  unfolding push_rows rows_text
  push_rows-append n out [] h = sym (append-nil out)
  push_rows-append n out ([] ∷ rs) (h, hs) = absurd h
  push_rows-append n out ((c ∷ cs) ∷ rs) (h, hs) =
      push_rows-append n (push_row out (c ∷ cs) d) rs hs
      ∙ ap (λ t. t ++ rows_text rs) (push_row-append out c cs)
      ∙ append_assoc out (row_text c cs) (rows_text rs)

  read_rows_step :
      (fuel n : ℕ) (s t : Text) (row : List (Option Text))
      → ((b : ℕ) × (t' : Text) × (s ≡ b ∷ t'))
      → read_row d n s ≡ some (row, t)
      → read_rows (suc fuel) d n s ≡ (read_rows fuel d n t >>= λ rest. some (row ∷ rest))
  unfolding read_rows
  read_rows_step fuel n s t row (b, t', e) h =
      let first : read_row d n (b ∷ t') ≡ some (row, t) = ap (read_row d n) (sym e) ∙ h in
      rw e (rw first refl)

  prefix-ne-nil :
      (s u : Text) → ((b : ℕ) × (t : Text) × (s ≡ b ∷ t)) → (b : ℕ) × (t : Text) × (s ++ u ≡ b ∷ t)
  prefix-ne-nil s u (b, t, e) = (b, t ++ u, ap (λ x. x ++ u) e)

  read_rows-text :
      (n : ℕ) (rs : List (List Cell))
      → All (Row d n) rs
      → read_rows (length rs) d n (rows_text rs) ≡ some (map (map meaning) rs)
  unfolding read_rows rows_text
  read_rows-text n [] h = refl
  read_rows-text n ([] ∷ rs) (h, hs) = absurd h
  read_rows-text n ((c ∷ cs) ∷ rs) ((len, a, as_), hs) =
      read_rows_step (length rs) n (row_text c cs ++ rows_text rs) (rows_text rs)
        (map meaning (c ∷ cs)) (prefix-ne-nil (row_text c cs) (rows_text rs) (row_text-ne-nil c cs))
        (ap (λ m. read_row d m (row_text c cs ++ rows_text rs)) (sym len)
          ∙ read_row-text c cs (rows_text rs) a as_)
      ∙ rw (read_rows-text n rs hs) refl

  names_from-push_rest :
      (out : Text) (ns : List Text) → names_from out ns d ≡ push_rest out (map text ns) d
  unfolding names_from push_rest push_cell
  names_from-push_rest out [] = refl
  names_from-push_rest out (n ∷ ns) = names_from-push_rest (push_field (out ++ d ∷ []) n d) ns

  push_header-push_row :
      (out : Text) (ns : List Text) → push_header out ns d ≡ push_row out (map text ns) d
  unfolding push_header push_row push_cell
  push_header-push_row out [] = refl
  push_header-push_row out (n ∷ ns) = names_from-push_rest (push_field out n d) ns

  texts-Apart : (ns : List Text) → All (Apart d) (map text ns)
  texts-Apart [] = tt
  texts-Apart (n ∷ ns) = (tt, texts-Apart ns)

  texts_meaning : (ns : List Text) → map meaning (map text ns) ≡ map some ns
  texts_meaning [] = refl
  texts_meaning (n ∷ ns) = ap (◌∷◌ (some n)) (texts_meaning ns)

  length-texts : (ns : List Text) → length (map text ns) ≡ length ns
  length-texts [] = refl
  length-texts (n ∷ ns) = ap suc (length-texts ns)

-- For a delimiter that is accepted, a reader of RFC 4180 reads a part back: the names of its
-- columns, and every row in order, where a value is its text, whatever it holds, and a NULL is told
-- from an empty text. Where a row has a boolean, the delimiter is none of the letters of `true` and
-- `false`.
pub read_rows-push_rows :
    (d : ℕ) (name : Text) (names : List Text) (rows : List (List Cell))
    → check_delimiter d ≡ true
    → All (Row d (length names)) rows
    → read_rows
        (suc (length rows))
        d
        (length names)
        (push_rows (push_header [] (name ∷ names) d) rows d)
      ≡ some (map some (name ∷ names) ∷ map (map meaning) rows)
unfolding push_rows
read_rows-push_rows d name names rows good h =
    let head : List Cell = map text (name ∷ names) in
    let all_rows : All (Row d (length names)) (head ∷ rows) =
      ((length-texts d good names, tt, texts-Apart d good names), h) in
    ap (λ t. read_rows (suc (length rows)) d (length names) (push_rows t rows d))
      (push_header-push_row d good [] (name ∷ names))
    ∙ ap (read_rows (suc (length rows)) d (length names)) (push_rows-cons head rows)
    ∙ ap (read_rows (suc (length rows)) d (length names))
        (push_rows-append d good (length names) [] (head ∷ rows) all_rows)
    ∙ read_rows-text d good (length names) (head ∷ rows) all_rows
    ∙ ap (λ m. some (m ∷ map (map meaning) rows)) (texts_meaning d good (name ∷ names))
  where
    push_rows-cons :
        (r : List Cell) (rs : List (List Cell))
        → push_rows (push_row [] r d) rs d ≡ push_rows [] (r ∷ rs) d
    push_rows-cons r rs = refl
