-- ===== src/Nulls/Marks.antt =====
-- The loop over the rows of a batch: which are kept, and against which column the others count.
use quickhouse.Prelude.{
  ℕ, zero, suc, ◌+◌, ◌≤◌, ◌≡◌, refl, ap, ◌∙◌, inl, inr, Bool, true, false, not, ◌&&◌, Option, none,
  some, List, [], ◌∷◌, arith, length, get_elem?, sum, Bool-cases, if◌then◌else◌, unwrap_or, is_some,
  replicate, All,
}
use quickhouse.Tracker.{later}
use quickhouse.Nulls.{
  Value, kept, trues, nulls, is_null, is_null_at, first_null, count_at, count_row, mark_rows,
}

abbrev Cells : Type 0
Cells = List (Option Value)

-- No column is NULL at the row.
abbrev pub complete : List Cells → ℕ → Bool
complete [] row = true
complete (c ∷ cs) row = not (is_null_at c row) && complete cs row

abbrev pub complete_rows : List Cells → ℕ → ℕ → List Bool
complete_rows cs row zero = []
complete_rows cs row (suc n) = complete cs row ∷ complete_rows cs (row + 1) n

-- Column `j` is NULL at the row, and none before it is.
abbrev pub blamed : List Cells → ℕ → ℕ → Bool
blamed [] row j = false
blamed (c ∷ cs) row zero = is_null_at c row
blamed (c ∷ cs) row (suc j) = not (is_null_at c row) && blamed cs row j

abbrev pub blamed_rows : List Cells → ℕ → ℕ → ℕ → ℕ
blamed_rows cs row zero j = 0
blamed_rows cs row (suc n) j = (if blamed cs row j then 1 else 0) + blamed_rows cs (row + 1) n j

abbrev pub at : ℕ → List ℕ → ℕ
at j ns = unwrap_or (get_elem? ns j) 0

is_some-later : (o : Option ℕ) → is_some (later o) ≡ is_some o
is_some-later none = refl
is_some-later (some j) = refl

first_null-complete :
    (cs : List Cells) (row : ℕ) → not (is_some (first_null cs row)) ≡ complete cs row
first_null-complete [] row = refl
first_null-complete (c ∷ cs) row = elim (Bool-cases (is_null_at c row)) [
  | inl e ↦ rw e refl
  | inr e ↦ rw (e, is_some-later (first_null cs row)) (first_null-complete cs row)
]

length-count_at : (j : ℕ) (ns : List ℕ) → length (count_at j ns) ≡ length ns
length-count_at j [] = refl
length-count_at zero (n ∷ ns) = refl
length-count_at (suc j) (n ∷ ns) = ap suc (length-count_at j ns)

length-count_row : (o : Option ℕ) (ns : List ℕ) → length (count_row o ns) ≡ length ns
length-count_row none ns = refl
length-count_row (some j) ns = length-count_at j ns

count_row-later :
    (o : Option ℕ) (n : ℕ) (ns : List ℕ) → count_row (later o) (n ∷ ns) ≡ n ∷ count_row o ns
count_row-later none n ns = refl
count_row-later (some j) n ns = ground arith

-- A row counts against one column or none.
sum-count_row :
    (cs : List Cells) (row : ℕ) (ns : List ℕ)
    → length ns ≡ length cs
    → sum (count_row (first_null cs row) ns) + (if complete cs row then 1 else 0) ≡ sum ns + 1
sum-count_row [] row ns h = refl
sum-count_row (c ∷ cs) row [] h = absurd (omega arith)
sum-count_row (c ∷ cs) row (n ∷ ns) h = elim (Bool-cases (is_null_at c row)) [
  | inl e ↦ rw e (omega arith)
  | inr e ↦
      rw (e, count_row-later (first_null cs row) n ns)
        (let ih = sum-count_row cs row ns (omega arith) in omega arith)
]

at-count_row :
    (cs : List Cells) (row j : ℕ) (ns : List ℕ)
    → length ns ≡ length cs
    → at j (count_row (first_null cs row) ns) ≡ at j ns + (if blamed cs row j then 1 else 0)
at-count_row [] row j ns h = omega arith
at-count_row (c ∷ cs) row j [] h = absurd (omega arith)
at-count_row (c ∷ cs) row zero (n ∷ ns) h = elim (Bool-cases (is_null_at c row)) [
  | inl e ↦ rw e refl
  | inr e ↦ rw (e, count_row-later (first_null cs row) n ns) (omega arith)
]
at-count_row (c ∷ cs) row (suc j) (n ∷ ns) h = elim (Bool-cases (is_null_at c row)) [
  | inl e ↦ rw e (omega arith)
  | inr e ↦
      rw (e, count_row-later (first_null cs row) n ns) (at-count_row cs row j ns (omega arith))
]

-- The rows that are kept are those that are complete.
pub mark_rows_complete :
    (cs : List Cells) (row n : ℕ) (ns : List ℕ) → (mark_rows cs row n ns).0 ≡ complete_rows cs row n
unfolding mark_rows
mark_rows_complete cs row zero ns = refl
mark_rows_complete cs row (suc n) ns =
    rw
      (
        first_null-complete cs row,
        mark_rows_complete cs (row + 1) n (count_row (first_null cs row) ns),
      )
      refl

module _ (cs : List Cells) where
  pub length-mark_rows :
      (row n : ℕ) (ns : List ℕ)
      → length ns ≡ length cs
      → length (mark_rows cs row n ns).1 ≡ length cs
  unfolding mark_rows
  length-mark_rows row zero ns h = h
  length-mark_rows row (suc n) ns h =
      length-mark_rows (row + 1) n (count_row (first_null cs row) ns)
        (length-count_row (first_null cs row) ns ∙ h)

  -- Every row is kept or counted, once.
  pub sum-mark_rows :
      (row n : ℕ) (ns : List ℕ)
      → length ns ≡ length cs
      → trues (complete_rows cs row n) + sum (mark_rows cs row n ns).1 ≡ n + sum ns
  unfolding mark_rows
  sum-mark_rows row zero ns h = refl
  sum-mark_rows row (suc n) ns h =
      let ns' = count_row (first_null cs row) ns in
      let ih = sum-mark_rows (row + 1) n ns' (length-count_row (first_null cs row) ns ∙ h) in
      let s = sum-count_row cs row ns h in omega arith

  -- A row counts against the first column that is NULL in it.
  pub at-mark_rows :
      (row n j : ℕ) (ns : List ℕ)
      → length ns ≡ length cs
      → at j (mark_rows cs row n ns).1 ≡ at j ns + blamed_rows cs row n j
  unfolding mark_rows
  at-mark_rows row zero j ns h = omega arith
  at-mark_rows row (suc n) j ns h =
      let ns' = count_row (first_null cs row) ns in
      let ih = at-mark_rows (row + 1) n j ns' (length-count_row (first_null cs row) ns ∙ h) in
      let s = at-count_row cs row j ns h in omega arith

pub length-complete_rows : (cs : List Cells) (row n : ℕ) → length (complete_rows cs row n) ≡ n
length-complete_rows cs row zero = refl
length-complete_rows cs row (suc n) = ap suc (length-complete_rows cs (row + 1) n)

complete-is_null_at :
    (cs : List Cells) (row i : ℕ) (c : Cells)
    → get_elem? cs i ≡ some c
    → complete cs row ≡ true
    → is_null_at c row ≡ false
complete-is_null_at [] row i c e h = cc
complete-is_null_at (x ∷ cs) row zero c e h = ground arith
complete-is_null_at (x ∷ cs) row (suc i) c e h = complete-is_null_at cs row i c e (ground arith)

-- A column that is checked holds no NULL in the rows that are kept.
nulls-kept_from :
    (cs : List Cells) (i row : ℕ) (c xs : Cells)
    → get_elem? cs i ≡ some c
    → ((k : ℕ) → is_null_at xs k ≡ is_null_at c (row + k))
    → nulls (kept (complete_rows cs row (length xs)) xs) ≡ 0
nulls-kept_from cs i row c [] e h = refl
nulls-kept_from cs i row c (x ∷ xs) e h =
    let ih =
      nulls-kept_from cs i (row + 1) c xs e (λ k. h (suc k) ∙ ap (is_null_at c) (omega arith)) in
    elim (Bool-cases (complete cs row)) [
      | inl t ↦
          let p : is_null x ≡ false =
            h 0 ∙ rw (zero_right row) (complete-is_null_at cs row i c e t) in
          rw t (rw p (omega arith))
      | inr t ↦ rw t ih
    ]
  where
    zero_right : (r : ℕ) → r + 0 ≡ r
    zero_right r = omega arith

pub nulls-kept :
    (cs : List Cells) (i : ℕ) (c : Cells)
    → get_elem? cs i ≡ some c
    → nulls (kept (complete_rows cs 0 (length c)) c) ≡ 0
nulls-kept cs i c e = nulls-kept_from cs i 0 c c e (λ k. ap (is_null_at c) (omega arith))

-- Where nothing is NULL every row is kept, and none is counted.
pub length-kept :
    {A : Type 0} (ks : List Bool) (xs : List A)
    → length ks ≡ length xs
    → length (kept ks xs) ≡ trues ks
length-kept [] xs h = refl
length-kept (k ∷ ks) [] h = absurd (omega arith)
length-kept (k ∷ ks) (x ∷ xs) h = let ih = length-kept ks xs (omega arith) in ground arith

pub nulls-kept-le : (ks : List Bool) (xs : Cells) → nulls (kept ks xs) ≤ nulls xs
nulls-kept-le [] xs = omega arith
nulls-kept-le (k ∷ ks) [] = omega arith
nulls-kept-le (k ∷ ks) (x ∷ xs) = let ih = nulls-kept-le ks xs in ground arith

is_null_at_none : (c : Cells) (row : ℕ) → nulls c ≡ 0 → is_null_at c row ≡ false
is_null_at_none [] row h = refl
is_null_at_none (o ∷ os) zero h = ground arith
is_null_at_none (o ∷ os) (suc row) h = is_null_at_none os row (ground arith)

-- Where no checked column holds a NULL, every row is complete, and none counts against a column.
module _ (cs : List Cells) (h : All (λ c. nulls c ≡ 0) cs) where
  pub complete_all : (row : ℕ) → complete cs row ≡ true
  complete_all row = go cs h
    where
      go : (ds : List Cells) → All (λ c. nulls c ≡ 0) ds → complete ds row ≡ true
      go [] k = refl
      go (d ∷ ds) k = rw (is_null_at_none d row k.0) (go ds k.1)

  blamed_none : (row j : ℕ) → blamed cs row j ≡ false
  blamed_none row j = go cs j h
    where
      go : (ds : List Cells) (i : ℕ) → All (λ c. nulls c ≡ 0) ds → blamed ds row i ≡ false
      go [] i k = refl
      go (d ∷ ds) zero k = is_null_at_none d row k.0
      go (d ∷ ds) (suc i) k = rw (is_null_at_none d row k.0) (go ds i k.1)

  pub blamed_rows_none : (row n j : ℕ) → blamed_rows cs row n j ≡ 0
  blamed_rows_none row zero j = refl
  blamed_rows_none row (suc n) j = rw (blamed_none row j, blamed_rows_none (row + 1) n j) refl

  pub trues_all : (row n : ℕ) → trues (complete_rows cs row n) ≡ n
  trues_all row zero = refl
  trues_all row (suc n) = rw (complete_all row, trues_all (row + 1) n) (omega arith)

  pub kept_all :
      {A : Type 0} (row : ℕ) (xs : List A) → kept (complete_rows cs row (length xs)) xs ≡ xs
  kept_all row [] = refl
  kept_all row (x ∷ xs) = rw (complete_all row) (ap (◌∷◌ x) (kept_all (row + 1) xs))

pub at-replicate : (n j : ℕ) → at j (replicate n 0) ≡ 0
at-replicate zero j = refl
at-replicate (suc n) zero = refl
at-replicate (suc n) (suc j) = at-replicate n j

pub sum-replicate : (n : ℕ) → sum (replicate n 0) ≡ 0
sum-replicate zero = refl
sum-replicate (suc n) = omega (arith, sum-replicate n)
