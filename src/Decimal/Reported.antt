-- ===== src/Decimal/Reported.antt =====
-- The tally of coercions counts what is recorded, and reports what it counts.
use quickhouse.Prelude.{
  ℕ, zero, suc, ◌+◌, ◌≡◌, refl, ◌∙◌, Bool, true, false, some, List, [], ◌∷◌, ◌++◌, arith, map,
  length, get_elem?, sum, ltb, if◌then◌else◌, unwrap_or,
}
use quickhouse.Prelude.Text.{Text}
use quickhouse.Kinds.{WarningKind, kind_eq, rank}
use quickhouse.Decimal.Tally.{
  Slots, CoercionTally, Slot, date_slot, decimal_slot, bool_slot, scalar_slot, slot, kind_of, at,
  count_up, update, record_kind, sum_at, total, non_zero, row_entries, rows_from, entries,
}

-- One more where the counts have a row `col`.
abbrev pub one_if_inside : ℕ → List Slots → ℕ
one_if_inside col rows = if ltb col (length rows) then 1 else 0

abbrev pub same_slot : Slot → Slot → Bool
same_slot date_slot date_slot = true
same_slot decimal_slot decimal_slot = true
same_slot bool_slot bool_slot = true
same_slot scalar_slot scalar_slot = true
same_slot _ _ = false

at-count_up :
    (sl sl' : Slot) (row : Slots)
    → at sl' (count_up sl row) ≡ at sl' row + (if same_slot sl sl' then 1 else 0)
at-count_up sl sl' row = ground arith

first_inside : (row : Slots) (rows : List Slots) → one_if_inside 0 (row ∷ rows) ≡ 1
first_inside row rows = ground arith

later_inside :
    (col : ℕ) (row : Slots) (rows : List Slots)
    → one_if_inside (suc col) (row ∷ rows) ≡ one_if_inside col rows
later_inside col row rows = ground arith

sum-update :
    (sl sl' : Slot) (col : ℕ) (rows : List Slots)
    → sum (map (at sl') (update sl col rows))
      ≡ sum (map (at sl') rows) + (if same_slot sl sl' then one_if_inside col rows else 0)
unfolding update
sum-update sl sl' col [] = ground arith
sum-update sl sl' zero (row ∷ rows) =
    rw (first_inside row rows, at-count_up sl sl' row) (omega arith)
sum-update sl sl' (suc col) (row ∷ rows) =
    rw (later_inside col row rows, sum-update sl sl' col rows) (omega arith)

slot-kind_of : (sl : Slot) → slot (kind_of sl) ≡ some sl
unfolding slot kind_of
slot-kind_of date_slot = refl
slot-kind_of decimal_slot = refl
slot-kind_of bool_slot = refl
slot-kind_of scalar_slot = refl

-- Recording a value of one kind in a column adds one to the total of that kind and to no other, and
-- past the last column it adds nothing.
pub record_kind-adds :
    (t : CoercionTally) (col : ℕ) (sl sl' : Slot)
    → total (record_kind t col (kind_of sl)) (kind_of sl')
      ≡ total t (kind_of sl') + (if same_slot sl sl' then one_if_inside col t.counts else 0)
unfolding total record_kind sum_at
record_kind-adds t col sl sl' =
    rw (slot-kind_of sl, slot-kind_of sl') (sum-update sl sl' col t.counts)

-- What the entries report under a kind.
abbrev pub reported : WarningKind → List (WarningKind × Text × ℕ) → ℕ
reported kind [] = 0
reported kind ((k, name, n) ∷ es) = (if kind_eq k kind then n else 0) + reported kind es

reported-append :
    (kind : WarningKind) (xs ys : List (WarningKind × Text × ℕ))
    → reported kind (xs ++ ys) ≡ reported kind xs + reported kind ys
reported-append kind [] ys = omega arith
reported-append kind ((k, name, n) ∷ xs) ys = omega (arith, reported-append kind xs ys)

reported-non_zero :
    (kind k : WarningKind) (name : Text) (n : ℕ)
    → reported kind (non_zero k name n) ≡ (if kind_eq k kind then n else 0)
reported-non_zero kind k name n = ground arith

reported_by_slot :
    (kind : WarningKind) (name : Text) (row : Slots)
    → reported kind (row_entries name row)
      ≡ (if kind_eq WarningKind.coerced_date kind then row.date else 0)
        + (if kind_eq WarningKind.coerced_decimal kind then row.decimal else 0)
        + (if kind_eq WarningKind.collapsed_bool kind then row.bool else 0)
        + (if kind_eq WarningKind.coerced_scalar kind then row.scalar else 0)
reported_by_slot kind name row = simp (reported-append, reported-non_zero)

reported-row_entries :
    (sl : Slot) (name : Text) (row : Slots)
    → reported (kind_of sl) (row_entries name row) ≡ at sl row
unfolding kind_of kind_eq rank
reported-row_entries date_slot name row =
    reported_by_slot (kind_of date_slot) name row ∙ omega arith
reported-row_entries decimal_slot name row =
    reported_by_slot (kind_of decimal_slot) name row ∙ omega arith
reported-row_entries bool_slot name row =
    reported_by_slot (kind_of bool_slot) name row ∙ omega arith
reported-row_entries scalar_slot name row =
    reported_by_slot (kind_of scalar_slot) name row ∙ omega arith

reported-rows_from :
    (sl : Slot) (i : ℕ) (names : List Text) (rows : List Slots)
    → reported (kind_of sl) (rows_from i names rows) ≡ sum (map (at sl) rows)
reported-rows_from sl i names [] = refl
reported-rows_from sl i names (row ∷ rows) =
    let name = unwrap_or (get_elem? names i) [] in
    reported-append (kind_of sl) (row_entries name row) (rows_from (i + 1) names rows)
    ∙ rw (reported-row_entries sl name row, reported-rows_from sl (i + 1) names rows) refl

-- The entries report, under each kind of coercion, exactly its total over all columns.
pub reported-entries :
    (t : CoercionTally) (sl : Slot) → reported (kind_of sl) (entries t) ≡ total t (kind_of sl)
unfolding entries total sum_at
reported-entries t sl = rw (slot-kind_of sl) (reported-rows_from sl 0 t.names t.counts)
