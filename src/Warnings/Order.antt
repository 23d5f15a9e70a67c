-- ===== src/Warnings/Order.antt =====
-- What `drain` gives: every count once, the largest first.
use quickhouse.Prelude.{
  ◌≤◌, ◌≡◌, refl, ◌∙◌, true, false, List, [], ◌∷◌, ◌++◌, map, arith, Bool-cases, inl, inr,
}
use quickhouse.Kinds.{TransferWarning}
use quickhouse.Warnings.{
  Wording, Warnings, insert, sort, drain, comes_before, fold, entries, null_entry,
}
use quickhouse.Warnings.Counts.{Key, total, times, one_if_some, fold_counts}

-- No entry is smaller than the ones after it.
abbrev pub IsDescending : List TransferWarning → Type 0
IsDescending [] = Unit
IsDescending (w ∷ []) = Unit
IsDescending (w ∷ x ∷ ws) = (x.count ≤ w.count) × IsDescending (x ∷ ws)

before_count : (a b : TransferWarning) → comes_before a b ≡ true → b.count ≤ a.count
before_count a b h = ground arith

not_before_count : (a b : TransferWarning) → comes_before a b ≡ false → a.count ≤ b.count
not_before_count a b h = ground arith

insert-IsDescending :
    (w : TransferWarning) (ws : List TransferWarning) → IsDescending ws → IsDescending (insert w ws)
unfolding insert
insert-IsDescending w [] h = tt
insert-IsDescending w (x ∷ []) h = elim (Bool-cases (comes_before x w)) [
  | inl e ↦ rw e (before_count x w e, tt)
  | inr e ↦ rw e (not_before_count x w e, tt)
]
insert-IsDescending w (x ∷ y ∷ ws) (h, hs) =
    let rest = insert-IsDescending w (y ∷ ws) hs in
    elim (Bool-cases (comes_before x w)) [
      | inl e ↦ elim (Bool-cases (comes_before y w)) [
        | inl e' ↦ rw (e, e') (h, rw e' at rest)
        | inr e' ↦ rw (e, e') (before_count x w e, rw e' at rest)
      ]
      | inr e ↦ rw e (not_before_count x w e, (h, hs))
    ]

sort-IsDescending : (ws : List TransferWarning) → IsDescending (sort ws)
unfolding sort
sort-IsDescending [] = tt
sort-IsDescending (w ∷ ws) = insert-IsDescending w (sort ws) (sort-IsDescending ws)

total-insert :
    (key : Key) (w : TransferWarning) (ws : List TransferWarning)
    → (total key (insert w ws) ≡ total key (w ∷ ws))
      × (times key (insert w ws) ≡ times key (w ∷ ws))
unfolding insert
total-insert key w [] = (refl, refl)
total-insert key w (x ∷ ws) =
    let (t, m) = total-insert key w ws in
    elim (Bool-cases (comes_before x w)) [
      | inl e ↦ (rw (e, t) (omega arith), rw (e, m) (omega arith))
      | inr e ↦ (rw e refl, rw e refl)
    ]

total-sort :
    (key : Key) (ws : List TransferWarning)
    → (total key (sort ws) ≡ total key ws) × (times key (sort ws) ≡ times key ws)
unfolding sort
total-sort key [] = (refl, refl)
total-sort key (w ∷ ws) =
    let (t, m) = total-sort key ws in
    let (t', m') = total-insert key w (sort ws) in (t' ∙ rw t refl, m' ∙ rw m refl)

-- The drained warnings come in descending order of their counts, one for each kind and column that
-- was collected, with the sum of the counts collected under it; the collector is left empty.
pub drain_counts :
    (say : Wording) (ws : Warnings)
    → let (drained, after) = drain say ws in
      IsDescending drained
      × ((key : Key)
          → (total key drained ≡ total key (entries say ws))
            × (times key drained ≡ one_if_some (times key (entries say ws))))
      × (entries say after ≡ [])
unfolding drain entries
drain_counts say ws =
    let folded = fold say (ws.raw ++ map (null_entry say) ws.null_rows) in
    (
      sort-IsDescending folded,
      λ key. (
        (total-sort key folded).0
            ∙ (fold_counts say (ws.raw ++ map (null_entry say) ws.null_rows) key).0,
        (total-sort key folded).1
            ∙ (fold_counts say (ws.raw ++ map (null_entry say) ws.null_rows) key).1,
      ),
      refl,
    )
