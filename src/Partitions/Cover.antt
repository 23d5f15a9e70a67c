-- ===== src/Partitions/Cover.antt =====
-- The partitions of a key range cover it exactly once.
use quickhouse.Prelude.{
  ℕ, zero, suc, ◌+◌, ◌<◌, ◌≡◌, refl, ◌&&◌, Bool, true, none, some, List, [], ◌∷◌, arith,
  if◌then◌else◌, max, ap, leb_ℤ, inl, inr, ◌<ℤ◌, ℤ, pos, ◌+ℤ◌, ◌-ℤ◌, ◌≤ℤ◌, min_ℤ, int_laws, IsI64,
  pos_part, neg_part, leb_ℤ-cases, +ℤ_parts,
}
use quickhouse.Partitions.Steps.{step_facts, span_fits, step_as_i128, empty_loop, nonzero}
use quickhouse.Prelude.Text.{Text}
use quickhouse.Sql.{Row, holds}
use quickhouse.Partitions.{
  Partition, range_part, range_loop, range_partitions, as_u128, as_i128, div_ceil,
}

abbrev pub selects : Partition → Row → Bool
selects p row = elim p.predicate [ none ↦ true | some c ↦ holds c row ]

-- How many of the partitions read a row.
abbrev pub times_read : List Partition → Row → ℕ
times_read [] row = 0
times_read (p ∷ ps) row = (if selects p row then 1 else 0) + times_read ps row

abbrev pub once_if : Bool → ℕ
once_if b = if b then 1 else 0

-- The numbers from `start` on split at `end`.
once_split :
    (start end next hi k : ℤ)
    → start ≤ℤ end
    → end ≤ℤ hi
    → next ≡ end +ℤ pos 1
    → once_if (leb_ℤ start k && leb_ℤ k end) + once_if (leb_ℤ next k && leb_ℤ k hi)
      ≡ once_if (leb_ℤ start k && leb_ℤ k hi)
once_split start end next hi k h h' e = let p = +ℤ_parts end (pos 1) in ground (arith)

empty_range : (start hi k : ℤ) → hi <ℤ start → 0 ≡ once_if (leb_ℤ start k && leb_ℤ k hi)
empty_range start hi k h = ground arith

module _ (col : Text) (row : Row) (k : ℤ) (at_key : row col ≡ some k) where
  selects-range_part :
      (idx : ℕ) (start end : ℤ)
      → selects (range_part col idx start end) row ≡ (leb_ℤ start k && leb_ℤ k end)
  unfolding range_part holds
  selects-range_part idx start end = rw at_key

  times_read-range_loop :
      (hi step : ℤ) (fuel : ℕ) (start : ℤ) (idx : ℕ)
      → pos 1 ≤ℤ step
      → pos_part hi + neg_part start < fuel + pos_part start + neg_part hi
      → times_read (range_loop fuel col hi step start idx) row
        ≡ once_if (leb_ℤ start k && leb_ℤ k hi)
  unfolding range_loop
  times_read-range_loop hi step zero start idx grows enough = empty_range start hi k (omega arith)
  times_read-range_loop hi step (suc fuel) start idx grows enough = elim (leb_ℤ-cases start hi) [
    | inl (below, h) ↦
        let end = min_ℤ (start +ℤ step -ℤ pos 1) hi in
        let (low, high, onward) = step_facts start step hi grows h in
        rw
          (
            below,
            selects-range_part idx start end,
            times_read-range_loop hi step fuel (end +ℤ pos 1) (idx + 1) grows (omega arith),
          )
          (once_split start end (end +ℤ pos 1) hi k low high refl)
    | inr (above, h) ↦ rw above (empty_range start hi k h)
  ]

module _ (lo hi : ℤ) (n : ℕ) (col : Text) (row : Row) (k : ℤ) where
  -- From i64 bounds and for at least one partition, the split gives a list of partitions that
  -- together read a row with the key `k` once if lo ≤ k ≤ hi, and not at all otherwise.
  pub range_partitions_cover :
      0 < n
      → IsI64 lo
      → IsI64 hi
      → row col ≡ some k
      → (ps : List Partition) × (range_partitions lo hi n col ≡ some ps)
        × (times_read ps row ≡ once_if (leb_ℤ lo k && leb_ℤ k hi))
  unfolding range_partitions
  range_partitions_cover n_pos l h at_key =
      (range_loop (suc span) col hi step lo 0, rw (nonzero n n_pos), covered)
    where
      span : ℕ
      span = as_u128 (hi -ℤ lo +ℤ pos 1)

      step : ℤ
      step = as_i128 (max (div_ceil span n) 1)

      covered :
          times_read (range_loop (suc span) col hi step lo 0) row
          ≡ once_if (leb_ℤ lo k && leb_ℤ k hi)
      covered = elim (leb_ℤ-cases lo hi) [
        | inl (below, le) ↦
            times_read-range_loop col row k at_key hi step (suc span) lo 0
              (rw (step_as_i128 lo hi n l h le n_pos) (omega arith))
              (omega (int_laws, ap pos_part (span_fits lo hi le), ap neg_part (span_fits lo hi le)))
        | inr (above, lt) ↦ rw (empty_loop col hi step lo 0 span lt) (empty_range lo hi k lt)
      ]
