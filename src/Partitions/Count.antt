-- ===== src/Partitions/Count.antt =====
-- A split gives at most as many partitions as were asked for.
use quickhouse.Prelude.{
  ℕ, zero, suc, ◌+◌, ◌-◌, ◌*◌, ◌≤◌, ◌<◌, ◌≡◌, refl, ap, ◌⊎◌, inl, inr, some, List, arith, max, ℤ,
  pos, ◌+ℤ◌, ◌-ℤ◌, ◌≤ℤ◌, min_ℤ, int_laws, IsI64, pos_part, neg_part, leb_ℤ-cases, length,
}
use quickhouse.Prelude.Text.{Text}
use quickhouse.Partitions.{Partition, range_loop, range_partitions, as_u128, as_i128, div_ceil}
use quickhouse.Partitions.Steps.{step_facts, step_as_i128, span_fits, empty_loop, nonzero}

none_left : (len s : ℕ) → len * s < s → len ≡ 0
none_left zero s h = refl
none_left (suc len) s h = absurd (grind arith)

length_step :
    (len s d d' : ℕ) → (d' ≡ 0) ⊎ (d ≡ d' + s) → len * s < d' + s → 0 < d → suc len * s < d + s
length_step len s d d' (inl e) q h = rw (none_left len s (omega arith)) (omega arith)
length_step len s d d' (inr e) q h = grind arith

-- How many keys are left from `start` on.
abbrev Left : ℤ → ℤ → ℕ → Type 0
Left start hi d = pos_part hi + neg_part start + 1 ≡ d + pos_part start + neg_part hi

-- The keys left after a round: none, or `s` fewer.
Left-after :
    (start hi : ℤ) (s d : ℕ)
    → 0 < s
    → Left start hi d
    → start ≤ℤ hi
    → let next = min_ℤ (start +ℤ pos s -ℤ pos 1) hi +ℤ pos 1 in
      Left next hi (d - s) × ((d - s ≡ 0) ⊎ (d ≡ d - s + s)) × (0 < d)
Left-after start hi s d s_pos l h =
    let f = step_facts start (pos s) hi (omega arith) h in
    (omega int_laws, ground (arith), omega arith)

length-range_loop :
    (fuel : ℕ) (col : Text) (hi start : ℤ) (s idx d : ℕ)
    → 0 < s
    → Left start hi d
    → length (range_loop fuel col hi (pos s) start idx) * s < d + s
unfolding range_loop
length-range_loop zero col hi start s idx d s_pos l = omega arith
length-range_loop (suc fuel) col hi start s idx d s_pos l = elim (leb_ℤ-cases start hi) [
  | inl (below, h) ↦
      let next = min_ℤ (start +ℤ pos s -ℤ pos 1) hi +ℤ pos 1 in
      let (l', e, d_pos) = Left-after start hi s d s_pos l h in
      rw below (
        length_step _ s d (d - s) e
          (length-range_loop fuel col hi next s (idx + 1) (d - s) s_pos l') d_pos)
  | inr (above, h) ↦ rw above (omega arith)
]

-- Few enough, as the width times the count covers the span.
le_of_width : (len n s d : ℕ) → len * s < d + s → d ≤ n * s → len ≤ n
le_of_width len n s d h e = grind arith

width_covers : (a n : ℕ) → 0 < n → a ≤ n * max (div_ceil a n) 1
width_covers a n h = grind arith

module _ (lo hi : ℤ) (n : ℕ) (col : Text) where
  abbrev span : ℕ
  span = as_u128 (hi -ℤ lo +ℤ pos 1)

  abbrev width : ℕ
  width = max (div_ceil span n) 1

  length-range_loop-le :
      0 < n → IsI64 lo → IsI64 hi → length (range_loop (suc span) col hi (as_i128 width) lo 0) ≤ n
  length-range_loop-le n_pos l h = elim (leb_ℤ-cases lo hi) [
    | inl (below, le) ↦
        let spans = span_fits lo hi le in
        rw (step_as_i128 lo hi n l h le n_pos) (
          le_of_width _ n width span
            (length-range_loop (suc span) col hi lo width 0 span (omega arith)
              (omega (int_laws, ap pos_part spans, ap neg_part spans)))
            (width_covers span n n_pos))
    | inr (above, lt) ↦ rw (empty_loop col hi (as_i128 width) lo 0 span lt) (omega arith)
  ]

  -- From i64 bounds, and for n ≥ 1, the split gives a list of at most n partitions.
  pub length-range_partitions-le :
      0 < n
      → IsI64 lo
      → IsI64 hi
      → (ps : List Partition) × (range_partitions lo hi n col ≡ some ps) × (length ps ≤ n)
  unfolding range_partitions
  length-range_partitions-le n_pos l h = (
    range_loop (suc span) col hi (as_i128 width) lo 0,
    rw (nonzero n n_pos),
    length-range_loop-le n_pos l h,
  )
