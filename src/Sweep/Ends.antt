-- ===== src/Sweep/Ends.antt =====
-- The sweep ends, and its windows read every key of the span once.
use quickhouse.Prelude.{
  ℕ, zero, suc, ◌+◌, ◌≤◌, ◌<◌, ◌≡◌, ◌⊎◌, inl, inr, ◌&&◌, Bool, List, [], ◌∷◌, ◌++◌, arith, ltb,
  Bool-cases, ltb→lt, ℤ, ◌≤ℤ◌, ◌<ℤ◌, ltb_ℤ-cases,
}
use quickhouse.Prelude.Text.{Text}
use quickhouse.Prelude.Float.{Floats}
use quickhouse.Sql.{Row}
use quickhouse.Partitions.{Partition}
use quickhouse.Partitions.Cover.{selects, times_read, once_if}
use quickhouse.Sweep.{
  window_hi, window_part, null_part, WindowPlan, next_window, Reader, ran, err, Swept, SweepState,
  null_window, after_done, after_cancel, sweep_loop, keys_left, measure,
}
use quickhouse.Sweep.Laws.{
  IsSized, Reads, EndsWell, all_read, gave_up, wanted_above, end_of_keys, with_nulls, without_nulls,
  Ran-cases,
}
use quickhouse.Sweep.Steps.{window_hi_bounds, halved, next_done-bounds, less_measure}
use quickhouse.Sweep.Covers.{
  in_span, selects-window_part, selects-null_part, times_read-snoc, spans_join,
}

module _ (fl : Floats) {S : Type 0} (reader : Reader fl S) (plan : WindowPlan fl)
    (partition : Partition) (P : List Partition → S → Type 0) (sized : IsSized fl plan)
    (reads : Reads fl reader P) (first : ℤ) where
  abbrev col : Text
  col = plan.col_quoted

  abbrev Ends : Swept fl S → Type 0
  Ends = EndsWell fl reader P (wanted_above first plan.max plan.nullable_key col partition)

  -- What holds at the head of the loop.
  pub record Going (ps : List Partition) (st : SweepState fl S) : Type 0 where
    pub held : P ps st.out
    pub read :
        (row : Row)
        → times_read ps row ≡ once_if (selects partition row && in_span first st.lo (row col))
    pub step_low : plan.floor ≤ st.step
    pub step_high : st.step ≤ plan.max_step
    pub from_first : first ≤ℤ st.lo
    pub not_past : (st.lo ≤ℤ plan.max) ⊎ (st.lo ≡ first)

  null_window-Ends :
      (ps : List Partition) (st : SweepState fl S)
      → Going ps st
      → plan.max ≤ℤ st.lo
      → Ends (null_window fl reader plan partition st)
  unfolding null_window
  null_window-Ends ps st g h = elim (Bool-cases plan.nullable_key) [
    | inl e ↦ elim (Ran-cases fl (reader.run st.issued (null_part partition col) st.out)) [
      | inl (secs, s, e') ↦
          rw (e, e')
            (all_read (ps ++ null_part partition col ∷ []) (st.windows + 1) st.shrinks s
              (reads.on_ran ps st.out st.issued (null_part partition col) secs s g.held e')
              (λ row.
                rw
                  (
                    times_read-snoc ps (null_part partition col) row,
                    g.read row,
                    selects-null_part partition col row,
                    end_of_keys (selects partition row) first st.lo plan.max (row col) h g.not_past,
                  )
                  (with_nulls (selects partition row) first plan.max (row col))))
      | inr (transient, msg, s, e') ↦
          rw (e, e') (gave_up st.issued (null_part partition col) st.out transient msg s e')
    ]
    | inr e ↦ rw e (
        all_read ps st.windows st.shrinks st.out g.held (λ row.
          rw
            (
              g.read row,
              end_of_keys (selects partition row) first st.lo plan.max (row col) h g.not_past,
            )
            (without_nulls (selects partition row) first plan.max (row col))))
  ]

  bounds_of :
      (ps : List Partition) (st : SweepState fl S)
      → Going ps st
      → st.lo <ℤ plan.max
      → let hi = window_hi st.lo st.step plan.max in (st.lo <ℤ hi) × (hi ≤ℤ plan.max)
  bounds_of ps st g h =
      let low = sized.floor_pos in
      let cap = sized.cap_fits in
      window_hi_bounds st.lo plan.max st.step h (omega arith) (omega arith)

  done-Going :
      (ps : List Partition) (st : SweepState fl S) (secs : fl.F) (s : S)
      → Going ps st
      → st.lo <ℤ plan.max
      → let hi = window_hi st.lo st.step plan.max in
        reader.run st.issued (window_part partition col st.lo hi) st.out ≡ ran secs s
        → Going
            (ps ++ window_part partition col st.lo hi ∷ [])
            (after_done fl reader plan partition st hi secs s)
  unfolding next_window
  done-Going ps st secs s g h e =
      let hi = window_hi st.lo st.step plan.max in
      let part = window_part partition col st.lo hi in
      let (up, in_range) = bounds_of ps st g h in
      let (low, high) =
        next_done-bounds fl st.lo hi st.step plan secs (omega (arith, g.step_low, g.step_high)) in
      record {
        held =
            reads.on_between (ps ++ part ∷ []) s
              (reads.on_ran ps st.out st.issued part secs s g.held e);
        read = λ row.
            rw
              (
                times_read-snoc ps part row,
                g.read row,
                selects-window_part partition col st.lo hi row,
              )
              (spans_join (selects partition row) first st.lo hi (row col) g.from_first
                (omega arith));
        step_low = low;
        step_high = high;
        from_first = omega (arith, g.from_first);
        not_past = inl in_range;
      }

  cancel-Going :
      (ps : List Partition) (st : SweepState fl S) (transient : Bool) (msg : Text) (s : S)
      → Going ps st
      → st.lo <ℤ plan.max
      → plan.floor < st.step
      → let hi = window_hi st.lo st.step plan.max in
        reader.run st.issued (window_part partition col st.lo hi) st.out ≡ err transient msg s
        → Going ps (after_cancel fl reader plan partition st hi s)
  unfolding next_window
  cancel-Going ps st transient msg s g h above e =
      let hi = window_hi st.lo st.step plan.max in
      let (low, less) = halved st.step plan.floor above in
      record {
        held =
            reads.on_err ps st.out st.issued (window_part partition col st.lo hi) transient msg s
              g.held e;
        read = g.read;
        step_low = low;
        step_high = omega (arith, less, g.step_high);
        from_first = g.from_first;
        not_past = g.not_past;
      }

  measure-after_done :
      (ps : List Partition) (st : SweepState fl S) (secs : fl.F) (s : S)
      → Going ps st
      → st.lo <ℤ plan.max
      → let hi = window_hi st.lo st.step plan.max in
        measure fl reader plan partition (after_done fl reader plan partition st hi secs s)
        < measure fl reader plan partition st
  unfolding next_window
  measure-after_done ps st secs s g h =
      let hi = window_hi st.lo st.step plan.max in
      let (up, in_range) = bounds_of ps st g h in
      let (low, high) =
        next_done-bounds fl st.lo hi st.step plan secs (omega (arith, g.step_low, g.step_high)) in
      less_measure (keys_left fl reader plan partition st.lo)
        (keys_left fl reader plan partition hi) plan.max_step st.step _ (omega arith) high

  measure-after_cancel :
      (st : SweepState fl S) (hi : ℤ) (s : S)
      → plan.floor < st.step
      → measure fl reader plan partition (after_cancel fl reader plan partition st hi s)
        < measure fl reader plan partition st
  unfolding next_window
  measure-after_cancel st hi s above =
      let (low, less) = halved st.step plan.floor above in omega (arith, less)

  pub sweep_loop-Ends :
      (fuel : ℕ) (ps : List Partition) (st : SweepState fl S)
      → Going ps st
      → measure fl reader plan partition st < fuel
      → Ends (sweep_loop fl reader plan partition fuel st)
  unfolding sweep_loop
  sweep_loop-Ends zero ps st g enough = absurd (omega arith)
  sweep_loop-Ends (suc fuel) ps st g enough =
      let hi = window_hi st.lo st.step plan.max in
      let part = window_part partition col st.lo hi in
      elim (ltb_ℤ-cases st.lo plan.max) [
        | inl (going, h) ↦ elim (Ran-cases fl (reader.run st.issued part st.out)) [
          | inl (secs, s, e) ↦
              rw (going, e)
                (sweep_loop-Ends fuel (ps ++ part ∷ [])
                  (after_done fl reader plan partition st hi secs s) (done-Going ps st secs s g h e)
                  (omega (arith, measure-after_done ps st secs s g h)))
          | inr (transient, msg, s, e) ↦ elim (Bool-cases (transient && ltb plan.floor st.step)) [
            | inl again ↦
                let above : plan.floor < st.step = ltb→lt plan.floor st.step (ground arith) in
                rw (going, e, again)
                  (sweep_loop-Ends fuel ps (after_cancel fl reader plan partition st hi s)
                    (cancel-Going ps st transient msg s g h above e)
                    (omega (arith, measure-after_cancel st hi s above)))
            | inr given_up ↦
                rw (going, e, given_up) (gave_up st.issued part st.out transient msg s e)
          ]
        ]
        | inr (over, h) ↦ rw over (null_window-Ends ps st g h)
      ]
