-- ===== src/Upload/Watermark.antt =====
-- The watermark passes every batch that a stream reads, the rows that the guard leaves out too.
use quickhouse.Prelude.{
  ℕ, ◌≡◌, refl, sym, subst, ◌⊎◌, inl, inr, Option, none, some, List, [], ◌∷◌, map, arith, ◌==◌,
  Bool-cases, ◌≤ℤ◌, i64_min,
}
use quickhouse.Prelude.Text.{Text}
use quickhouse.Tracker.{WatermarkTracker, Values, observe}
use quickhouse.Tracker.Fold.{observe_all, values, IsMax, observe_all-IsMax}
use quickhouse.Memory.{Semaphore, MemoryBudget, try_reserve, reserve}
use quickhouse.Buffer
use quickhouse.Buffer.{NullRows}
use quickhouse.Upload.{
  Batches, Filtered, Stream, Pushed, done, failed, stuck, flush, add, wait, waited, upload,
  reserved, observed, count_null_rows, guarded, through_guard, push_batch,
}
use quickhouse.Upload.Reading.{push_all, continue}

module _ (sp : Semaphore) {Batch : Type 0} (bt : Batches Batch) where
  -- If the call leaves a stream, its tracker is `w`.
  abbrev Leaves : Option WatermarkTracker → Pushed sp bt → Type 0
  Leaves w (done t) = t.tracker ≡ w
  Leaves w (failed e t) = t.tracker ≡ w
  Leaves w stuck = Unit

  flush-tracker : (s : Stream sp bt) → (flush sp bt s).tracker ≡ s.tracker
  unfolding flush
  flush-tracker s = elim (Bool-cases (Buffer.is_empty s.buffer)) [
    | inl e ↦ rw e refl
    | inr e ↦ rw e refl
  ]

  add-tracker :
      (s : Stream sp bt) (batch : Batch) (r : ℕ) → (add sp bt s batch r).tracker ≡ s.tracker
  unfolding add
  add-tracker s batch r =
      elim (Bool-cases (Buffer.push s.buffer batch r (bt.memory_size batch)).1) [
        | inl e ↦ rw e (
            flush-tracker
              (record s { buffer = (Buffer.push s.buffer batch r (bt.memory_size batch)).0 }))
        | inr e ↦ rw e refl
      ]

  waited-Leaves :
      (s : Stream sp bt) (batch : Batch) (o : Option (ℕ × List ℕ × MemoryBudget sp))
      → Leaves s.tracker (waited sp bt s batch o)
  waited-Leaves s batch none = tt
  waited-Leaves s batch (some (r, inflight, budget)) =
      add-tracker (record s { budget = budget; inflight = inflight }) batch r

  reserved-Leaves :
      (s : Stream sp bt) (batch : Batch) (o : Option (ℕ × MemoryBudget sp))
      → Leaves s.tracker (reserved sp bt s batch o)
  unfolding wait
  reserved-Leaves s batch (some (r, budget)) = add-tracker (record s { budget = budget }) batch r
  reserved-Leaves s batch none =
      let s' = flush sp bt s in
      subst
        (λ w.
          Leaves w
            (waited sp bt s' batch (reserve sp s'.inflight s'.budget (bt.memory_size batch))))
        (flush-tracker s)
        (waited-Leaves s' batch (reserve sp s'.inflight s'.budget (bt.memory_size batch)))

  upload-Leaves : (s : Stream sp bt) (batch : Batch) → Leaves s.tracker (upload sp bt s batch)
  unfolding upload
  upload-Leaves s batch = reserved-Leaves s batch (try_reserve sp s.budget (bt.memory_size batch))

  counted-tracker :
      (s : Stream sp bt) (rows : List NullRows) → (count_null_rows sp bt s rows).tracker ≡ s.tracker
  unfolding count_null_rows
  counted-tracker s rows = elim (Bool-cases s.buffer.deferred) [
    | inl e ↦ rw e refl
    | inr e ↦ rw e refl
  ]

  guarded-Leaves :
      (s : Stream sp bt) (result : Text ⊎ Filtered Batch)
      → Leaves s.tracker (guarded sp bt s result)
  guarded-Leaves s (inl e) = refl
  guarded-Leaves s (inr f) =
      let s' = count_null_rows sp bt s f.tallies in
      let same = counted-tracker s f.tallies in
      elim (Bool-cases (bt.num_rows f.batch == 0)) [
        | inl e ↦ rw e same
        | inr e ↦
            rw e (subst (λ w. Leaves w (upload sp bt s' f.batch)) same (upload-Leaves s' f.batch))
      ]

  through_guard-Leaves :
      (s : Stream sp bt) (batch : Batch) (filter : Option (Batch → Text ⊎ Filtered Batch))
      → Leaves s.tracker (through_guard sp bt s batch filter)
  through_guard-Leaves s batch none = upload-Leaves s batch
  through_guard-Leaves s batch (some filter) = guarded-Leaves s (filter batch)

  push_batch-Leaves :
      (s : Stream sp bt) (batch : Batch) (t : WatermarkTracker)
      → s.tracker ≡ some t
      → Leaves (some (observe t (bt.column t.idx batch))) (push_batch sp bt s batch)
  unfolding push_batch
  push_batch-Leaves s batch t e =
      subst (λ w. Leaves w (through_guard sp bt s' batch bt.filter)) met
        (through_guard-Leaves s' batch bt.filter)
    where
      s' : Stream sp bt
      s' = observed sp bt s batch s.tracker

      met : s'.tracker ≡ some (observe t (bt.column t.idx batch))
      met =
          subst (λ w. (observed sp bt s batch w).tracker ≡ some (observe t (bt.column t.idx batch)))
            (sym e) refl

  observe-idx : (t : WatermarkTracker) (v : Values) → (observe t v).idx ≡ t.idx
  unfolding observe
  observe-idx t none = refl
  observe-idx t (some vs) = ground arith

  Observed : WatermarkTracker → List Batch → Stream sp bt → Type 0
  Observed t bs u = u.tracker ≡ some (observe_all t (map (bt.column t.idx) bs))

  -- After the first batch, the tracker reads the same column.
  then_rest :
      (t : WatermarkTracker) (b : Batch) (bs : List Batch) (u : Stream sp bt)
      → Observed (observe t (bt.column t.idx b)) bs u
      → Observed t (b ∷ bs) u
  unfolding Observed observe_all
  then_rest t b bs u h =
      let t' = observe t (bt.column t.idx b) in
      subst (λ i. u.tracker ≡ some (observe_all t' (map (bt.column i) bs)))
        (observe-idx t (bt.column t.idx b)) h

  by_outcome :
      (t : WatermarkTracker) (b : Batch) (bs : List Batch) (u : Stream sp bt) (o : Pushed sp bt)
      → let t' = observe t (bt.column t.idx b) in
        ((x : Stream sp bt) → x.tracker ≡ some t' → push_all sp bt x bs ≡ done u → Observed t' bs u)
        → Leaves (some t') o
        → continue sp bt (λ x. push_all sp bt x bs) o ≡ done u
        → Observed t (b ∷ bs) u
  by_outcome t b bs u (done x) rest l q = then_rest t b bs u (rest x l q)
  by_outcome t b bs u (failed m x) rest l q = absurd cc
  by_outcome t b bs u stuck rest l q = absurd cc

  push_all-Observed :
      (s : Stream sp bt) (bs : List Batch) (t : WatermarkTracker) (u : Stream sp bt)
      → s.tracker ≡ some t
      → push_all sp bt s bs ≡ done u
      → Observed t bs u
  unfolding push_all Observed observe_all
  push_all-Observed s [] t u e h =
      let same : s ≡ u = cc in subst (λ (x : Stream sp bt). x.tracker ≡ some t) same e
  push_all-Observed s (b ∷ bs) t u e h =
      by_outcome t b bs u (push_batch sp bt s b)
        (λ x q k. push_all-Observed x bs (observe t (bt.column t.idx b)) u q k)
        (push_batch-Leaves s b t e) h

  -- When a read ends without an error, the tracker holds the largest of what it held before and of
  -- the non-NULL values of its column in every batch read, those in rows that the guard left out
  -- included.
  pub push_all-IsMax :
      (s : Stream sp bt) (bs : List Batch) (t : WatermarkTracker) (u : Stream sp bt)
      → s.tracker ≡ some t
      → i64_min ≤ℤ t.max
      → push_all sp bt s bs ≡ done u
      → (w : WatermarkTracker) × (u.tracker ≡ some w)
        × IsMax t.max (values (map (bt.column t.idx) bs)) w.max
  unfolding Observed
  push_all-IsMax s bs t u e low h =
      let vs = map (bt.column t.idx) bs in
      (observe_all t vs, push_all-Observed s bs t u e h, observe_all-IsMax t vs low)
