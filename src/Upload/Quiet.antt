-- ===== src/Upload/Quiet.antt =====
-- While a buffer is deferred and memory is not limited, reading sends nothing.
use quickhouse.Prelude.{
  ◌+◌, ◌≡◌, refl, sym, ap, ◌∙◌, ◌⊎◌, inl, inr, true, Option, none, some, List, [], ◌∷◌, ◌++◌, arith,
  ◌==◌, Bool-cases,
}
use quickhouse.Prelude.Text.{Text}
use quickhouse.Memory.{Semaphore, MemoryBudget, try_reserve}
use quickhouse.Tracker.{WatermarkTracker}
use quickhouse.Buffer
use quickhouse.Buffer.{InsertBuffer, NullRows}
use quickhouse.Buffer.Rollback.{Change, pushes, notes, takes, times_taken, change, changes}
use quickhouse.Upload.{
  Batches, Filtered, Stream, Pushed, done, failed, stuck, add, upload, observed, count_null_rows,
  guarded, through_guard, push_batch,
}
use quickhouse.Upload.Delivery.{Ends}
use quickhouse.Upload.Reading.{push_all, continue}

module _ (sp : Semaphore) {Batch : Type 0} (bt : Batches Batch) where
  -- Memory is not limited, and the buffer is sent between statements.
  pub record IsQuiet (s : Stream sp bt) : Type 0 where
    pub unlimited : s.budget.sem ≡ none
    pub deferred : s.buffer.deferred ≡ true

  -- `t` came from `s` by changes to its buffer that never emptied it.
  pub record Fills (s t : Stream sp bt) : Type 0 where
    pub budget : t.budget ≡ s.budget
    pub inflight : t.inflight ≡ s.inflight
    pub spawned : t.spawned ≡ s.spawned
    pub cs : List (Change Batch)
    pub kept : times_taken cs ≡ 0
    pub buffer : t.buffer ≡ changes s.buffer cs

  abbrev filled : Stream sp bt → Batch → Stream sp bt
  filled s batch = record s { buffer = change s.buffer (pushes batch 0 (bt.memory_size batch)) }

  upload_quiet :
      (s : Stream sp bt) (batch : Batch) → IsQuiet s → upload sp bt s batch ≡ done (filled s batch)
  unfolding upload try_reserve add Buffer.push change
  upload_quiet s batch q = rw (q.unlimited, q.deferred) refl

  Fills-filled : (s : Stream sp bt) (batch : Batch) → Fills s (filled s batch)
  unfolding changes
  Fills-filled s batch = record {
    budget = refl;
    inflight = refl;
    spawned = refl;
    cs = pushes batch 0 (bt.memory_size batch) ∷ [];
    kept = refl;
    buffer = refl;
  }

  changes-deferred :
      (b : InsertBuffer Batch) (cs : List (Change Batch)) → (changes b cs).deferred ≡ b.deferred
  unfolding changes change Buffer.push Buffer.note_null_rows Buffer.take_all
  changes-deferred b [] = refl
  changes-deferred b (pushes x r z ∷ cs) = changes-deferred (change b (pushes x r z)) cs
  changes-deferred b (notes rows ∷ cs) = changes-deferred (change b (notes rows)) cs
  changes-deferred b (takes ∷ cs) = changes-deferred (change b takes) cs

  pub Fills-IsQuiet : (s t : Stream sp bt) → Fills s t → IsQuiet s → IsQuiet t
  Fills-IsQuiet s t f q = record {
    unlimited = ap (λ (b : MemoryBudget sp). b.sem) f.budget ∙ q.unlimited;
    deferred =
        ap (λ (b : InsertBuffer Batch). b.deferred) f.buffer
        ∙ changes-deferred s.buffer f.cs
        ∙ q.deferred;
  }

  changes-append :
      (b : InsertBuffer Batch) (cs ds : List (Change Batch))
      → changes b (cs ++ ds) ≡ changes (changes b cs) ds
  unfolding changes
  changes-append b [] ds = refl
  changes-append b (c ∷ cs) ds = changes-append (change b c) cs ds

  times_taken-append :
      (cs ds : List (Change Batch)) → times_taken (cs ++ ds) ≡ times_taken cs + times_taken ds
  times_taken-append [] ds = omega arith
  times_taken-append (pushes x r z ∷ cs) ds = times_taken-append cs ds
  times_taken-append (notes rows ∷ cs) ds = times_taken-append cs ds
  times_taken-append (takes ∷ cs) ds = omega (arith, times_taken-append cs ds)

  Fills-trans : (s t u : Stream sp bt) → Fills s t → Fills t u → Fills s u
  Fills-trans s t u f g = record {
    budget = g.budget ∙ f.budget;
    inflight = g.inflight ∙ f.inflight;
    spawned = g.spawned ∙ f.spawned;
    cs = f.cs ++ g.cs;
    kept = omega (arith, times_taken-append f.cs g.cs, f.kept, g.kept);
    buffer =
        g.buffer
        ∙ ap (λ (b : InsertBuffer Batch). changes b g.cs) f.buffer
        ∙ sym (changes-append s.buffer f.cs g.cs);
  }

  Fills-observed : (s : Stream sp bt) (batch : Batch) → Fills s (observed sp bt s batch s.tracker)
  unfolding changes
  Fills-observed s batch = by_tracker s.tracker
    where
      by_tracker : (t : Option WatermarkTracker) → Fills s (observed sp bt s batch t)
      by_tracker none = record {
        budget = refl;
        inflight = refl;
        spawned = refl;
        cs = [];
        kept = refl;
        buffer = refl;
      }
      by_tracker (some t) = record {
        budget = refl;
        inflight = refl;
        spawned = refl;
        cs = [];
        kept = refl;
        buffer = refl;
      }

  Fills-counted :
      (s : Stream sp bt) (rows : List NullRows) → IsQuiet s → Fills s (count_null_rows sp bt s rows)
  unfolding count_null_rows changes change
  Fills-counted s rows q = rw q.deferred (record {
    budget = refl;
    inflight = refl;
    spawned = refl;
    cs = notes rows ∷ [];
    kept = refl;
    buffer = refl;
  })

  -- Wherever the call ends, it has only filled the buffer.
  abbrev pub EndsFilled : Stream sp bt → Pushed sp bt → Type 0
  EndsFilled s o = Ends sp bt (Fills s) o

  weaken : (s t : Stream sp bt) (o : Pushed sp bt) → Fills s t → EndsFilled t o → EndsFilled s o
  weaken s t (done u) f g = Fills-trans s t u f g
  weaken s t (failed e u) f g = Fills-trans s t u f g
  weaken s t stuck f g = g

  upload-Filled :
      (s : Stream sp bt) (batch : Batch) → IsQuiet s → EndsFilled s (upload sp bt s batch)
  upload-Filled s batch q = rw (upload_quiet s batch q) (Fills-filled s batch)

  Fills-same : (s : Stream sp bt) → Fills s s
  unfolding changes
  Fills-same s = record {
    budget = refl;
    inflight = refl;
    spawned = refl;
    cs = [];
    kept = refl;
    buffer = refl;
  }

  guarded-Filled :
      (s : Stream sp bt) (result : Text ⊎ Filtered Batch)
      → IsQuiet s
      → EndsFilled s (guarded sp bt s result)
  guarded-Filled s (inl e) q = Fills-same s
  guarded-Filled s (inr f) q =
      let s' = count_null_rows sp bt s f.tallies in
      let counted = Fills-counted s f.tallies q in
      elim (Bool-cases (bt.num_rows f.batch == 0)) [
        | inl e ↦ rw e counted
        | inr e ↦ rw e (
            weaken s s' (upload sp bt s' f.batch) counted
              (upload-Filled s' f.batch (Fills-IsQuiet s s' counted q)))
      ]

  through_guard-Filled :
      (s : Stream sp bt) (batch : Batch) (filter : Option (Batch → Text ⊎ Filtered Batch))
      → IsQuiet s
      → EndsFilled s (through_guard sp bt s batch filter)
  through_guard-Filled s batch none q = upload-Filled s batch q
  through_guard-Filled s batch (some filter) q = guarded-Filled s (filter batch) q

  push_batch-Filled :
      (s : Stream sp bt) (batch : Batch) → IsQuiet s → EndsFilled s (push_batch sp bt s batch)
  unfolding push_batch
  push_batch-Filled s batch q =
      let s' = observed sp bt s batch s.tracker in
      let f = Fills-observed s batch in
      weaken s s' (through_guard sp bt s' batch bt.filter) f
        (through_guard-Filled s' batch bt.filter (Fills-IsQuiet s s' f q))

  continue-Filled :
      (s : Stream sp bt) (k : Stream sp bt → Pushed sp bt) (o : Pushed sp bt)
      → ((t : Stream sp bt) → IsQuiet t → EndsFilled t (k t))
      → IsQuiet s
      → EndsFilled s o
      → EndsFilled s (continue sp bt k o)
  continue-Filled s k (done t) rest q f = weaken s t (k t) f (rest t (Fills-IsQuiet s t f q))
  continue-Filled s k (failed e t) rest q f = f
  continue-Filled s k stuck rest q f = f

  pub push_all-Filled :
      (s : Stream sp bt) (bs : List Batch) → IsQuiet s → EndsFilled s (push_all sp bt s bs)
  unfolding push_all
  push_all-Filled s [] q = Fills-same s
  push_all-Filled s (b ∷ bs) q =
      continue-Filled s (λ t. push_all sp bt t bs) (push_batch sp bt s b)
        (λ t q'. push_all-Filled t bs q') q (push_batch-Filled s b q)
