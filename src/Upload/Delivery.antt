-- ===== src/Upload/Delivery.antt =====
-- A push ends: a stream never waits for memory that it holds itself.
use quickhouse.Prelude.{
  ◌≡◌, sym, ap, subst, ◌∙◌, ◌⊎◌, inl, inr, Option, none, some, List, [], ◌∷◌, ◌++◌, append-nil,
  arith, sum, ◌==◌, if◌then◌else◌, Bool-cases, Option-cases,
}
use native.Mathlib.Nat.{add-zero}
use quickhouse.Prelude.Text.{Text}
use quickhouse.Memory.{Semaphore, try_reserve}
use quickhouse.Memory.Accounting.{IsSound, try_reserve-IsSound, reserve_ends}
use quickhouse.Buffer
use quickhouse.Buffer.{InsertBuffer, NullRows}
use quickhouse.Upload.{
  Batches, Filtered, Stream, Pushed, done, failed, stuck, flush, wait, waited, upload, observed,
  count_null_rows, guarded, through_guard, push_batch,
}
use quickhouse.Upload.Flush.{if_either, held, IsSafe, delivered, flush-Flushed, Added, add-Added}

module _ (sp : Semaphore) {Batch : Type 0} (bt : Batches Batch) where
  -- The outcome is a stream, whether or not the push failed.
  abbrev pub Ends : (Stream sp bt → Type 0) → Pushed sp bt → Type 0
  Ends P (done s) = P s
  Ends P (failed e s) = P s
  Ends P stuck = ⊥

  wait-Ends :
      (s : Stream sp bt) (batch : Batch)
      → IsSafe sp bt s
      → Ends (Added sp bt s (batch ∷ [])) (wait sp bt s batch)
  unfolding wait
  wait-Ends s batch h =
      let s' = flush sp bt s in
      let (safe, same, none_left, none_held) = flush-Flushed sp bt s h in
      let only_uploads : IsSound sp s'.budget (sum s'.inflight) =
        subst (IsSound sp s'.budget) (rw none_held (add-zero _)) safe.sound in
      let (r, rest, budget, e, sound) =
        reserve_ends sp s'.inflight s'.budget (bt.memory_size batch) only_uploads in
      let t : Stream sp bt = record s' { budget = budget; inflight = rest } in
      let (safe', all) =
        add-Added sp bt t batch r (rw none_held (subst (IsSound sp budget) (omega arith) sound))
          safe.consistent in
      subst (λ o. Ends (Added sp bt s (batch ∷ [])) (waited sp bt s' batch o)) (sym e)
        (safe', all ∙ ap (λ (xs : List Batch). xs ++ batch ∷ []) same)

  upload-Ends :
      (s : Stream sp bt) (batch : Batch)
      → IsSafe sp bt s
      → Ends (Added sp bt s (batch ∷ [])) (upload sp bt s batch)
  unfolding upload
  upload-Ends s batch h = elim (Option-cases (try_reserve sp s.budget (bt.memory_size batch))) [
    | inl e ↦ rw e (wait-Ends s batch h)
    | inr ((r, budget), e) ↦
        let t : Stream sp bt = record s { budget = budget } in
        let sound =
          try_reserve-IsSound sp s.budget (held sp bt s) (bt.memory_size batch) (r, budget) h.sound
            e in
        rw e (add-Added sp bt t batch r sound h.consistent)
  ]

  -- What the guard leaves of a batch to be written.
  abbrev left_by : Text ⊎ Filtered Batch → List Batch
  left_by (inl e) = []
  left_by (inr f) = if bt.num_rows f.batch == 0 then [] else f.batch ∷ []

  abbrev kept_by : Batch → Option (Batch → Text ⊎ Filtered Batch) → List Batch
  kept_by batch none = batch ∷ []
  kept_by batch (some filter) = left_by (filter batch)

  abbrev pub accepted : Batch → List Batch
  accepted batch = kept_by batch bt.filter

  observed-IsSafe :
      (s : Stream sp bt) (batch : Batch)
      → IsSafe sp bt s
      → IsSafe sp bt (observed sp bt s batch s.tracker)
        × (delivered sp bt (observed sp bt s batch s.tracker) ≡ delivered sp bt s)
  observed-IsSafe s batch h = ground arith

  counted-Added :
      (s : Stream sp bt) (rows : List NullRows)
      → IsSafe sp bt s
      → Added sp bt s [] (count_null_rows sp bt s rows)
  unfolding count_null_rows Buffer.note_null_rows
  counted-Added s rows h =
      let noted : Stream sp bt = record s { buffer = Buffer.note_null_rows s.buffer rows } in
      let warned : Stream sp bt = record s { warned = s.warned ++ rows } in
      elim (if_either s.buffer.deferred noted warned) [
        | inr e ↦ subst (Added sp bt s []) (sym e) (
          record {
            sound = h.sound;
            consistent = record {
              reserved = h.consistent.reserved;
              sized = h.consistent.sized;
              counted = h.consistent.counted;
            };
          },
          sym (append-nil _),
        )
        | inl e ↦
            subst (Added sp bt s []) (sym e)
              (record { sound = h.sound; consistent = h.consistent }, sym (append-nil _))
      ]

  Ends-mono :
      (P Q : Stream sp bt → Type 0) (o : Pushed sp bt)
      → ((t : Stream sp bt) → P t → Q t)
      → Ends P o
      → Ends Q o
  Ends-mono P Q (done s) f h = f s h
  Ends-mono P Q (failed e s) f h = f s h
  Ends-mono P Q stuck f h = h

  Added-trans :
      (s t u : Stream sp bt) (xs : List Batch)
      → delivered sp bt t ≡ delivered sp bt s
      → Added sp bt t xs u
      → Added sp bt s xs u
  Added-trans s t u xs same (safe, all) = (safe, all ∙ ap (λ (ys : List Batch). ys ++ xs) same)

  guarded-Ends :
      (s : Stream sp bt) (result : Text ⊎ Filtered Batch)
      → IsSafe sp bt s
      → Ends (Added sp bt s (left_by result)) (guarded sp bt s result)
  guarded-Ends s (inl e) h = (h, sym (append-nil _))
  guarded-Ends s (inr f) h =
      let (safe, same) = counted-Added s f.tallies h in
      elim (Bool-cases (bt.num_rows f.batch == 0)) [
        | inl e ↦ rw e (safe, same)
        | inr e ↦
            let s' = count_null_rows sp bt s f.tallies in
            rw e (
              Ends-mono (Added sp bt s' (f.batch ∷ [])) (Added sp bt s (f.batch ∷ []))
                (upload sp bt s' f.batch)
                (λ t. Added-trans s s' t (f.batch ∷ []) (same ∙ append-nil _))
                (upload-Ends s' f.batch safe))
      ]

  through_guard-Ends :
      (s : Stream sp bt) (batch : Batch) (filter : Option (Batch → Text ⊎ Filtered Batch))
      → IsSafe sp bt s
      → Ends (Added sp bt s (kept_by batch filter)) (through_guard sp bt s batch filter)
  through_guard-Ends s batch none h = upload-Ends s batch h
  through_guard-Ends s batch (some filter) h = guarded-Ends s (filter batch) h

  -- From a stream whose memory is accounted for, a push ends, with or without the guard's error,
  -- and never waits forever; the memory is accounted for after it, and what is handed to uploads or
  -- buffered is what was before, and behind it what the guard leaves of the batch.
  pub push_batch-Added :
      (s : Stream sp bt) (batch : Batch)
      → IsSafe sp bt s
      → Ends (Added sp bt s (accepted batch)) (push_batch sp bt s batch)
  unfolding push_batch
  push_batch-Added s batch h =
      let s' = observed sp bt s batch s.tracker in
      let (safe, same) = observed-IsSafe s batch h in
      Ends-mono (Added sp bt s' (accepted batch)) (Added sp bt s (accepted batch))
        (push_batch sp bt s batch) (λ t. Added-trans s s' t (accepted batch) same)
        (through_guard-Ends s' batch bt.filter safe)
