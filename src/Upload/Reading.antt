-- ===== src/Upload/Reading.antt =====
-- A whole read: every batch that the guard leaves goes to one upload, in order.
use quickhouse.Prelude.{
  ◌≡◌, sym, ap, subst, ◌∙◌, ◌≢◌, List, [], ◌∷◌, ◌++◌, append-nil, append_assoc,
}
use quickhouse.Memory.{Semaphore}
use quickhouse.Buffer
use quickhouse.Buffer.{InsertBuffer, NullRows}
use quickhouse.Upload.{
  Batches, Stream, Pushed, done, failed, stuck, push_batch, report_null_rows, finish,
}
use quickhouse.Upload.Flush.{flat, IsSafe, delivered, Flushed, flush-Flushed, Added}
use quickhouse.Upload.Delivery.{Ends, accepted, push_batch-Added}

module _ (sp : Semaphore) {Batch : Type 0} (bt : Batches Batch) where
  -- A reader pushes its batches one after another, and stops at an error.
  abbrev pub continue : (Stream sp bt → Pushed sp bt) → Pushed sp bt → Pushed sp bt
  continue k (done s) = k s
  continue k (failed e s) = failed e s
  continue k stuck = stuck

  unfoldable pub push_all : Stream sp bt → List Batch → Pushed sp bt
  push_all s [] = done s
  push_all s (b ∷ bs) = continue (λ s'. push_all s' bs) (push_batch sp bt s b)

  abbrev pub accepted_all : List Batch → List Batch
  accepted_all [] = []
  accepted_all (b ∷ bs) = accepted sp bt b ++ accepted_all bs

  -- The reading either ends with everything accepted sp bt, or with an error.
  abbrev pub Reads : Stream sp bt → List Batch → Pushed sp bt → Type 0
  Reads s xs (done t) = Added sp bt s xs t
  Reads s xs (failed e t) = IsSafe sp bt t
  Reads s xs stuck = ⊥

  continue-Reads :
      (s : Stream sp bt) (b : Batch) (xs : List Batch) (k : Stream sp bt → Pushed sp bt)
      (o : Pushed sp bt)
      → ((t : Stream sp bt) → IsSafe sp bt t → Reads t xs (k t))
      → Ends sp bt (Added sp bt s (accepted sp bt b)) o
      → Reads s (accepted sp bt b ++ xs) (continue k o)
  continue-Reads s b xs k (failed e t) rest (safe, _) = safe
  continue-Reads s b xs k stuck rest h = h
  continue-Reads s b xs k (done t) rest (safe, all) = further (k t) (rest t safe)
    where
      further : (o : Pushed sp bt) → Reads t xs o → Reads s (accepted sp bt b ++ xs) o
      further (done u) (safe', all') = (
        safe',
        all'
            ∙ ap (λ (ys : List Batch). ys ++ xs) all
            ∙ append_assoc (delivered sp bt s) (accepted sp bt b) xs,
      )
      further (failed e u) h = h
      further stuck h = h

  pub push_all-Reads :
      (s : Stream sp bt) (bs : List Batch)
      → IsSafe sp bt s
      → Reads s (accepted_all bs) (push_all s bs)
  unfolding push_all
  push_all-Reads s [] h = (h, sym (append-nil _))
  push_all-Reads s (b ∷ bs) h =
      continue-Reads s b (accepted_all bs) (λ t. push_all t bs) (push_batch sp bt s b)
        (λ t safe. push_all-Reads t bs safe) (push_batch-Added sp bt s b h)

  finish-Flushed : (s : Stream sp bt) → IsSafe sp bt s → Flushed sp bt s (finish sp bt s)
  unfolding finish report_null_rows Buffer.drain_null_rows
  finish-Flushed s h = flush-Flushed sp bt (report_null_rows sp bt s) (record {
    sound = h.sound;
    consistent = record {
      reserved = h.consistent.reserved;
      sized = h.consistent.sized;
      counted = h.consistent.counted;
    };
  })

  read_of :
      (s : Stream sp bt) (bs : List Batch) (o : Pushed sp bt)
      → Reads s (accepted_all bs) o
      → (o ≢ stuck) × ((t : Stream sp bt) → o ≡ done t → Added sp bt s (accepted_all bs) t)
  read_of s bs (done t) h = (λ e. cc, λ u e. subst (Reads s (accepted_all bs)) e h)
  read_of s bs (failed x t) h = (λ e. cc, λ u e. cc)
  read_of s bs stuck h = absurd h

  -- From a stream whose memory is accounted for, reading any batches never waits forever. When it
  -- ends without an error, the final flush leaves nothing buffered, and the uploads were handed, in
  -- order and once each, the batches before, those buffered, and what the guard leaves of each read.
  pub read_delivers :
      (s : Stream sp bt) (bs : List Batch)
      → IsSafe sp bt s
      → (push_all s bs ≢ stuck)
        × ((t : Stream sp bt)
            → push_all s bs ≡ done t
            → ((finish sp bt t).buffer.batches ≡ [])
              × (flat (finish sp bt t).spawned
                  ≡ flat s.spawned ++ s.buffer.batches ++ accepted_all bs))
  read_delivers s bs h =
      let (ends, reads) = read_of s bs (push_all s bs) (push_all-Reads s bs h) in
      (ends, λ t e. ended t (reads t e))
    where
      ended :
          (t : Stream sp bt)
          → Added sp bt s (accepted_all bs) t
          → ((finish sp bt t).buffer.batches ≡ [])
            × (flat (finish sp bt t).spawned
                ≡ flat s.spawned ++ s.buffer.batches ++ accepted_all bs)
      ended t (safe, all) =
          let (_, same, empty, _) = finish-Flushed t safe in
          let spawned : flat (finish sp bt t).spawned ++ [] ≡ delivered sp bt t =
            rw empty at same in
          (empty, sym (append-nil _) ∙ spawned ∙ all)
