-- ===== src/Upload.antt =====
-- sync.rs: `SendCtx::push_batch`, `flush` and `report_null_rows`, and `ReadOut` between windows, for
-- one stream of a read. An upload task is what it holds of the budget until it ends; those that a
-- wait ends, it ends in the order in which they were started. The schemas that go with the batches
-- and the progress callback are not modelled.
pub mod Flush
pub mod Delivery
pub mod Reading
pub mod Quiet
pub mod Watermark
pub mod Tests
use quickhouse.Prelude.{
  ℕ, ◌+◌, ◌⊎◌, inl, inr, Option, none, some, List, [], ◌∷◌, ◌++◌, sum, ◌==◌, if◌then◌else◌,
}
use quickhouse.Prelude.Text.{Text}
use quickhouse.Tracker.{WatermarkTracker, Values, observe}
use quickhouse.Memory.{Semaphore, MemoryBudget, try_reserve, reserve, drop_reservation}
use quickhouse.Buffer
use quickhouse.Buffer.{InsertBuffer, BufferMark, NullRows}

-- What `NullGuard::filter` leaves of a batch, with its tallies.
pub record Filtered (Batch : Type 0) : Type 0 where
  pub batch : Batch
  pub tallies : List NullRows

-- What the readers ask of a batch, and the run's guard. An error is its message.
pub record Batches (Batch : Type 0) : Type 0 where
  pub memory_size : Batch → ℕ
  pub num_rows : Batch → ℕ
  pub column : ℕ → Batch → Values
  pub filter : Option (Batch → Text ⊎ Filtered Batch)

module _ (sp : Semaphore) {Batch : Type 0} (bt : Batches Batch) where
  pub record Stream : Type 0 where
    pub tracker : Option WatermarkTracker
    pub budget : MemoryBudget sp
    pub buffer : InsertBuffer Batch
    -- the permits that each upload in flight holds
    pub inflight : List ℕ
    -- the groups handed to uploads, in order
    pub spawned : List (List Batch)
    -- the calls of `Warnings::null_rows`, in order
    pub warned : List NullRows

  -- `stuck` is a wait that nothing ends.
  pub data Pushed : Type 0 where
    done : Stream → Pushed
    failed : Text → Stream → Pushed
    stuck : Pushed

  unfoldable pub flush : Stream → Stream
  flush s =
      let (batches, reservations, rest) = Buffer.take_all s.buffer in
      if Buffer.is_empty s.buffer then s else record s {
        buffer = rest;
        inflight = s.inflight ++ sum reservations ∷ [];
        spawned = s.spawned ++ batches ∷ [];
      }

  -- `if buffer.push(..) { self.flush(..) }`
  pub add : Stream → Batch → ℕ → Stream
  unfolding flush
  add s batch reservation =
      let (buffer, send) = Buffer.push s.buffer batch reservation (bt.memory_size batch) in
      let s' = record s { buffer = buffer } in if send then flush s' else s'

  abbrev waited : Stream → Batch → Option (ℕ × List ℕ × MemoryBudget sp) → Pushed
  waited s batch none = stuck
  waited s batch (some (r, inflight, budget)) =
      done (add (record s { budget = budget; inflight = inflight }) batch r)

  wait : Stream → Batch → Pushed
  unfolding flush add
  wait s batch =
      let s' = flush s in waited s' batch (reserve sp s'.inflight s'.budget (bt.memory_size batch))

  abbrev reserved : Stream → Batch → Option (ℕ × MemoryBudget sp) → Pushed
  reserved s batch none = wait s batch
  reserved s batch (some (r, budget)) = done (add (record s { budget = budget }) batch r)

  -- `push_batch` behind the guard.
  upload : Stream → Batch → Pushed
  unfolding wait add
  upload s batch = reserved s batch (try_reserve sp s.budget (bt.memory_size batch))

  abbrev observed : Stream → Batch → Option WatermarkTracker → Stream
  observed s batch none = s
  observed s batch (some t) = record s { tracker = some (observe t (bt.column t.idx batch)) }

  count_null_rows : Stream → List NullRows → Stream
  count_null_rows s rows =
      if s.buffer.deferred
      then record s { buffer = Buffer.note_null_rows s.buffer rows }
      else record s { warned = s.warned ++ rows }

  abbrev guarded : Stream → Text ⊎ Filtered Batch → Pushed
  guarded s (inl e) = failed e s
  guarded s (inr f) =
      let s' = count_null_rows s f.tallies in
      if bt.num_rows f.batch == 0 then done s' else upload s' f.batch

  abbrev through_guard : Stream → Batch → Option (Batch → Text ⊎ Filtered Batch) → Pushed
  through_guard s batch none = upload s batch
  through_guard s batch (some filter) = guarded s (filter batch)

  unfoldable pub push_batch : Stream → Batch → Pushed
  unfolding upload count_null_rows
  push_batch s batch = through_guard (observed s batch s.tracker) batch bt.filter

  unfoldable pub report_null_rows : Stream → Stream
  report_null_rows s =
      let (rows, buffer) = Buffer.drain_null_rows s.buffer in
      record s { buffer = buffer; warned = s.warned ++ rows }

  -- `ReadOut::between_windows`, once a statement has run; the failure of an insert that it would
  -- surface is not modelled.
  unfoldable pub between_windows : Stream → Stream
  unfolding report_null_rows flush
  between_windows s = let s' = report_null_rows s in if Buffer.full s'.buffer then flush s' else s'

  -- `ReadOut::finish`, but for the wait on the uploads.
  unfoldable pub finish : Stream → Stream
  unfolding report_null_rows flush
  finish s = flush (report_null_rows s)
