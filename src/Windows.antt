-- ===== src/Windows.antt =====
-- sync.rs: the sweep of a partition over one stream of batches, `sweeping_partition` with `push_batch`
-- and the buffer. What the source answers to a statement is a parameter; a window that failed drops
-- its connection, which is not state here.
pub mod Delivers
pub mod Tests
use quickhouse.Prelude.{ℕ, ◌⊎◌, inl, inr, Bool, true, false, List, [], ◌∷◌}
use quickhouse.Prelude.Text.{Text, codes}
use quickhouse.Prelude.Float.{Floats}
use quickhouse.Memory.{Semaphore, MemoryBudget, drop_reservation}
use quickhouse.Partitions.{Partition}
use quickhouse.Buffer
use quickhouse.Upload.{Batches, Stream, Pushed, done, failed, stuck, between_windows}
use quickhouse.Upload.Reading.{push_all}
use quickhouse.Sweep.{Reader, Ran, ran, err}

module _ (sp : Semaphore) {Batch : Type 0} (bt : Batches Batch) (fl : Floats) where
  -- The batches that a statement gives, and how it ends: after so many seconds, or with an error
  -- that may be transient.
  abbrev pub Answer : Type 0
  Answer = List Batch × (fl.F ⊎ (Bool × Text))

  -- The error of a guard is not transient; `stuck` is a wait that nothing ends.
  abbrev pub ended : Stream sp bt → fl.F ⊎ (Bool × Text) → Pushed sp bt → Ran fl (Stream sp bt)
  ended s end stuck = err false (codes "stuck") s
  ended s end (failed e t) = err false e t
  ended s (inl secs) (done t) = ran secs t
  ended s (inr (transient, e)) (done t) = err transient e t

  abbrev pub drop_all : MemoryBudget sp → List ℕ → MemoryBudget sp
  drop_all b [] = b
  drop_all b (r ∷ rs) = drop_all (drop_reservation sp b r) rs

  -- `out.insert_buf.truncate(mark)`
  unfoldable pub roll_back : Stream sp bt → Stream sp bt → Stream sp bt
  roll_back before s =
      let (buffer, dropped) = Buffer.truncate s.buffer (Buffer.mark before.buffer) in
      record s { buffer = buffer; budget = drop_all s.budget dropped }

  unfoldable pub stream_reader : (ℕ → Partition → Answer) → Reader fl (Stream sp bt)
  unfolding roll_back
  stream_reader source = record {
    run = λ n part s. ended s (source n part).1 (push_all sp bt s (source n part).0);
    between = λ s. between_windows sp bt s;
    roll_back = roll_back;
  }
