-- ===== src/Buffer.antt =====
-- sync.rs: `InsertBuffer`, the decoded batches of one partition that wait for an insert, and its
-- marks. A reservation is the number of permits that it holds; byte sums and counters are taken to
-- stay below 2^64.
pub mod Rollback
pub mod Tests
use quickhouse.Prelude.{
  ℕ, suc, ◌+◌, Bool, true, false, not, ◌&&◌, List, [], ◌∷◌, ◌++◌, min, leb, ◌==◌, if◌then◌else◌,
  length, take, drop, sum,
}
use quickhouse.Prelude.Text.{Text}
use quickhouse.Kinds.{WarningKind}

-- Rows that a NULL guard left out or defaulted, by kind and column.
abbrev pub NullRows : Type 0
NullRows = WarningKind × Text × ℕ

pub record InsertBuffer (Batch : Type 0) : Type 0 where
  pub batches : List Batch
  pub reservations : List ℕ
  pub sizes : List ℕ
  pub bytes : ℕ
  pub target : ℕ
  pub takes : ℕ
  pub deferred : Bool
  pub null_rows : List NullRows

pub record BufferMark : Type 0 where
  pub takes : ℕ
  pub len : ℕ
  pub null_rows : ℕ

module _ {Batch : Type 0} where
  unfoldable pub new : ℕ → InsertBuffer Batch
  new target = record {
    batches = [];
    reservations = [];
    sizes = [];
    bytes = 0;
    target = target;
    takes = 0;
    deferred = false;
    null_rows = [];
  }

  abbrev no_batches : List Batch → Bool
  no_batches [] = true
  no_batches (b ∷ bs) = false

  unfoldable pub is_empty : InsertBuffer Batch → Bool
  is_empty b = no_batches b.batches

  unfoldable pub full : InsertBuffer Batch → Bool
  full b = not (no_batches b.batches) && leb b.target b.bytes

  -- The flag says that the group is worth sending.
  unfoldable pub push : InsertBuffer Batch → Batch → ℕ → ℕ → InsertBuffer Batch × Bool
  push b batch reservation size = (
    record b {
      batches = b.batches ++ batch ∷ [];
      reservations = b.reservations ++ reservation ∷ [];
      sizes = b.sizes ++ size ∷ [];
      bytes = b.bytes + size;
    },
    not b.deferred && leb b.target (b.bytes + size),
  )

  unfoldable pub take_all : InsertBuffer Batch → List Batch × List ℕ × InsertBuffer Batch
  take_all b = (
    b.batches,
    b.reservations,
    record b { batches = []; reservations = []; sizes = []; bytes = 0; takes = b.takes + 1 },
  )

  unfoldable pub mark : InsertBuffer Batch → BufferMark
  mark b = record { takes = b.takes; len = length b.batches; null_rows = length b.null_rows }

  abbrev kept : InsertBuffer Batch → BufferMark → ℕ
  kept b m = if m.takes == b.takes then min m.len (length b.batches) else 0

  -- The buffer, and the reservations that are dropped with their batches.
  unfoldable pub truncate : InsertBuffer Batch → BufferMark → InsertBuffer Batch × List ℕ
  truncate b m =
      let keep = kept b m in
      (
        record b {
          batches = take keep b.batches;
          reservations = take keep b.reservations;
          sizes = take keep b.sizes;
          bytes = sum (take keep b.sizes);
          null_rows = take m.null_rows b.null_rows;
        },
        drop keep b.reservations,
      )

  -- `buffer.null_rows.push` and `buffer.null_rows.drain(..)`
  unfoldable pub note_null_rows : InsertBuffer Batch → List NullRows → InsertBuffer Batch
  note_null_rows b rows = record b { null_rows = b.null_rows ++ rows }

  unfoldable pub drain_null_rows : InsertBuffer Batch → List NullRows × InsertBuffer Batch
  drain_null_rows b = (b.null_rows, record b { null_rows = [] })
