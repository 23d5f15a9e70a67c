-- ===== src/Upload/Tests.antt =====
-- Tests of `push_batch` and the uploads of a stream.
use quickhouse.Prelude.{
  ℤ, pos, i64_min, max_ℤ, true, ℕ, ◌≡◌, ◌≢◌, refl, ◌⊎◌, inr, none, some, [], ◌∷◌, ◌++◌, arith,
  false, ◌==◌, if◌then◌else◌,
}
use quickhouse.Tracker.{WatermarkTracker, observe, fold_max}
use quickhouse.Units.{int}
use quickhouse.Tracker.Fold.{IsMax, values}
use quickhouse.Buffer
use quickhouse.Upload.{count_null_rows}
use quickhouse.Upload.Watermark.{push_all-IsMax}
use quickhouse.Prelude.Text.{Text, codes}
use quickhouse.Kinds.{WarningKind}
use quickhouse.Samples.{counter}
use quickhouse.Upload.{Batches, Filtered, Stream, done, stuck, push_batch, finish}
use quickhouse.Upload.Flush.{flat, IsSafe, Added}
use quickhouse.Upload.Delivery.{Ends, accepted, push_batch-Added}
use quickhouse.Upload.Reading.{push_all, accepted_all, read_delivers}

-- A batch is its number of bytes, and has as many rows; the guard drops those of 13.
drop_13 : ℕ → Text ⊎ Filtered ℕ
drop_13 b = inr (record {
  batch = if b == 13 then 0 else b;
  tallies = if b == 13 then (WarningKind.null_key, codes "id", 13) ∷ [] else [];
})

abbrev sized : Batches ℕ
sized = record {
  memory_size = λ b. b;
  num_rows = λ b. b;
  column = λ i b. none;
  filter = some drop_13;
}

-- 40 of a budget of 100 bytes are buffered, 30 are in an upload.
abbrev begun : Stream counter sized
begun = record {
  tracker = none;
  budget = record { sem = some 30; total = 100 };
  buffer = record {
    batches = 40 ∷ [];
    reservations = 40 ∷ [];
    sizes = 40 ∷ [];
    bytes = 40;
    target = 64;
    takes = 1;
    deferred = false;
    null_rows = [];
  };
  inflight = 30 ∷ [];
  spawned = (30 ∷ []) ∷ [];
  warned = [];
}

begun-IsSafe : IsSafe counter sized begun
begun-IsSafe = record {
  sound = inr (refl, omega arith, (30, refl));
  consistent = record { reserved = refl; sized = refl; counted = refl };
}

push_batch-Added_example :
    Ends counter sized
      (Added counter sized begun (accepted counter sized 50))
      (push_batch counter sized begun 50)
push_batch-Added_example = push_batch-Added counter sized begun 50 begun-IsSafe

read_delivers_example :
    (push_all counter sized begun (13 ∷ 50 ∷ 90 ∷ []) ≢ stuck)
    × ((t : Stream counter sized)
        → push_all counter sized begun (13 ∷ 50 ∷ 90 ∷ []) ≡ done t
        → ((finish counter sized t).buffer.batches ≡ [])
          × (flat (finish counter sized t).spawned
              ≡ flat begun.spawned
                ++ begun.buffer.batches
                ++ accepted_all counter sized (13 ∷ 50 ∷ 90 ∷ [])))
read_delivers_example = read_delivers counter sized begun (13 ∷ 50 ∷ 90 ∷ []) begun-IsSafe

-- The watermark of a batch is its size, so that the batch that the guard drops counts too.
abbrev marked : Batches ℕ
marked = record {
  memory_size = λ b. b;
  num_rows = λ b. b;
  column = λ i b. some (some (pos b) ∷ none ∷ []);
  filter = some drop_13;
}

abbrev reading : ℤ → Stream counter marked
reading max = record {
  tracker = some (record { idx = 0; unit = int; max = max });
  budget = record { sem = none; total = 0 };
  buffer = record {
    batches = [];
    reservations = [];
    sizes = [];
    bytes = 0;
    target = 64;
    takes = 0;
    deferred = true;
    null_rows = [];
  };
  inflight = [];
  spawned = [];
  warned = [];
}

abbrev emptied : Stream counter marked
emptied = record (reading (pos 13)) {
  buffer = record (reading (pos 13)).buffer {
    null_rows = (WarningKind.null_key, codes "id", 13) ∷ [];
  };
}

push_all-IsMax_example :
    (w : WatermarkTracker) × (emptied.tracker ≡ some w)
    × IsMax i64_min (values (some (some (pos 13) ∷ none ∷ []) ∷ [])) w.max
unfolding push_all push_batch drop_13 count_null_rows observe fold_max max_ℤ Buffer.note_null_rows
push_all-IsMax_example =
    push_all-IsMax counter marked (reading i64_min) (13 ∷ [])
      (record { idx = 0; unit = int; max = i64_min }) emptied refl (omega arith) refl
