-- ===== src/Windows/Tests.antt =====
-- Tests of a sweep over a stream.
use quickhouse.Prelude.{
  ℕ, ◌≡◌, refl, ap, inl, inr, Bool, true, none, List, [], ◌∷◌, arith, ◌==◌, if◌then◌else◌, pos,
}
use quickhouse.Prelude.Text.{codes}
use quickhouse.Samples.{whole, counter, id_col}
use quickhouse.Partitions.{Partition}
use quickhouse.Upload.{Batches, Stream}
use quickhouse.Upload.Reading.{accepted_all}
use quickhouse.Sweep.{WindowPlan, sweep}
use quickhouse.Sweep.Laws.{IsSized, EndsWell}
use quickhouse.Sweep.Reads.{wanted}
use quickhouse.Windows.{Answer, stream_reader}
use quickhouse.Windows.Delivers.{IsFaithful, Holds, sweep_delivers}

-- A batch is the partition that it was read for.
abbrev named : Batches Partition
named = record { memory_size = λ b. 8; num_rows = λ b. 1; column = λ i b. none; filter = none }

answer : Bool → Partition → Answer counter named whole
answer slow part = (part ∷ [], if slow then inr (true, codes "cancelled") else inl 30)

-- The second statement is cancelled after it gave its rows.
abbrev source : ℕ → Partition → Answer counter named whole
source n part = answer (n == 1) part

source-IsFaithful : IsFaithful counter named whole source (λ p. p ∷ []) []
unfolding answer
source-IsFaithful n part bs secs e = faithful bs (ap (λ (x : Answer counter named whole). x.0) e)
  where
    faithful : (bs : List Partition) → part ∷ [] ≡ bs → accepted_all counter named bs ≡ part ∷ []
    faithful bs e = rw (← e) refl

abbrev plan : WindowPlan whole
plan = record {
  col_quoted = id_col;
  min = pos 1;
  max = pos 90000;
  start = 50000;
  max_step = 5000000;
  target_secs = 5;
  floor = 1000;
  nullable_key = true;
}

plan-IsSized : IsSized whole plan
plan-IsSized = record {
  floor_pos = omega arith;
  floor_start = omega arith;
  start_cap = omega arith;
  cap_fits = omega arith;
  min_fits = record { above = omega arith; below = omega arith };
  max_fits = record { above = omega arith; below = omega arith };
}

abbrev everything : Partition
everything = record { label = codes "full"; predicate = none }

abbrev opened : Stream counter named
opened = record {
  tracker = none;
  budget = record { sem = none; total = 0 };
  buffer = record {
    batches = [];
    reservations = [];
    sizes = [];
    bytes = 0;
    target = 16;
    takes = 0;
    deferred = true;
    null_rows = [];
  };
  inflight = [];
  spawned = [];
  warned = [];
}

opened-Holds : Holds counter named whole source (λ p. p ∷ []) [] [] opened
opened-Holds = record {
  safe = record {
    sound = inl (refl, refl);
    consistent = record { reserved = refl; sized = refl; counted = refl };
  };
  quiet = record { unlimited = refl; deferred = refl };
  all = refl;
}

sweep_delivers_example :
    EndsWell whole
      (stream_reader counter named whole source)
      (Holds counter named whole source (λ p. p ∷ []) [])
      (wanted (pos 1) (pos 90000) true id_col everything)
      (sweep whole (stream_reader counter named whole source) plan everything opened)
sweep_delivers_example =
    sweep_delivers counter named whole source (λ p. p ∷ []) [] plan everything opened plan-IsSized
      source-IsFaithful (omega arith) opened-Holds
