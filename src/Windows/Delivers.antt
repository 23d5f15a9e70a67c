-- ===== src/Windows/Delivers.antt =====
-- With memory not limited, a sweep delivers the rows of its windows once.
use quickhouse.Prelude.{
  ℕ, ◌≡◌, refl, sym, ap, subst, ◌∙◌, ◌⊎◌, inl, inr, Bool, none, List, [], ◌∷◌, ◌++◌, append-nil,
  append_assoc, Bool-cases, ◌<ℤ◌, i64_min,
}
use quickhouse.Prelude.Text.{Text}
use quickhouse.Prelude.Float.{Floats}
use quickhouse.Memory.{Semaphore, MemoryBudget, drop_reservation, put_back}
use quickhouse.Partitions.{Partition}
use quickhouse.Buffer
use quickhouse.Buffer.{InsertBuffer}
use quickhouse.Buffer.Rollback.{reserved_by, truncate-mark_quiet}
use quickhouse.Upload.{
  Batches, Stream, Pushed, done, failed, stuck, flush, between_windows, report_null_rows,
}
use quickhouse.Upload.Flush.{IsSafe, delivered, Added, flush-Flushed}
use quickhouse.Upload.Reading
use quickhouse.Upload.Reading.{push_all, accepted_all, push_all-Reads}
use quickhouse.Upload.Quiet.{IsQuiet, Fills, Fills-IsQuiet, EndsFilled, push_all-Filled}
use quickhouse.Sweep.{ran, err, WindowPlan, sweep}
use quickhouse.Sweep.Laws.{IsSized, Reads, EndsWell}
use quickhouse.Sweep.Reads.{wanted, sweep_reads_once}
use quickhouse.Windows.{Answer, ended, drop_all, roll_back, stream_reader}

module _ (sp : Semaphore) {Batch : Type 0} (bt : Batches Batch) (fl : Floats)
    (source : ℕ → Partition → Answer sp bt fl) (contents : Partition → List Batch)
    (first : List Batch) where
  -- Whenever a statement ends well, its batches are what the partition contains.
  abbrev pub IsFaithful : Type 0
  IsFaithful =
      (n : ℕ) (part : Partition) (bs : List Batch) (secs : fl.F)
      → source n part ≡ (bs, inl secs)
      → accepted_all sp bt bs ≡ contents part

  abbrev pub contents_all : List Partition → List Batch
  contents_all [] = []
  contents_all (p ∷ ps) = contents p ++ contents_all ps

  contents_all-snoc :
      (ps : List Partition) (p : Partition)
      → contents_all (ps ++ p ∷ []) ≡ contents_all ps ++ contents p
  contents_all-snoc [] p = append-nil (contents p)
  contents_all-snoc (q ∷ ps) p = rw (contents_all-snoc ps p, append_assoc) refl

  -- The stream holds, sent or buffered, what it had first and what the partitions contain.
  pub record Holds (ps : List Partition) (s : Stream sp bt) : Type 0 where
    pub safe : IsSafe sp bt s
    pub quiet : IsQuiet sp bt s
    pub all : delivered sp bt s ≡ first ++ contents_all ps

  drop_one : (b : MemoryBudget sp) (r : ℕ) → b.sem ≡ none → drop_reservation sp b r ≡ b
  unfolding drop_reservation
  drop_one b r h = subst (λ o. put_back sp b r o ≡ b) (sym h) refl

  drop_all_unlimited :
      (b : MemoryBudget sp) (rs : List ℕ) → b.sem ≡ none → drop_all sp bt fl b rs ≡ b
  drop_all_unlimited b [] h = refl
  drop_all_unlimited b (r ∷ rs) h =
      ap (λ (x : MemoryBudget sp). drop_all sp bt fl x rs) (drop_one b r h)
      ∙ drop_all_unlimited b rs h

  -- `s`, but for what a failed statement leaves: the watermark it met and its warnings.
  restored : Stream sp bt → Stream sp bt → Stream sp bt
  restored s t = record t {
    buffer = s.buffer;
    budget = s.budget;
    inflight = s.inflight;
    spawned = s.spawned;
  }

  restored-Holds : (ps : List Partition) (s t : Stream sp bt) → Holds ps s → Holds ps (restored s t)
  unfolding restored
  restored-Holds ps s t h = record {
    safe = record { sound = h.safe.sound; consistent = h.safe.consistent };
    quiet = record { unlimited = h.quiet.unlimited; deferred = h.quiet.deferred };
    all = h.all;
  }

  roll_back-Fills :
      (s t : Stream sp bt)
      → IsSafe sp bt s
      → IsQuiet sp bt s
      → Fills sp bt s t
      → roll_back sp bt fl s t ≡ restored s t
  unfolding roll_back restored
  roll_back-Fills s t safe quiet f =
      let q = Fills-IsQuiet sp bt s t f quiet in
      let back =
        ap (λ (b : InsertBuffer Batch). Buffer.truncate b (Buffer.mark s.buffer)) f.buffer
        ∙ truncate-mark_quiet s.buffer f.cs safe.consistent f.kept in
      let budget = drop_all_unlimited t.budget (reserved_by f.cs) q.unlimited ∙ f.budget in
      rw (back, budget, f.inflight, f.spawned) refl

  rolled-Holds :
      (ps : List Partition) (s t : Stream sp bt)
      → Fills sp bt s t
      → Holds ps s
      → Holds ps (roll_back sp bt fl s t)
  rolled-Holds ps s t f h =
      subst (Holds ps) (sym (roll_back-Fills s t h.safe h.quiet f)) (restored-Holds ps s t h)

  -- A statement that ends well adds what its partition contains.
  ended-ran :
      (s s' : Stream sp bt) (end : fl.F ⊎ (Bool × Text)) (secs : fl.F) (o : Pushed sp bt)
      → ended sp bt fl s end o ≡ ran secs s'
      → (o ≡ done s') × (end ≡ inl secs)
  ended-ran s s' end secs stuck h = absurd cc
  ended-ran s s' end secs (failed e t) h = absurd cc
  ended-ran s s' (inl x) secs (done t) h = (cc, cc)
  ended-ran s s' (inr (transient, e)) secs (done t) h = absurd cc

  ended-err :
      (s s' : Stream sp bt) (end : fl.F ⊎ (Bool × Text)) (transient : Bool) (e : Text)
      (o : Pushed sp bt)
      → EndsFilled sp bt s o
      → ended sp bt fl s end o ≡ err transient e s'
      → Fills sp bt s s'
  ended-err s s' end transient e stuck f h = absurd f
  ended-err s s' end transient e (failed x t) f h =
      let same : t ≡ s' = cc in subst (Fills sp bt s) same f
  ended-err s s' (inl x) transient e (done t) f h = absurd cc
  ended-err s s' (inr (y, x)) transient e (done t) f h =
      let same : t ≡ s' = cc in subst (Fills sp bt s) same f

  flush-IsQuiet : (s : Stream sp bt) → IsQuiet sp bt s → IsQuiet sp bt (flush sp bt s)
  unfolding flush Buffer.take_all
  flush-IsQuiet s q = elim (Bool-cases (Buffer.is_empty s.buffer)) [
    | inl e ↦ rw e q
    | inr e ↦ rw e (record { unlimited = q.unlimited; deferred = q.deferred })
  ]

  flush-Holds : (ps : List Partition) (s : Stream sp bt) → Holds ps s → Holds ps (flush sp bt s)
  flush-Holds ps s h =
      let (safe, same, _, _) = flush-Flushed sp bt s h.safe in
      record { safe = safe; quiet = flush-IsQuiet s h.quiet; all = same ∙ h.all }

  reported-Holds :
      (ps : List Partition) (s : Stream sp bt) → Holds ps s → Holds ps (report_null_rows sp bt s)
  unfolding report_null_rows Buffer.drain_null_rows
  reported-Holds ps s h = record {
    safe = record {
      sound = h.safe.sound;
      consistent = record {
        reserved = h.safe.consistent.reserved;
        sized = h.safe.consistent.sized;
        counted = h.safe.consistent.counted;
      };
    };
    quiet = record { unlimited = h.quiet.unlimited; deferred = h.quiet.deferred };
    all = h.all;
  }

  between-Holds :
      (ps : List Partition) (s : Stream sp bt) → Holds ps s → Holds ps (between_windows sp bt s)
  unfolding between_windows
  between-Holds ps s h =
      let s' = report_null_rows sp bt s in
      let h' = reported-Holds ps s h in
      elim (Bool-cases (Buffer.full s'.buffer)) [
        | inl e ↦ rw e (flush-Holds ps s' h')
        | inr e ↦ rw e h'
      ]

  ran-Holds :
      (ps : List Partition) (s s' : Stream sp bt) (part : Partition) (bs : List Batch)
      → Holds ps s
      → push_all sp bt s bs ≡ done s'
      → accepted_all sp bt bs ≡ contents part
      → Holds (ps ++ part ∷ []) s'
  ran-Holds ps s s' part bs h e same =
      let (safe, grown) = added (push_all sp bt s bs) (push_all-Reads sp bt s bs h.safe) e in
      record {
        safe = safe;
        quiet =
            Fills-IsQuiet sp bt s s'
              (filled (push_all sp bt s bs) (push_all-Filled sp bt s bs h.quiet) e) h.quiet;
        all =
            grown
            ∙ rw (same, h.all) (append_assoc first (contents_all ps) (contents part))
            ∙ ap (λ (xs : List Batch). first ++ xs) (sym (contents_all-snoc ps part));
      }
    where
      added :
          (o : Pushed sp bt)
          → Reading.Reads sp bt s (accepted_all sp bt bs) o
          → o ≡ done s'
          → Added sp bt s (accepted_all sp bt bs) s'
      added o r q = subst (Reading.Reads sp bt s (accepted_all sp bt bs)) q r

      filled : (o : Pushed sp bt) → EndsFilled sp bt s o → o ≡ done s' → Fills sp bt s s'
      filled o f q = subst (EndsFilled sp bt s) q f

  stream-Reads : IsFaithful → Reads fl (stream_reader sp bt fl source) Holds
  unfolding stream_reader
  stream-Reads faithful = record {
    on_ran = λ ps s n part secs s' h e.
        let (pushed, end) =
          ended-ran s s' (source n part).1 secs (push_all sp bt s (source n part).0) e in
        ran-Holds ps s s' part (source n part).0 h pushed
          (faithful n part (source n part).0 secs (ap (λ x. ((source n part).0, x)) end));
    on_between = between-Holds;
    on_err = λ ps s n part transient x s' h e.
        rolled-Holds ps s s'
          (ended-err s s' (source n part).1 transient x (push_all sp bt s (source n part).0)
            (push_all-Filled sp bt s (source n part).0 h.quiet) e)
          h;
  }

  -- For a sized plan whose span starts above the least i64, memory that is not limited, and a source
  -- whose statements, when they end well, give what their partition contains, the sweep ends: with
  -- an error that a statement ended with, or with the stream having sent or buffered, behind what
  -- it had first, the contents of partitions that read each row of the span once and no other row.
  -- Windows that failed have left nothing behind.
  pub sweep_delivers :
      (plan : WindowPlan fl) (partition : Partition) (s : Stream sp bt)
      → IsSized fl plan
      → IsFaithful
      → i64_min <ℤ plan.min
      → Holds [] s
      → EndsWell fl
          (stream_reader sp bt fl source)
          Holds
          (wanted plan.min plan.max plan.nullable_key plan.col_quoted partition)
          (sweep fl (stream_reader sp bt fl source) plan partition s)
  sweep_delivers plan partition s sized faithful above h =
      sweep_reads_once fl (stream_reader sp bt fl source) plan partition Holds s sized
        (stream-Reads faithful) above h
