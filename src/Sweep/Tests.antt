-- ===== src/Sweep/Tests.antt =====
-- Tests of the windowed read.
use quickhouse.Prelude.{
  ℕ, ◌-◌, saturating_sub_i64, saturate_i64, ◌-ℤ◌, ◌+ℤ◌, checked_i64, u64_as_i64, min_ℤ, max_ℤ, ◌^◌,
  ◌≡◌, refl, Bool, true, false, none, List, [], ◌∷◌, ◌++◌, arith, ◌==◌, if◌then◌else◌, ℤ, pos,
  negsuc, i64_min,
}
use quickhouse.Prelude.Text.{codes}
use quickhouse.Samples.{whole, id_col, keyed}
use quickhouse.Partitions.{Partition}
use quickhouse.Partitions.Cover.{times_read}
use quickhouse.Sweep.{
  WindowPlan, Reader, Ran, ran, err, sweep, sweep_loop, null_window, window_hi, window_part,
  next_window, plan_read_window,
}
use quickhouse.Sweep.Laws.{IsSized, Reads, EndsWell}
use quickhouse.Sweep.Reads.{wanted, sweep_reads_once, sweep_skips_least, plan_read_window-IsSized}

-- A state is the statements whose rows have been read. The second one is cancelled, half read.
answer : Bool → Partition → List Partition → Ran whole (List Partition)
answer slow part s =
    if slow then err true (codes "cancelled") (s ++ part ∷ []) else ran 30 (s ++ part ∷ [])

abbrev log : Reader whole (List Partition)
log = record {
  run = λ n part s. answer (n == 1) part s;
  between = λ s. s;
  roll_back = λ mark s. mark;
}

answer_ran :
    (slow : Bool) (part : Partition) (s s' : List Partition) (secs : ℕ)
    → answer slow part s ≡ ran secs s'
    → s ++ part ∷ [] ≡ s'
unfolding answer
answer_ran true part s s' secs e = cc
answer_ran false part s s' secs e = cc

log-Reads : Reads whole log (λ ps s. ps ≡ s)
log-Reads = record {
  on_ran = λ ps s n part secs s' h e. rw h (answer_ran (n == 1) part s s' secs e);
  on_between = λ ps s h. h;
  on_err = λ ps s n part transient e s' h q. h;
}

abbrev plan : ℤ → WindowPlan whole
plan min = record {
  col_quoted = id_col;
  min = min;
  max = pos 90000;
  start = 50000;
  max_step = 5000000;
  target_secs = 5;
  floor = 1000;
  nullable_key = true;
}

abbrev everything : Partition
everything = record { label = codes "full"; predicate = none }

plan-IsSized : IsSized whole (plan (pos 1))
plan-IsSized = record {
  floor_pos = omega arith;
  floor_start = omega arith;
  start_cap = omega arith;
  cap_fits = omega arith;
  min_fits = record { above = omega arith; below = omega arith };
  max_fits = record { above = omega arith; below = omega arith };
}

sweep_reads_once_example :
    EndsWell whole log
      (λ ps s. ps ≡ s)
      (wanted (pos 1) (pos 90000) true id_col everything)
      (sweep whole log (plan (pos 1)) everything [])
sweep_reads_once_example =
    sweep_reads_once whole log (plan (pos 1)) everything (λ ps s. ps ≡ s) [] plan-IsSized log-Reads
      (omega arith) refl

plan_read_window-IsSized_example :
    IsSized whole (plan (pos 1)) × (pos 1 ≡ pos 1) × (pos 90000 ≡ pos 90000)
unfolding plan_read_window
plan_read_window-IsSized_example =
    plan_read_window-IsSized whole none none (pos 1) (pos 90000) id_col true (plan (pos 1))
      plan-IsSized.min_fits plan-IsSized.max_fits (omega arith) refl

-- Four keys from the least i64 on, read in one window.
abbrev least_plan : WindowPlan whole
least_plan = record {
  col_quoted = id_col;
  min = i64_min;
  max = negsuc (2 ^ 63 - 4);
  start = 4;
  max_step = 4;
  target_secs = 5;
  floor = 1;
  nullable_key = false;
}

least_plan-IsSized : IsSized whole least_plan
least_plan-IsSized = record {
  floor_pos = omega arith;
  floor_start = omega arith;
  start_cap = omega arith;
  cap_fits = omega arith;
  min_fits = record { above = omega arith; below = omega arith };
  max_fits = record { above = omega arith; below = omega arith };
}

abbrev least_window : Partition
least_window = window_part everything id_col i64_min (negsuc (2 ^ 63 - 4))

sweep_skips_least_example :
    (ps : List Partition) × (ps ≡ least_window ∷ []) × (times_read ps (keyed i64_min) ≡ 0)
unfolding sweep sweep_loop null_window window_hi window_part next_window checked_i64 u64_as_i64
    min_ℤ max_ℤ ◌+ℤ◌ ◌-ℤ◌ saturating_sub_i64 saturate_i64 answer
sweep_skips_least_example =
    sweep_skips_least whole log least_plan everything (λ ps s. ps ≡ s) [] least_plan-IsSized
      log-Reads refl refl (keyed i64_min) refl 1 0 (least_window ∷ []) refl
