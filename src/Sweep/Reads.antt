-- ===== src/Sweep/Reads.antt =====
-- A plan made by `plan_read_window` sweeps its whole span.
use quickhouse.Prelude.{
  ℕ, suc, ◌/◌, ◌^◌, ◌≤◌, ◌<◌, ◌≡◌, refl, sym, subst, inr, ◌&&◌, ◌||◌, Bool, true, false, Option,
  none, some, List, [], arith, max, min, ◌==◌, if◌then◌else◌, unwrap_or, ℤ, pos, ◌-ℤ◌, ◌<ℤ◌, leb_ℤ,
  -ℤ_parts, i64_min, IsI64, saturating_sub_i64, saturate_i64, max_ℤ, min_ℤ,
}
use quickhouse.Prelude.Text.{Text}
use quickhouse.Prelude.Float.{Floats}
use quickhouse.Sql.{Row, test}
use quickhouse.Partitions.{Partition}
use quickhouse.Partitions.Cover.{selects, times_read, once_if}
use quickhouse.Sweep.{
  WindowPlan, plan_read_window, plan_of, default_window_target_secs, initial_read_window_rows,
  default_read_window_rows, min_read_window_rows, Reader, Swept, swept, sweep, first_state, measure,
}
use quickhouse.Sweep.Covers.{in_span, is_missing, empty_span, saturating_pred}
use quickhouse.Sweep.Laws.{IsSized, Reads, EndsWell, all_read, gave_up, wanted_above}
use quickhouse.Sweep.Ends.{sweep_loop-Ends}

-- Once a row of the partition with its key in [lo, hi], or with none where the plan says that a
-- key can be NULL.
abbrev pub wanted : ℤ → ℤ → Bool → Text → Partition → Row → ℕ
wanted lo hi nullable col partition row = once_if (
    selects partition row
    && (test (λ k. leb_ℤ lo k && leb_ℤ k hi) (row col) || (nullable && is_missing (row col))))

from_first_key :
    (lo hi : ℤ) (nullable b : Bool) (key : Option ℤ)
    → once_if (b && (in_span (lo -ℤ pos 1) hi key || (nullable && is_missing key)))
      ≡ once_if (b && (test (λ k. leb_ℤ lo k && leb_ℤ k hi) key || (nullable && is_missing key)))
from_first_key lo hi nullable b none = refl
from_first_key lo hi nullable b (some k) = let p = -ℤ_parts lo (pos 1) in ground arith

module _ (fl : Floats) {S : Type 0} (reader : Reader fl S) (plan : WindowPlan fl)
    (partition : Partition) (P : List Partition → S → Type 0) (s : S) where
  EndsWell-wanted :
      {w w' : Row → ℕ} {x : Swept fl S}
      → ((row : Row) → w row ≡ w' row)
      → EndsWell fl reader P w x
      → EndsWell fl reader P w' x
  EndsWell-wanted h (all_read ps windows shrinks s' held read) =
      all_read ps windows shrinks s' held (λ row. rw (← h row) (read row))
  EndsWell-wanted h (gave_up n part s0 transient e s' at) = gave_up n part s0 transient e s' at

  sweep-Ends :
      IsSized fl plan
      → Reads fl reader P
      → P [] s
      → EndsWell fl reader P
          (wanted_above
            (saturating_sub_i64 plan.min (pos 1))
            plan.max
            plan.nullable_key
            plan.col_quoted
            partition)
          (sweep fl reader plan partition s)
  unfolding sweep
  sweep-Ends sized reads held =
      let first = saturating_sub_i64 plan.min (pos 1) in
      let st = first_state fl reader plan partition s in
      sweep_loop-Ends fl reader plan partition P sized reads first
        (suc (measure fl reader plan partition st)) [] st
        (record {
          held = held;
          read = λ row. empty_span (selects partition row) first (row plan.col_quoted);
          step_low = sized.floor_start;
          step_high = sized.start_cap;
          from_first = omega arith;
          not_past = inr refl;
        })
        (omega arith)

  -- For a plan with 1 ≤ floor ≤ start ≤ max_step < 2^63 and i64 bounds, of which the lower one is
  -- above the least i64, and a reader that adds a statement's rows when it ends well and undoes
  -- those of one that fails, the sweep ends. It ends with an error that a statement ended with, or
  -- it has read each row of the partition with a key in [min, max] once, the rows with a NULL key
  -- once if the key can be NULL, and nothing else, however the windows were sized and retried.
  pub sweep_reads_once :
      IsSized fl plan
      → Reads fl reader P
      → i64_min <ℤ plan.min
      → P [] s
      → EndsWell fl reader P
          (wanted plan.min plan.max plan.nullable_key plan.col_quoted partition)
          (sweep fl reader plan partition s)
  sweep_reads_once sized reads above held =
      EndsWell-wanted
        (λ row. rw (saturating_pred plan.min sized.min_fits above) (
          from_first_key plan.min plan.max plan.nullable_key (selects partition row)
            (row plan.col_quoted)))
        (sweep-Ends sized reads held)

least_unread :
    (hi : ℤ) (nullable b : Bool)
    → 0
      ≡ once_if
          (b && (in_span i64_min hi (some i64_min) || (nullable && is_missing (some i64_min))))
least_unread hi nullable b = ground arith

saturated : saturating_sub_i64 i64_min (pos 1) ≡ i64_min
unfolding saturating_sub_i64 saturate_i64 max_ℤ min_ℤ ◌-ℤ◌
saturated = refl

module _ (fl : Floats) {S : Type 0} (reader : Reader fl S) (plan : WindowPlan fl)
    (partition : Partition) (P : List Partition → S → Type 0) (s : S) where
  from_swept :
      {w : Row → ℕ} {windows shrinks : ℕ} {s' : S}
      → EndsWell fl reader P w (swept windows shrinks s')
      → (ps : List Partition) × P ps s' × ((row : Row) → times_read ps row ≡ w row)
  from_swept (all_read ps windows shrinks s' held read) = (ps, held, read)

  -- Where the span starts at the least i64, a sweep whose statements never fail reads a row with
  -- that key not once, though the span holds it.
  pub sweep_skips_least :
      IsSized fl plan
      → Reads fl reader P
      → plan.min ≡ i64_min
      → P [] s
      → (row : Row) → row plan.col_quoted ≡ some i64_min
      → (windows shrinks : ℕ) (s' : S) → sweep fl reader plan partition s ≡ swept windows shrinks s'
      → (ps : List Partition) × P ps s' × (times_read ps row ≡ 0)
  sweep_skips_least sized reads least held row at_key windows shrinks s' e =
      let ends = sweep-Ends fl reader plan partition P s sized reads held in
      let (ps, held', read) = from_swept (subst (EndsWell fl reader P _) e ends) in
      (
        ps,
        held',
        rw (read row, least, saturated, at_key)
            (sym (least_unread plan.max plan.nullable_key (selects partition row))),
      )

setting_bounds :
    (n : ℕ)
    → (n == 0) ≡ false
    → let step = min initial_read_window_rows n in
      let floor = min (max (step / 64) min_read_window_rows) step in
      (1 ≤ floor) × (floor ≤ step) × (step ≤ n)
setting_bounds n h = let pos : 1 ≤ n = ground arith in (omega arith, omega arith, omega arith)

from_if :
    {A : Type 0} {b : Bool} {x y : A}
    → (if b then none else some x) ≡ some y
    → (b ≡ false) × (x ≡ y)
from_if {b = true} e = absurd cc
from_if {b = false} e = (refl, cc)

plan_of-IsSized :
    (fl : Floats) (n : ℕ) (secs : fl.F) (lo hi : ℤ) (col : Text) (nullable : Bool)
    → IsI64 lo
    → IsI64 hi
    → n < 2 ^ 63
    → (n == 0) ≡ false
    → IsSized fl (plan_of fl n secs col nullable (lo, hi))
plan_of-IsSized fl n secs lo hi col nullable l h fits nonzero =
    let (floor_pos, floor_start, start_cap) = setting_bounds n nonzero in
    record {
      floor_pos = floor_pos;
      floor_start = floor_start;
      start_cap = start_cap;
      cap_fits = fits;
      min_fits = l;
      max_fits = h;
    }

-- From i64 bounds, and a setting `read_window_rows` below 2^63, a plan has
-- 1 ≤ floor ≤ start ≤ max_step < 2^63 and keeps the bounds.
pub plan_read_window-IsSized :
    (fl : Floats) (read_window_rows : Option ℕ) (window_target_secs : Option fl.F) (lo hi : ℤ)
    (col : Text) (nullable : Bool) (plan : WindowPlan fl)
    → IsI64 lo
    → IsI64 hi
    → unwrap_or read_window_rows default_read_window_rows < 2 ^ 63
    → plan_read_window fl read_window_rows window_target_secs (some (lo, hi)) col nullable
      ≡ some plan
    → IsSized fl plan × (plan.min ≡ lo) × (plan.max ≡ hi)
unfolding plan_read_window
plan_read_window-IsSized fl rows secs lo hi col nullable plan l h fits e =
    let (on, made) = from_if e in
    let n = unwrap_or rows default_read_window_rows in
    rw (← made) (
      plan_of-IsSized fl n (unwrap_or secs (default_window_target_secs fl)) lo hi col nullable l h
          fits on,
      refl,
      refl,
    )
