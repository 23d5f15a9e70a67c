-- ===== src/Sweep.antt =====
-- sync.rs: the windowed read. `WindowPlan`, `plan_read_window`, `next_window`, `window_hi` and the
-- loop of `sweeping_partition`, over whatever runs a statement. Durations are `f64`, a parameter.
pub mod Steps
pub mod Laws
pub mod Ends
pub mod Covers
pub mod Reads
pub mod Tests
use quickhouse.Prelude.{
  ℕ, zero, suc, ◌+◌, ◌-◌, ◌*◌, ◌/◌, Bool, true, false, ◌&&◌, Option, none, some, List, [], ◌∷◌,
  ◌++◌, min, max, ltb, ◌==◌, if◌then◌else◌, unwrap_or, ℤ, pos, negsuc, ◌+ℤ◌, ◌-ℤ◌, min_ℤ, ltb_ℤ,
  pos_part, neg_part, saturating_sub_i64, checked_i64, u64_as_i64,
}
use quickhouse.Prelude.Text.{Text, codes, show_ℤ}
use quickhouse.Prelude.Float.{Floats}
use quickhouse.Sql.{Cond, gt, le, is_null, both, conj}
use quickhouse.Partitions.{Partition}

-- source/explain.rs
abbrev pub initial_read_window_rows : ℕ
initial_read_window_rows = 50000

abbrev pub default_read_window_rows : ℕ
default_read_window_rows = 5000000

abbrev pub min_read_window_rows : ℕ
min_read_window_rows = 1000

-- The upper edge of the window just above `lo`.
abbrev edge : ℤ → Option ℤ → ℤ
edge max none = max
edge max (some h) = min_ℤ h max

unfoldable pub window_hi : ℤ → ℕ → ℤ → ℤ
unfolding checked_i64 u64_as_i64
window_hi lo step max = edge max (checked_i64 (lo +ℤ u64_as_i64 step))

-- `u64::clamp`
abbrev pub clamp : ℕ → ℕ → ℕ → ℕ
clamp n lo hi = if ltb n lo then lo else if ltb hi n then hi else n

-- `Some(p) => format!("({p}) AND ({pred})")`
abbrev pub within : Option Cond → Cond → Cond
within none pred = pred
within (some p) pred = conj p pred

unfoldable pub window_part : Partition → Text → ℤ → ℤ → Partition
window_part partition col lo hi = record {
  label = partition.label ++ codes ":(" ++ show_ℤ lo ++ codes "," ++ show_ℤ hi ++ codes "]";
  predicate = some (within partition.predicate (both (gt col lo) (le col hi)));
}

unfoldable pub null_part : Partition → Text → Partition
null_part partition col = record {
  label = partition.label ++ codes ":null-key";
  predicate = some (within partition.predicate (is_null col));
}

module _ (fl : Floats) where
  pub record WindowPlan : Type 0 where
    pub col_quoted : Text
    pub min : ℤ
    pub max : ℤ
    pub start : ℕ
    pub max_step : ℕ
    pub target_secs : fl.F
    pub floor : ℕ
    pub nullable_key : Bool

  pub data WindowOutcome : Type 0 where
    finished : fl.F → WindowOutcome
    cancelled : WindowOutcome

  -- `DEFAULT_WINDOW_TARGET_SECS`
  abbrev default_window_target_secs : fl.F
  default_window_target_secs = fl.lit 50 1

  abbrev pub plan_of : ℕ → fl.F → Text → Bool → ℤ × ℤ → WindowPlan
  plan_of max_step target_secs col_quoted nullable_key (lo, hi) =
      let step = min initial_read_window_rows max_step in
      record {
        col_quoted = col_quoted;
        min = lo;
        max = hi;
        start = step;
        max_step = max_step;
        target_secs = target_secs;
        floor = min (max (step / 64) min_read_window_rows) step;
        nullable_key = nullable_key;
      }

  abbrev planned : Option ℕ → Option fl.F → Text → Bool → ℤ × ℤ → Option WindowPlan
  planned read_window_rows window_target_secs col_quoted nullable_key bounds =
      let max_step = unwrap_or read_window_rows default_read_window_rows in
      let target_secs = unwrap_or window_target_secs default_window_target_secs in
      if max_step == 0
      then none
      else some (plan_of max_step target_secs col_quoted nullable_key bounds)

  abbrev on_bounds : Option (ℤ × ℤ) → (ℤ × ℤ → Option WindowPlan) → Option WindowPlan
  on_bounds none f = none
  on_bounds (some b) f = f b

  -- The two settings of the configuration that the sizing reads come first.
  unfoldable pub plan_read_window :
      Option ℕ → Option fl.F → Option (ℤ × ℤ) → Text → Bool → Option WindowPlan
  plan_read_window read_window_rows window_target_secs bounds col_quoted nullable_key =
      on_bounds bounds (planned read_window_rows window_target_secs col_quoted nullable_key)

  -- `((step as f64) * ratio).round() as u64`
  resized : ℕ → fl.F → fl.F → ℕ
  resized step target secs =
      let ratio =
        fl.clamp (fl.div target (fl.max secs (fl.lit 1 2))) (fl.lit 25 2) (fl.lit 125 2) in
      fl.as_u64 (fl.round (fl.mul (fl.of_u64 step) ratio))

  unfoldable pub next_window : ℤ → ℤ → ℕ → WindowPlan → WindowOutcome → ℤ × ℕ
  unfolding resized
  next_window lo hi step plan cancelled = (lo, max (step / 2) plan.floor)
  next_window lo hi step plan (finished secs) = (
    hi,
    clamp (resized step (fl.max plan.target_secs (fl.lit 1 1)) secs) plan.floor plan.max_step,
  )

  -- How one statement ends: after so many seconds, or with an error that may be transient.
  pub data Ran (S : Type 0) : Type 0 where
    ran : fl.F → S → Ran S
    err : Bool → Text → S → Ran S

  -- What the loop calls. `run n part s` is the n-th statement of the sweep; `between` is
  -- `between_windows`; `roll_back mark s` drops the connection and what the statement buffered, for
  -- the state `mark` at its start.
  pub record Reader (S : Type 0) : Type 0 where
    pub run : ℕ → Partition → S → Ran S
    pub between : S → S
    pub roll_back : S → S → S

  pub data Swept (S : Type 0) : Type 0 where
    swept : (windows shrinks : ℕ) → S → Swept S
    aborted : Text → S → Swept S
    out_of_fuel : Swept S

  pub record SweepState (S : Type 0) : Type 0 where
    pub lo : ℤ
    pub step : ℕ
    pub shrinks : ℕ
    pub windows : ℕ
    pub issued : ℕ
    pub out : S

  module _ {S : Type 0} (reader : Reader S) (plan : WindowPlan) (partition : Partition) where
    -- The window for NULL keys, at the end.
    null_window : SweepState S → Swept S
    null_window st =
        let last : Swept S =
          elim (reader.run st.issued (null_part partition plan.col_quoted) st.out) [
            | ran secs out ↦ swept (st.windows + 1) st.shrinks out
            | err transient e out ↦ aborted e out
          ] in
        if plan.nullable_key then last else swept st.windows st.shrinks st.out

    abbrev after_done : SweepState S → ℤ → fl.F → S → SweepState S
    after_done st hi secs out =
        let (lo', step') = next_window st.lo hi st.step plan (finished secs) in
        record st {
          lo = lo';
          step = step';
          windows = st.windows + 1;
          issued = st.issued + 1;
          out = reader.between out;
        }

    abbrev after_cancel : SweepState S → ℤ → S → SweepState S
    after_cancel st hi out =
        let (lo', step') = next_window st.lo hi st.step plan cancelled in
        record st {
          lo = lo';
          step = step';
          shrinks = st.shrinks + 1;
          issued = st.issued + 1;
          out = reader.roll_back st.out out;
        }

    -- `while lo < w.max`
    pub sweep_loop : ℕ → SweepState S → Swept S
    unfolding null_window
    sweep_loop zero st = out_of_fuel
    sweep_loop (suc fuel) st =
        let hi = window_hi st.lo st.step plan.max in
        let round : Swept S =
          elim (reader.run st.issued (window_part partition plan.col_quoted st.lo hi) st.out) [
            | ran secs out ↦ sweep_loop fuel (after_done st hi secs out)
            | err transient e out ↦ elim (transient && ltb plan.floor st.step) [
              | true ↦ sweep_loop fuel (after_cancel st hi out)
              | false ↦ aborted e out
            ]
          ] in
        if ltb_ℤ st.lo plan.max then round else null_window st

    -- The keys above `lo` that are left.
    abbrev pub keys_left : ℤ → ℕ
    keys_left lo = pos_part plan.max + neg_part lo - (pos_part lo + neg_part plan.max)

    -- Each round leaves less of this: a window that is done leaves fewer keys, one that is cancelled
    -- a smaller step.
    abbrev pub measure : SweepState S → ℕ
    measure st = keys_left st.lo * (plan.max_step + 1) + st.step

    abbrev pub first_state : S → SweepState S
    first_state s = record {
      lo = saturating_sub_i64 plan.min (pos 1);
      step = plan.start;
      shrinks = 0;
      windows = 0;
      issued = 0;
      out = s;
    }

    unfoldable pub sweep : S → Swept S
    unfolding sweep_loop
    sweep s = sweep_loop (suc (measure (first_state s))) (first_state s)
