-- ===== src/Sweep/Laws.antt =====
-- What a sweep asks of its plan and of its reader, and how it may end.
use quickhouse.Prelude.{
  ℕ, ◌+◌, ◌^◌, ◌≤◌, ◌<◌, ◌≡◌, refl, ◌⊎◌, inl, inr, ◌&&◌, ◌||◌, Bool, true, false, Option, none,
  some, List, [], ◌∷◌, ◌++◌, arith, max, ℤ, ◌≤ℤ◌, IsI64,
}
use quickhouse.Prelude.Text.{Text}
use quickhouse.Prelude.Float.{Floats}
use quickhouse.Sql.{Row}
use quickhouse.Partitions.{Partition}
use quickhouse.Partitions.Cover.{selects, times_read, once_if}
use quickhouse.Sweep.{WindowPlan, Reader, Ran, ran, err, Swept, swept, aborted}
use quickhouse.Sweep.Covers.{in_span, is_missing}

-- What a plan's numbers obey.
pub record IsSized (fl : Floats) (plan : WindowPlan fl) : Type 0 where
  pub floor_pos : 1 ≤ plan.floor
  pub floor_start : plan.floor ≤ plan.start
  pub start_cap : plan.start ≤ plan.max_step
  pub cap_fits : plan.max_step < 2 ^ 63
  pub min_fits : IsI64 plan.min
  pub max_fits : IsI64 plan.max

-- `P ps s`: in the state `s`, the rows that the partitions `ps` select have been read, and no
-- others. A statement that ends well adds its own; one that fails is rolled back.
pub record Reads (fl : Floats) {S : Type 0} (reader : Reader fl S) (P : List Partition → S → Type 0)
    : Type 0 where
  pub on_ran :
      (ps : List Partition) (s : S) (n : ℕ) (part : Partition) (secs : fl.F) (s' : S)
      → P ps s
      → reader.run n part s ≡ ran secs s'
      → P (ps ++ part ∷ []) s'
  pub on_between : (ps : List Partition) (s : S) → P ps s → P ps (reader.between s)
  pub on_err :
      (ps : List Partition) (s : S) (n : ℕ) (part : Partition) (transient : Bool) (e : Text)
      (s' : S)
      → P ps s
      → reader.run n part s ≡ err transient e s'
      → P ps (reader.roll_back s s')

-- How a sweep may end: with an error that a statement ended with, or with every row read that
-- `wanted` says, once.
pub data EndsWell (fl : Floats) {S : Type 0} (reader : Reader fl S)
    (P : List Partition → S → Type 0) (wanted : Row → ℕ) : Swept fl S → Type 0 where
  all_read :
      (ps : List Partition) (windows shrinks : ℕ) (s : S)
      → P ps s
      → ((row : Row) → times_read ps row ≡ wanted row)
      → EndsWell fl reader P wanted (swept windows shrinks s)
  gave_up :
      (n : ℕ) (part : Partition) (s : S) (transient : Bool) (e : Text) (s' : S)
      → reader.run n part s ≡ err transient e s'
      → EndsWell fl reader P wanted (aborted e s')

-- Once a row of the partition with its key in (lo, hi], or with none where the plan says that a
-- key can be NULL.
abbrev pub wanted_above : ℤ → ℤ → Bool → Text → Partition → Row → ℕ
wanted_above lo hi nullable col partition row =
    once_if
      (selects partition row && (in_span lo hi (row col) || (nullable && is_missing (row col))))

pub end_of_keys :
    (b : Bool) (first lo max : ℤ) (key : Option ℤ)
    → max ≤ℤ lo
    → (lo ≤ℤ max) ⊎ (lo ≡ first)
    → once_if (b && in_span first lo key) ≡ once_if (b && in_span first max key)
end_of_keys b first lo max none h h' = ground arith
end_of_keys b first lo max (some k) h (inl h') = ground arith
end_of_keys b first lo max (some k) h (inr e) = rw e (ground arith)

pub with_nulls :
    (b : Bool) (lo hi : ℤ) (key : Option ℤ)
    → once_if (b && in_span lo hi key) + once_if (b && is_missing key)
      ≡ once_if (b && (in_span lo hi key || (true && is_missing key)))
with_nulls b lo hi none = ground arith
with_nulls b lo hi (some k) = ground arith

pub without_nulls :
    (b : Bool) (lo hi : ℤ) (key : Option ℤ)
    → once_if (b && in_span lo hi key)
      ≡ once_if (b && (in_span lo hi key || (false && is_missing key)))
without_nulls b lo hi none = ground arith
without_nulls b lo hi (some k) = ground arith

pub Ran-cases :
    {S : Type 0} (fl : Floats) (r : Ran fl S)
    → ((secs : fl.F) × (s : S) × (r ≡ ran secs s))
      ⊎ ((transient : Bool) × (e : Text) × (s : S) × (r ≡ err transient e s))
Ran-cases fl (ran secs s) = inl (secs, s, refl)
Ran-cases fl (err transient e s) = inr (transient, e, s, refl)
