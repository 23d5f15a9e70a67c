-- ===== src/Memory.antt =====
-- memory.rs: the byte budget of batches in flight. tokio's semaphore is a parameter.
pub mod Accounting
pub mod Tests
use quickhouse.Prelude.{
  ℕ, ◌+◌, ◌-◌, ◌^◌, ◌≤◌, ◌<◌, ◌≡◌, Bool, true, false, Option, none, some, List, [], ◌∷◌, min, max,
  ◌==◌, if◌then◌else◌,
}

-- A counting semaphore, with what its documentation promises.
pub record Semaphore : Type 1 where
  pub Sem : Type 0
  pub max_permits : ℕ
  pub new_sem : ℕ → Sem
  pub available : Sem → ℕ
  pub try_acquire_many : ℕ → Sem → Option Sem
  pub release : ℕ → Sem → Sem
  -- a u32 of permits can be asked for
  pub u32_fits : 2 ^ 32 - 1 ≤ max_permits
  pub available-new_sem : (n : ℕ) → n ≤ max_permits → available (new_sem n) ≡ n
  pub acquired :
      (n : ℕ) (s s' : Sem) → try_acquire_many n s ≡ some s' → available s ≡ available s' + n
  pub refused : (n : ℕ) (s : Sem) → try_acquire_many n s ≡ none → available s < n
  pub available-release : (n : ℕ) (s : Sem) → available (release n s) ≡ available s + n

-- `MAX_PERMITS`
abbrev pub u32_max : ℕ
u32_max = 2 ^ 32 - 1

module _ (sp : Semaphore) where
  -- `sem` is `none` for an unbounded budget.
  pub record MemoryBudget : Type 0 where
    pub sem : Option sp.Sem
    pub total : ℕ

  -- A reservation holds a number of permits, none of an unbounded budget. Dropping it releases them.
  abbrev pub Reservation : Type 0
  Reservation = ℕ

  unfoldable pub new : ℕ → MemoryBudget
  new max_bytes = record {
    sem = if max_bytes == 0 then none else some (sp.new_sem (min max_bytes sp.max_permits));
    total = max_bytes;
  }

  unfoldable pub is_bounded : MemoryBudget → Bool
  is_bounded b = elim b.sem [ none ↦ false | some s ↦ true ]

  -- `size.min(self.total).min(MAX_PERMITS).max(1)`
  unfoldable pub want : MemoryBudget → ℕ → ℕ
  want b size = max (min (min size b.total) u32_max) 1

  abbrev taken : MemoryBudget → ℕ → Option sp.Sem → Option (Reservation × MemoryBudget)
  taken b n none = none
  taken b n (some s) = some (n, record b { sem = some s })

  abbrev acquire_from : MemoryBudget → ℕ → Option sp.Sem → Option (Reservation × MemoryBudget)
  acquire_from b n none = some (0, b)
  acquire_from b n (some s) = taken b n (sp.try_acquire_many n s)

  unfoldable pub try_reserve : MemoryBudget → ℕ → Option (Reservation × MemoryBudget)
  unfolding want
  try_reserve b size = acquire_from b (want b size) b.sem

  abbrev pub put_back : MemoryBudget → ℕ → Option sp.Sem → MemoryBudget
  put_back b n none = b
  put_back b n (some s) = record b { sem = some (sp.release n s) }

  unfoldable pub drop_reservation : MemoryBudget → Reservation → MemoryBudget
  drop_reservation b n = put_back b n b.sem

  -- `reserve(size).await`: while the permits are not free, the next upload in flight ends and drops
  -- what it holds. `none` is a wait that no upload in flight can end.
  unfoldable pub reserve :
      List Reservation → MemoryBudget → ℕ → Option (Reservation × List Reservation × MemoryBudget)
  unfolding try_reserve drop_reservation
  reserve [] b size = elim (try_reserve b size) [ none ↦ none | some (r, b') ↦ some (r, [], b') ]
  reserve (held ∷ rest) b size =
      let waited = reserve rest (drop_reservation b held) size in
      elim (try_reserve b size) [ none ↦ waited | some (r, b') ↦ some (r, held ∷ rest, b') ]
