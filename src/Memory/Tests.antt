-- ===== src/Memory/Tests.antt =====
-- Tests of the memory budget.
use quickhouse.Prelude.{◌+◌, ◌≡◌, refl, inr, some, List, [], ◌∷◌, arith, sum}
use quickhouse.Samples.{counter}
use quickhouse.Memory.{MemoryBudget, Reservation, reserve}
use quickhouse.Memory.Accounting.{IsSound, reserve_ends}

-- A budget of 100, of which two uploads hold 60 and 30.
abbrev busy : MemoryBudget counter
busy = record { sem = some 10; total = 100 }

busy-IsSound : IsSound counter busy (sum (60 ∷ 30 ∷ []))
busy-IsSound = inr (refl, omega arith, (10, refl))

reserve_ends_example :
    (r : Reservation counter) × (rest : List (Reservation counter)) × (b : MemoryBudget counter)
    × (reserve counter (60 ∷ 30 ∷ []) busy 1000 ≡ some (r, rest, b))
    × IsSound counter b (sum rest + r)
reserve_ends_example = reserve_ends counter (60 ∷ 30 ∷ []) busy 1000 busy-IsSound
