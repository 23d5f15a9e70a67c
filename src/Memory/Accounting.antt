-- ===== src/Memory/Accounting.antt =====
-- No permit is lost or made, and a wait for memory ends.
use quickhouse.Prelude.{
  ℕ, ◌+◌, ◌<◌, ◌≡◌, refl, ◌⊎◌, inl, inr, subst, Option, none, some, List, [], ◌∷◌, arith, min, max,
  sum, ◌==◌, Option-cases, Bool-cases,
}
use mathlib.Core.Option.{some-injective}
use native.Mathlib.Nat.{add_comm}
use quickhouse.Memory.{
  Semaphore, MemoryBudget, Reservation, new, want, try_reserve, drop_reservation, reserve,
  acquire_from, put_back, u32_max,
}

module _ (sp : Semaphore) where
  abbrev pub free_permits : Option sp.Sem → ℕ
  free_permits none = 0
  free_permits (some s) = sp.available s

  -- Free permits of a budget.
  abbrev pub free : MemoryBudget sp → ℕ
  free b = free_permits b.sem

  -- The permits held are accounted for: those free and those held make up the whole budget.
  -- Nothing is held of an unbounded budget.
  abbrev pub IsSound : MemoryBudget sp → ℕ → Type 0
  IsSound b held =
      ((b.sem ≡ none) × (held ≡ 0))
      ⊎ ((free b + held ≡ min b.total sp.max_permits)
          × (0 < b.total)
          × ((s : sp.Sem) × (b.sem ≡ some s)))

  pub new-IsSound : (max_bytes : ℕ) → IsSound (new sp max_bytes) 0
  unfolding new
  new-IsSound max_bytes = elim (Bool-cases (max_bytes == 0)) [
    | inl e ↦ inl (rw e, refl)
    | inr e ↦
        let lemma = sp.available-new_sem (min max_bytes sp.max_permits) (omega arith) in
        inr (rw e (omega (arith, lemma)), ground arith, rw e (_, refl))
  ]

  abbrev budget : Option sp.Sem → ℕ → MemoryBudget sp
  budget o total = record { sem = o; total = total }

  -- What a reservation leaves, with `held` permits held before it.
  abbrev Left : ℕ → Reservation sp × MemoryBudget sp → Type 0
  Left held (r, b) = IsSound b (held + r)

  acquire_from-IsSound :
      (o : Option sp.Sem) (total held n : ℕ) (after : Reservation sp × MemoryBudget sp)
      → IsSound (budget o total) held
      → acquire_from sp (budget o total) n o ≡ some after
      → Left held after
  acquire_from-IsSound none total held n after (inl (_, z)) e =
      subst (Left held) (some-injective _ after e) (inl (refl, omega arith))
  acquire_from-IsSound none total held n after (inr (_, _, (s, e))) e' = cc
  acquire_from-IsSound (some s) total held n after (inl (e, _)) e' = cc
  acquire_from-IsSound (some s) total held n after (inr (all, some_total, _)) e =
      elim (Option-cases (sp.try_acquire_many n s)) [
        | inl q ↦ cc (rw q at e)
        | inr (s', q) ↦
            subst (Left held) (some-injective (n, budget (some s') total) after (rw q at e))
              (inr (omega (arith, sp.acquired n s s' q), some_total, (s', refl)))
      ]

  -- One reservation keeps the account.
  pub try_reserve-IsSound :
      (b : MemoryBudget sp) (held size : ℕ) (after : Reservation sp × MemoryBudget sp)
      → IsSound b held
      → try_reserve sp b size ≡ some after
      → Left held after
  unfolding try_reserve
  try_reserve-IsSound b held size after =
      acquire_from-IsSound b.sem b.total held (want sp b size) after

  put_back-IsSound :
      (o : Option sp.Sem) (total held r : ℕ)
      → IsSound (budget o total) (held + r)
      → IsSound (put_back sp (budget o total) r o) held
  put_back-IsSound none total held r (inl (e, z)) = inl (e, omega arith)
  put_back-IsSound none total held r (inr (_, _, (s, e))) = cc
  put_back-IsSound (some s) total held r (inl (e, _)) = cc
  put_back-IsSound (some s) total held r (inr (all, some_total, _)) =
      inr (omega (arith, sp.available-release r s), some_total, (sp.release r s, refl))

  pub drop-IsSound :
      (b : MemoryBudget sp) (held r : ℕ)
      → IsSound b (held + r)
      → IsSound (drop_reservation sp b r) held
  unfolding drop_reservation
  drop-IsSound b held r = put_back-IsSound b.sem b.total held r

  -- With nothing held, whatever is asked for is there.
  acquire_from_free :
      (o : Option sp.Sem) (total size : ℕ)
      → IsSound (budget o total) 0
      → (after : Reservation sp × MemoryBudget sp) × (acquire_from sp
            (budget o total)
            (want sp (budget o total) size)
            o
          ≡ some after)
  unfolding want
  acquire_from_free none total size h = (_, refl)
  acquire_from_free (some s) total size (inl (e, _)) = cc
  acquire_from_free (some s) total size (inr (all, some_total, _)) =
      let n = max (min (min size total) u32_max) 1 in
      elim (Option-cases (sp.try_acquire_many n s)) [
        | inl q ↦ absurd (omega (arith, sp.refused n s q, sp.u32_fits))
        | inr (s', q) ↦ ((n, budget (some s') total), rw q)
      ]

  try_reserve_free :
      (b : MemoryBudget sp) (size : ℕ)
      → IsSound b 0
      → (after : Reservation sp × MemoryBudget sp) × (try_reserve sp b size ≡ some after)
  unfolding try_reserve
  try_reserve_free b size = acquire_from_free b.sem b.total size

  -- A reservation that waits while the uploads in flight hold every permit that is out always gets
  -- its memory, whatever it asks for, and the account stays sound.
  pub reserve_ends :
      (inflight : List (Reservation sp)) (b : MemoryBudget sp) (size : ℕ)
      → IsSound b (sum inflight)
      → (r : Reservation sp) × (rest : List (Reservation sp)) × (b' : MemoryBudget sp) × (reserve sp
            inflight b size
          ≡ some (r, rest, b'))
        × IsSound b' (sum rest + r)
  unfolding reserve
  reserve_ends [] b size h =
      let (after, e) = try_reserve_free b size h in
      (after.0, [], after.1, rw (e, reserve), try_reserve-IsSound b 0 size after h e)
  reserve_ends (held ∷ rest) b size h = elim (Option-cases (try_reserve sp b size)) [
    | inr (after, e) ↦ (
      after.0,
      held ∷ rest,
      after.1,
      rw (e, reserve),
      try_reserve-IsSound b (held + sum rest) size after h e,
    )
    | inl e ↦
        let freed =
          drop-IsSound b (sum rest) held (subst (IsSound b) (add_comm held (sum rest)) h) in
        let (r, rest', b', q, sound) = reserve_ends rest (drop_reservation sp b held) size freed in
        (r, rest', b', rw (e, reserve) q, sound)
  ]
