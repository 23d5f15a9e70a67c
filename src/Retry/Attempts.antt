-- ===== src/Retry/Attempts.antt =====
-- The attempts at a transfer: how many there are, which failures are tried again, and what the
-- result counts.
use quickhouse.Prelude.{
  ℕ, zero, suc, ◌+◌, ◌≤◌, ◌<◌, ◌≡◌, refl, ◌⊎◌, inl, inr, true, false, Option, some, List, [], ◌∷◌,
  max, ltb, arith, length, Bool-cases, lt→ltb, ltb→lt, subst,
}
use quickhouse.Prelude.Text.{Text}
use quickhouse.Kinds.{WarningKind, TransferWarning}
use quickhouse.Errors.{EtlError, is_transient_source}
use quickhouse.Retry.{Tried, Run, partial_write_warning, carry, settle, retry_loop, run_transfer}

-- The warnings carried to an attempt tell of the `partial` rows that those before it wrote.
abbrev pub Carries : ℕ → List TransferWarning → Type 0
Carries partial [] = partial ≡ 0
Carries partial (w ∷ []) =
    (w.kind ≡ WarningKind.retried_after_partial_write) × (w.count ≡ partial) × (0 < partial)
Carries partial (w ∷ w' ∷ ws) = ⊥

abbrev pub TriedAgain : {Result : Type 0} → EtlError ⊎ Result → Type 0
TriedAgain (inr r) = ⊥
TriedAgain (inl e) = is_transient_source e ≡ true

carry-Carries :
    (dest_table : Text) (attempt written partial : ℕ) (carried : List TransferWarning)
    → Carries partial carried
    → Carries (partial + written) (carry dest_table attempt written (partial + written) carried)
unfolding partial_write_warning
carry-Carries dest_table attempt zero partial carried h =
    subst (λ p. Carries p carried) (omega arith) h
carry-Carries dest_table attempt (suc n) partial carried h =
    rw (lt→ltb 0 (suc n) (omega arith)) (refl, refl, omega arith)

module _ {Result : Type 0} (dest_table table_context : Text) (max_attempts : ℕ)
    (run : ℕ → List TransferWarning → Tried Result) where
  -- How attempt `attempt` ends the run, where those before wrote `partial` rows.
  abbrev pub Last : ℕ → ℕ → EtlError ⊎ Result → EtlError ⊎ (Result × ℕ) → Type 0
  Last attempt partial (inr r) result = result ≡ inr (r, partial)
  Last attempt partial (inl e) result =
      (result ≡ inl (EtlError.context table_context e))
      × ((attempt ≡ max_attempts) ⊎ (is_transient_source e ≡ false))

  abbrev Called : ℕ → ℕ → Tried Result → Type 0
  Called attempt partial t =
      (carried : List TransferWarning) × (Carries partial carried) × (t ≡ run attempt carried)

  abbrev pub Retries : ℕ → ℕ → List (Tried Result) → EtlError ⊎ (Result × ℕ) → Type 0
  Retries attempt partial [] result = ⊥
  Retries attempt partial (t ∷ []) result =
      Called attempt partial t × Last attempt partial t.result result
  Retries attempt partial (t ∷ u ∷ ts) result =
      Called attempt partial t
      × TriedAgain t.result
      × Retries (attempt + 1) (partial + t.landed) (u ∷ ts) result

  prepend :
      (attempt partial : ℕ) (t : Tried Result) (ts : List (Tried Result))
      (result : EtlError ⊎ (Result × ℕ))
      → Called attempt partial t
      → TriedAgain t.result
      → Retries (attempt + 1) (partial + t.landed) ts result
      → Retries attempt partial (t ∷ ts) result
  prepend attempt partial t [] result c h k = absurd k
  prepend attempt partial t (u ∷ ts) result c h k = (c, h, k)

  abbrev Ended : ℕ → ℕ → ℕ → Option (Run Result) → Type 0
  Ended fuel attempt partial o =
      (r : Run Result) × (o ≡ some r)
      × (length r.made ≤ fuel)
      × Retries attempt partial r.made r.result

  abbrev failure : Tried Result → EtlError → Run Result
  failure t x = record { result = inl (EtlError.context table_context x); made = t ∷ [] }

  -- One round, where the rounds that may follow end as they should.
  settle-Ended :
      (fuel attempt partial : ℕ) (t : Tried Result) (again : Option (Run Result))
      (result : EtlError ⊎ Result)
      → t.result ≡ result
      → attempt ≤ max_attempts
      → Called attempt partial t
      → (attempt < max_attempts → Ended fuel (attempt + 1) (partial + t.landed) again)
      → Ended
          (suc fuel)
          attempt
          partial
          (settle dest_table table_context max_attempts run t result attempt partial again)
  settle-Ended fuel attempt partial t again (inr r) e h c next =
      (record { result = inr (r, partial); made = t ∷ [] }, refl, omega arith, (c, rw e refl))
  settle-Ended fuel attempt partial t again (inl x) e h c next =
      elim (Bool-cases (ltb attempt max_attempts)) [
        | inl m ↦ elim (Bool-cases (is_transient_source x)) [
          | inl w ↦
              let (r, e', len, ret) = next (ltb→lt attempt max_attempts m) in
              (
                record r { made = t ∷ r.made },
                rw (m, w, e') refl,
                omega arith,
                prepend attempt partial t r.made r.result c (rw e w) ret,
              )
          | inr w ↦ (failure t x, rw (m, w) refl, omega arith, (c, rw e (refl, inr w)))
        ]
        | inr m ↦ (failure t x, rw m refl, omega arith, (c, rw e (refl, inl (ground arith))))
      ]

  retry_loop-Ended :
      (fuel attempt partial : ℕ) (carried : List TransferWarning)
      → attempt + fuel ≡ suc max_attempts
      → attempt ≤ max_attempts
      → Carries partial carried
      → Ended fuel attempt partial
          (retry_loop dest_table table_context max_attempts run fuel attempt partial carried)
  unfolding retry_loop
  retry_loop-Ended zero attempt partial carried e h c = absurd (omega arith)
  retry_loop-Ended (suc fuel) attempt partial carried e h c =
      let t = run attempt carried in
      settle-Ended fuel attempt partial t _ t.result refl h (carried, c, refl)
        (λ more.
          retry_loop-Ended fuel (attempt + 1) (partial + t.landed) _ (omega arith) (omega arith)
            (carry-Carries dest_table attempt t.landed partial carried c))

-- A transfer ends, after at most `retry_max_attempts` attempts and never none. Each attempt but the
-- last failed with an error that is worth a retry, and each is given a warning of the rows that the
-- failed attempts before it wrote, where they wrote any. If the last succeeds, its result is
-- returned with the number of these rows; if it fails, its error is returned with the table named,
-- and it was the last one allowed or its error is not worth a retry.
pub run_transfer-Retries :
    {Result : Type 0} (dest_table table_context : Text) (retry_max_attempts : ℕ)
    (run : ℕ → List TransferWarning → Tried Result)
    → (r : Run Result) × (run_transfer dest_table table_context retry_max_attempts run ≡ some r)
      × (length r.made ≤ max retry_max_attempts 1)
      × Retries dest_table table_context (max retry_max_attempts 1) run 1 0 r.made r.result
unfolding run_transfer
run_transfer-Retries dest_table table_context n run =
    retry_loop-Ended dest_table table_context (max n 1) run (max n 1) 1 0 [] (omega arith)
      (omega arith) refl
