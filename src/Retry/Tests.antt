-- ===== src/Retry/Tests.antt =====
-- Tests of the attempts at a transfer.
use quickhouse.Prelude.{
  ℕ, ◌≤◌, ◌≡◌, refl, inl, inr, List, [], ◌∷◌, some, max, length, ◌==◌, if◌then◌else◌,
}
use quickhouse.Prelude.Text.{Text, codes}
use quickhouse.Kinds.{TransferWarning}
use quickhouse.Errors.{EtlError, is_transient_source}
use quickhouse.Retry.{Tried, Run, run_transfer}
use quickhouse.Retry.Attempts.{Retries, run_transfer-Retries}

abbrev stalled : Tried Text
stalled = record { landed = 40; result = inl (EtlError.read_idle_timeout (codes "orders") 60) }

abbrev finished : Tried Text
finished = record { landed = 100; result = inr (codes "done") }

-- The source stalls twice.
abbrev attempts : ℕ → List TransferWarning → Tried Text
attempts n carried = if n == 3 then finished else stalled

twice_stalled :
    run_transfer (codes "t") (codes "c") 5 attempts
    ≡ some (record { result = inr (codes "done", 80); made = stalled ∷ stalled ∷ finished ∷ [] })
unfolding run_transfer is_transient_source
twice_stalled = refl

given_up :
    run_transfer (codes "t") (codes "c") 2 attempts
    ≡ some (record {
      result = inl (EtlError.context (codes "c") (EtlError.read_idle_timeout (codes "orders") 60));
      made = stalled ∷ stalled ∷ [];
    })
unfolding run_transfer is_transient_source
given_up = refl

run_transfer-Retries_example :
    (r : Run Text) × (run_transfer (codes "t") (codes "c") 5 attempts ≡ some r)
    × (length r.made ≤ max 5 1)
    × Retries (codes "t") (codes "c") (max 5 1) attempts 1 0 r.made r.result
run_transfer-Retries_example = run_transfer-Retries (codes "t") (codes "c") 5 attempts
