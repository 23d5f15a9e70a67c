-- ===== src/Retry.antt =====
-- sync.rs: `run_transfer`, the attempts at a whole transfer. An attempt is a parameter: what the
-- `n`th call of `run_transfer_attempt` does with the warnings carried to it. The pauses between the
-- attempts are not modelled.
pub mod Attempts
pub mod Tests
use quickhouse.Prelude.{
  ℕ, zero, suc, ◌+◌, ◌⊎◌, inl, inr, Bool, ◌&&◌, Option, none, some, List, [], ◌∷◌, ◌++◌, max, ltb,
  if◌then◌else◌,
}
use quickhouse.Prelude.Text.{Text, codes, show_ℕ}
use quickhouse.Kinds.{WarningKind, TransferWarning}
use quickhouse.Errors.{EtlError, is_transient_source}

-- One attempt: the rows that it wrote into the destination, and how it ended.
pub record Tried (Result : Type 0) : Type 0 where
  pub landed : ℕ
  pub result : EtlError ⊎ Result

-- A run: its result, with `rows_written_failed_attempts` where it succeeds, and its attempts.
pub record Run (Result : Type 0) : Type 0 where
  pub result : EtlError ⊎ (Result × ℕ)
  pub made : List (Tried Result)

unfoldable pub partial_write_message : Text → ℕ → ℕ → Text
partial_write_message dest_table attempt rows =
    codes "attempt "
    ++ show_ℕ attempt
    ++ codes " of the transfer into '"
    ++ dest_table
    ++ codes "' failed after writing "
    ++ show_ℕ rows
    ++ codes " row(s) into it, and retry_max_attempts runs the transfer again from the start, so "
    ++ codes "those rows are written a second time. A ReplacingMergeTree collapses the copies at "
    ++ codes "its next merge (count() runs high until then); an engine that keeps duplicates keeps "
    ++ codes "them. Retries stage each attempt instead for a ClickHouse MergeTree that keeps "
    ++ codes "duplicates, or set chunk_rows to resume rather than restart."

unfoldable pub partial_write_warning : Text → ℕ → ℕ → TransferWarning
partial_write_warning dest_table attempt rows = record {
  kind = WarningKind.retried_after_partial_write;
  column = none;
  count = rows;
  sample = none;
  message = partial_write_message dest_table attempt rows;
}

-- The warnings that the next attempt carries.
abbrev pub carry : Text → ℕ → ℕ → ℕ → List TransferWarning → List TransferWarning
carry dest_table attempt written partial carried =
    if ltb 0 written then partial_write_warning dest_table attempt partial ∷ [] else carried

module _ {Result : Type 0} (dest_table table_context : Text) (max_attempts : ℕ)
    (run : ℕ → List TransferWarning → Tried Result) where
  abbrev with_attempt : Tried Result → Option (Run Result) → Option (Run Result)
  with_attempt t none = none
  with_attempt t (some r) = some (record r { made = t ∷ r.made })

  abbrev fail : Tried Result → EtlError → Option (Run Result)
  fail t e = some (record { result = inl (EtlError.context table_context e); made = t ∷ [] })

  abbrev settle :
      Tried Result → EtlError ⊎ Result → ℕ → ℕ → Option (Run Result) → Option (Run Result)
  settle t (inr r) attempt partial again =
      some (record { result = inr (r, partial); made = t ∷ [] })
  settle t (inl e) attempt partial again =
      if ltb attempt max_attempts && is_transient_source e then with_attempt t again else fail t e

  unfoldable pub retry_loop : ℕ → ℕ → ℕ → List TransferWarning → Option (Run Result)
  retry_loop zero attempt partial carried = none
  retry_loop (suc fuel) attempt partial carried =
      let t = run attempt carried in
      let partial' = partial + t.landed in
      let again =
        retry_loop fuel (attempt + 1) partial'
          (carry dest_table attempt t.landed partial' carried) in
      settle t t.result attempt partial again

-- The fast path for one attempt is the loop's first round. The fuel is the number of attempts.
unfoldable pub run_transfer :
    {Result : Type 0}
    → Text
    → Text
    → ℕ
    → (ℕ → List TransferWarning → Tried Result)
    → Option (Run Result)
unfolding retry_loop
run_transfer dest_table table_context retry_max_attempts run =
    let max_attempts = max retry_max_attempts 1 in
    retry_loop dest_table table_context max_attempts run max_attempts 1 0 []
