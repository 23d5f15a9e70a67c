-- ===== src/Warnings/Tests.antt =====
-- Tests of the collector of warnings.
use quickhouse.Prelude.{ℕ, ◌≡◌, ◌↔◌, false, none, some, [], ◌∷◌, ◌++◌}
use quickhouse.Prelude.Text.{codes, show_ℕ}
use quickhouse.Kinds.{WarningKind, TransferWarning}
use quickhouse.Warnings.{Wording, Warnings, entries, drain}
use quickhouse.Warnings.Counts.{Key, total, times, one_if_some}
use quickhouse.Warnings.Order.{IsDescending, drain_counts}
use quickhouse.Warnings.Checkpoints.{chunk, check_fatal, push_all}
use quickhouse.Warnings.Fatal.{is_fatal, check_fatal_exact}

abbrev plain : Wording
plain = record {
  coercion = λ k c n. show_ℕ n ++ codes " coerced in " ++ c;
  defaulted = λ c n. show_ℕ n ++ codes " defaulted in " ++ c;
  left_out = λ k c n. show_ℕ n ++ codes " left out for " ++ c;
}

abbrev flattened : ℕ → TransferWarning
flattened n = record {
  kind = WarningKind.collapsed_bool;
  column = some (codes "x_state");
  count = n;
  sample = none;
  message = codes "flattened";
}

-- Two partitions flattened values of one column, and a guard left rows out.
abbrev collected : Warnings
collected = record {
  raw = flattened 1 ∷ flattened 2 ∷ [];
  null_rows = (WarningKind.null_key, codes "id", 7) ∷ [];
}

drain_counts_example :
    let (drained, after) = drain plain collected in
    IsDescending drained
    × ((key : Key)
        → (total key drained ≡ total key (entries plain collected))
          × (times key drained ≡ one_if_some (times key (entries plain collected))))
    × (entries plain after ≡ [])
drain_counts_example = drain_counts plain collected

check_fatal_exact_example :
    ((check_fatal plain (WarningKind.null_key ∷ []) (flattened 3 ∷ []) collected chunk).0 ≡ none)
    ↔ (is_fatal plain (WarningKind.null_key ∷ []) chunk (push_all collected (flattened 3 ∷ []))
        ≡ false)
check_fatal_exact_example =
    check_fatal_exact plain (WarningKind.null_key ∷ []) (flattened 3 ∷ []) collected chunk
