-- ===== src/Sweep/Covers.antt =====
-- The rows that the windows of a sweep select.
use quickhouse.Prelude.{
  ◌+◌, ◌≡◌, ◌&&◌, Bool, true, false, Option, none, some, List, [], ◌∷◌, ◌++◌, arith, ℤ, pos, ◌-ℤ◌,
  ◌≤ℤ◌, ◌<ℤ◌, leb_ℤ, ltb_ℤ, i64_min, saturating_sub_i64, saturate_i64, IsI64, max_ℤ, min_ℤ,
}
use quickhouse.Prelude.Text.{Text}
use quickhouse.Sql.{Row, holds, test}
use quickhouse.Partitions.{Partition}
use quickhouse.Partitions.Cover.{selects, times_read, once_if}
use quickhouse.Sweep.{window_part, null_part}

-- The key is in (lo, hi].
abbrev pub in_span : ℤ → ℤ → Option ℤ → Bool
in_span lo hi key = test (λ k. ltb_ℤ lo k && leb_ℤ k hi) key

abbrev pub is_missing : Option ℤ → Bool
is_missing none = true
is_missing (some k) = false

pub selects-window_part :
    (partition : Partition) (col : Text) (lo hi : ℤ) (row : Row)
    → selects (window_part partition col lo hi) row
      ≡ (selects partition row && in_span lo hi (row col))
unfolding window_part holds
selects-window_part partition col lo hi row = ground arith

pub selects-null_part :
    (partition : Partition) (col : Text) (row : Row)
    → selects (null_part partition col) row ≡ (selects partition row && is_missing (row col))
unfolding null_part holds
selects-null_part partition col row = ground arith

pub times_read-snoc :
    (ps : List Partition) (p : Partition) (row : Row)
    → times_read (ps ++ p ∷ []) row ≡ times_read ps row + once_if (selects p row)
times_read-snoc [] p row = omega arith
times_read-snoc (q ∷ ps) p row = omega (arith, times_read-snoc ps p row)

pub spans_join :
    (b : Bool) (lo mid hi : ℤ) (key : Option ℤ)
    → lo ≤ℤ mid
    → mid ≤ℤ hi
    → once_if (b && in_span lo mid key) + once_if (b && in_span mid hi key)
      ≡ once_if (b && in_span lo hi key)
spans_join b lo mid hi none h h' = ground arith
spans_join b lo mid hi (some k) h h' = ground arith

pub empty_span : (b : Bool) (lo : ℤ) (key : Option ℤ) → 0 ≡ once_if (b && in_span lo lo key)
empty_span b lo none = ground arith
empty_span b lo (some k) = ground arith

-- Above the least i64, the key before the first is one less.
pub saturating_pred : (a : ℤ) → IsI64 a → i64_min <ℤ a → saturating_sub_i64 a (pos 1) ≡ a -ℤ pos 1
unfolding saturating_sub_i64 saturate_i64 max_ℤ min_ℤ ◌-ℤ◌
saturating_pred a h h' = ground arith
