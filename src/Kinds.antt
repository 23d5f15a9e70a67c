-- ===== src/Kinds.antt =====
-- `WarningKind` and `TransferWarning` of config.rs.
pub mod Names
pub mod Tests
use quickhouse.Prelude.{
  ℕ, zero, suc, ◌+◌, ◌≡◌, refl, ◌⊎◌, inl, inr, Bool, true, false, Option, none, some, List, [], ◌∷◌,
  arith, find, get_elem?, ◌==◌, ==→eq, if◌then◌else◌, ◌↔◌, ap, sym, ◌∙◌,
}
use quickhouse.Prelude.Text.{Text, codes, text_eq}

-- The variants, in the order of declaration.
pub data WarningKind : Type 0 where
  collapsed_bool coerced_date coerced_decimal coerced_scalar null_watermark null_key : WarningKind
  null_defaulted full_refresh_shrink unindexed_watermark unclustered_merge_target : WarningKind
  ignored_source_archive incomplete_export decimal_mapping_mixed watermark_not_advanced :
      WarningKind
  watermark_ahead_of_source shifted_timestamp window_bounds_unavailable null_check_skipped :
      WarningKind
  retried_after_partial_write storage_write_count_mismatch unsourced_destination_column :
      WarningKind
  abandoned_resume_marker dropped_source_column recreated_destination : WarningKind
  non_replacing_incremental_target ignored_type_override : WarningKind

-- `ALL`
abbrev pub all_kinds : List WarningKind
all_kinds =
    collapsed_bool ∷ coerced_date ∷ coerced_decimal ∷ coerced_scalar ∷ null_watermark ∷ null_key
    ∷ null_defaulted ∷ full_refresh_shrink ∷ unindexed_watermark ∷ unclustered_merge_target
    ∷ ignored_source_archive ∷ incomplete_export ∷ decimal_mapping_mixed ∷ watermark_not_advanced
    ∷ watermark_ahead_of_source ∷ shifted_timestamp ∷ window_bounds_unavailable ∷ null_check_skipped
    ∷ retried_after_partial_write ∷ storage_write_count_mismatch ∷ unsourced_destination_column
    ∷ abandoned_resume_marker ∷ dropped_source_column ∷ recreated_destination
    ∷ non_replacing_incremental_target ∷ ignored_type_override ∷ []

-- The stable name of a kind.
unfoldable pub as_str : WarningKind → Text
as_str collapsed_bool = codes "collapsed_bool"
as_str coerced_date = codes "coerced_date"
as_str coerced_decimal = codes "coerced_decimal"
as_str coerced_scalar = codes "coerced_scalar"
as_str null_watermark = codes "null_watermark"
as_str null_key = codes "null_key"
as_str null_defaulted = codes "null_defaulted"
as_str full_refresh_shrink = codes "full_refresh_shrink"
as_str unindexed_watermark = codes "unindexed_watermark"
as_str unclustered_merge_target = codes "unclustered_merge_target"
as_str ignored_source_archive = codes "ignored_source_archive"
as_str incomplete_export = codes "incomplete_export"
as_str decimal_mapping_mixed = codes "decimal_mapping_mixed"
as_str watermark_not_advanced = codes "watermark_not_advanced"
as_str watermark_ahead_of_source = codes "watermark_ahead_of_source"
as_str shifted_timestamp = codes "shifted_timestamp"
as_str window_bounds_unavailable = codes "window_bounds_unavailable"
as_str null_check_skipped = codes "null_check_skipped"
as_str retried_after_partial_write = codes "retried_after_partial_write"
as_str storage_write_count_mismatch = codes "storage_write_count_mismatch"
as_str unsourced_destination_column = codes "unsourced_destination_column"
as_str abandoned_resume_marker = codes "abandoned_resume_marker"
as_str dropped_source_column = codes "dropped_source_column"
as_str recreated_destination = codes "recreated_destination"
as_str non_replacing_incremental_target = codes "non_replacing_incremental_target"
as_str ignored_type_override = codes "ignored_type_override"

unfoldable pub from_name : Text → Option WarningKind
unfolding as_str
from_name name = find (λ k. text_eq (as_str k) name) all_kinds

-- The place of a kind in the declaration, by which the derived order compares kinds.
unfoldable pub rank : WarningKind → ℕ
rank collapsed_bool = 0
rank coerced_date = 1
rank coerced_decimal = 2
rank coerced_scalar = 3
rank null_watermark = 4
rank null_key = 5
rank null_defaulted = 6
rank full_refresh_shrink = 7
rank unindexed_watermark = 8
rank unclustered_merge_target = 9
rank ignored_source_archive = 10
rank incomplete_export = 11
rank decimal_mapping_mixed = 12
rank watermark_not_advanced = 13
rank watermark_ahead_of_source = 14
rank shifted_timestamp = 15
rank window_bounds_unavailable = 16
rank null_check_skipped = 17
rank retried_after_partial_write = 18
rank storage_write_count_mismatch = 19
rank unsourced_destination_column = 20
rank abandoned_resume_marker = 21
rank dropped_source_column = 22
rank recreated_destination = 23
rank non_replacing_incremental_target = 24
rank ignored_type_override = 25

unfoldable pub kind_eq : WarningKind → WarningKind → Bool
unfolding rank
kind_eq a b = rank a == rank b

pub record TransferWarning : Type 0 where
  pub kind : WarningKind
  pub column : Option Text
  pub count : ℕ
  pub sample : Option Text
  pub message : Text
