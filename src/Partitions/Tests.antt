-- ===== src/Partitions/Tests.antt =====
-- Tests of `range_partitions`.
use quickhouse.Prelude.{
  ◌≡◌, refl, some, List, [], ◌∷◌, arith, pos, negsuc, IsI64, min_ℤ, ◌+ℤ◌, ◌-ℤ◌, leb_ℤ, ◌&&◌,
}
use quickhouse.Samples.{id_col, keyed}
use quickhouse.Partitions.{Partition, range_partitions, range_loop, range_part}
use quickhouse.Partitions.Cover.{times_read, once_if, range_partitions_cover}

low_fits : IsI64 (negsuc 4)
low_fits = record { above = omega arith; below = omega arith }

high_fits : IsI64 (pos 9)
high_fits = record { above = omega arith; below = omega arith }

range_partitions_cover_example :
    (ps : List Partition) × (range_partitions (negsuc 4) (pos 9) 4 id_col ≡ some ps)
    × (times_read ps (keyed (pos 3)) ≡ once_if (leb_ℤ (negsuc 4) (pos 3) && leb_ℤ (pos 3) (pos 9)))
range_partitions_cover_example =
    range_partitions_cover (negsuc 4) (pos 9) 4 id_col (keyed (pos 3)) (pos 3) (omega arith)
      low_fits high_fits refl

-- Five keys among three partitions.
range_partitions_five :
    range_partitions (pos 1) (pos 5) 3 id_col
    ≡ some (
        range_part id_col 0 (pos 1) (pos 2)
        ∷ range_part id_col 1 (pos 3) (pos 4)
        ∷ range_part id_col 2 (pos 5) (pos 5)
        ∷ [])
unfolding range_partitions range_loop min_ℤ ◌+ℤ◌ ◌-ℤ◌
range_partitions_five = refl
