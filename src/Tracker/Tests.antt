-- ===== src/Tracker/Tests.antt =====
-- Tests of the watermark tracker.
use quickhouse.Prelude.{
  ◌*◌, ◌+◌, ◌/◌, ◌<◌, ◌≡◌, refl, ◌⊎◌, inl, ◌↔◌, none, some, List, [], ◌∷◌, arith, false, ℤ, pos,
  negsuc, ◌≤ℤ◌, ◌<ℤ◌, ◌+ℤ◌, i64_min, saturating_sub_i64, saturate_i64, ◌-ℤ◌, IsI64, pos_part,
}
use quickhouse.Samples.{whole, micros_only}
use quickhouse.Tracker.{
  WatermarkTracker, Values, rewound, rewind_step, floor_value, seen, stream_rewind_secs,
  stream_cursor_rewind_secs, rewind_step_of,
}
use quickhouse.Units.{naive_micros, days, int}
use quickhouse.Tracker.Rewind.{IsRewound, rewound-IsRewound}
use quickhouse.Tracker.Coverage.{stream_cursor_covers, day_cursor_covers}

abbrev fresh : WatermarkTracker
fresh = record { idx = 0; unit = int; max = i64_min }

abbrev batches : List Values
batches = some (some (pos 4) ∷ none ∷ some (pos 9) ∷ []) ∷ none ∷ some (some (negsuc 2) ∷ []) ∷ []

-- A maximum at 100 s, in microseconds.
abbrev at_100s : WatermarkTracker
at_100s = record { idx = 0; unit = naive_micros; max = pos 100000000 }

at_100s_fits : IsI64 (pos 100000000)
at_100s_fits = record { above = omega arith; below = omega arith }

rewound-IsRewound_example :
    ((v : ℤ)
      → rewound micros_only at_100s 5 none ≡ some v
      → IsRewound (pos 100000000) (rewind_step at_100s 5) v (floor_value micros_only at_100s none))
    × ((rewound micros_only at_100s 5 none ≡ none) ↔ (seen at_100s ≡ false))
rewound-IsRewound_example = rewound-IsRewound micros_only at_100s 5 none at_100s_fits

-- A read of 10 s with a lookback of 4 s.
stream_cursor_covers_example :
    (pos 94000000 <ℤ pos 90000001 +ℤ pos (4 * 1000000))
    ⊎ ((f : ℤ) × (floor_value micros_only at_100s none ≡ some f) × (pos 94000000 ≤ℤ f))
unfolding rewound rewind_step rewind_step_of floor_value stream_rewind_secs
    stream_cursor_rewind_secs ◌+ℤ◌ saturating_sub_i64 saturate_i64 ◌-ℤ◌
stream_cursor_covers_example =
    stream_cursor_covers whole at_100s 10 4 micros_only none (pos 90000000) (pos 90000001)
      (pos 94000000) (inl refl) at_100s_fits (omega arith) (omega arith) (omega arith) (omega arith)
      refl

abbrev at_day_20 : WatermarkTracker
at_day_20 = record { idx = 0; unit = days; max = pos 20 }

-- A read of two days from the start of day 18, with a lookback of one day.
day_cursor_covers_example :
    (pos_part (pos 18) * 86400 < 1555300 / 86400 * 86400 + 86400)
    ⊎ ((f : ℤ) × (floor_value micros_only at_day_20 none ≡ some f) × (pos 18 ≤ℤ f))
unfolding rewound rewind_step rewind_step_of floor_value stream_rewind_secs
    stream_cursor_rewind_secs saturating_sub_i64 saturate_i64 ◌-ℤ◌
day_cursor_covers_example =
    day_cursor_covers whole at_day_20 172800 86400 micros_only none 20 1555200 1555300 (pos 18) refl
      refl (record { above = omega arith; below = omega arith }) (omega arith) (omega arith)
      (omega arith) (omega arith) refl
