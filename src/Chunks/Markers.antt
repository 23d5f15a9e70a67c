-- ===== src/Chunks/Markers.antt =====
-- The resume markers of a chunked read.
use quickhouse.Prelude.{ℕ, Option, List, [], ◌∷◌, ℤ}
use quickhouse.Prelude.Text.{Text}
use quickhouse.Prelude.Float.{Floats}
use quickhouse.Tracker.{WatermarkTracker}
use quickhouse.Units.{Chrono}
use quickhouse.Chunks.{ChunkPlan, cursor_now, marker_upper}

module _ (fl : Floats) (chrono : Chrono) (lookback_seconds : ℕ) where
  -- What a chunk sees when it writes its marker: the tracker, and the seconds of the read so far.
  abbrev pub Seen : Type 0
  Seen = Option WatermarkTracker × fl.F

  unfoldable pub mark_all : ChunkPlan → List Seen → ChunkPlan
  mark_all p [] = p
  mark_all p ((tracker, secs) ∷ chunks) =
      mark_all (marker_upper fl chrono p tracker secs lookback_seconds).1 chunks

  -- The cursors that the read would have saved at each chunk.
  abbrev pub cursors : Option Text → List Seen → List (Option ℤ)
  cursors floor [] = []
  cursors floor ((tracker, secs) ∷ chunks) =
      cursor_now fl chrono floor tracker secs lookback_seconds ∷ cursors floor chunks
