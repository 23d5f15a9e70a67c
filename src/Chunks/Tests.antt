-- ===== src/Chunks/Tests.antt =====
-- Tests of chunked reads.
use quickhouse.Prelude.{
  ℕ, pos, List, ◌*◌, ◌≡◌, refl, true, false, Option, none, some, [], ◌∷◌, get_elem?,
}
use quickhouse.Prelude.Text.{Text, codes}
use quickhouse.Arrow.{ColumnType, int64}
use quickhouse.Warnings.{Warnings}
use quickhouse.Chunks.{
  ChunkConfig, ChunkMarker, ChunkPlan, MarkerBound, frozen, resumable_marker, build_chunk_plan,
  for_key, for_index, for_column,
}
use quickhouse.Chunks.Markers.{Seen}
use quickhouse.Samples.{whole, micros_only}
use quickhouse.Tracker.{WatermarkTracker}
use quickhouse.Units.{naive_micros}
use quickhouse.Chunks.Accepts.{IsKey, build_chunk_plan-IsKey}

abbrev cfg : ChunkConfig
cfg = record {
  keyset_column = some (codes "id");
  chunk_read_id = codes "r2";
  effective_state_key = codes "k";
  dest_table = codes "t";
  advance_watermark = true;
  keyset_not_null = false;
  transformed = codes "name" ∷ [];
}

abbrev id : ColumnType
id = record {
  name = codes "id";
  type_id = 20;
  nullable = false;
  arrow = int64;
  clickhouse_inner = codes "Int64";
  arbitrary_precision_decimal = false;
  declared_decimal = none;
}

abbrev plan : MarkerBound → ChunkPlan
plan marker = record {
  limit = 1000;
  keyset_col = codes "id";
  keyset_idx = 1;
  committed = none;
  effective_upper = none;
  start_cursor = some (codes "17");
  marker = marker;
}

build_chunk_plan-IsKey_example :
    IsKey cfg (id ∷ []) false (codes "id")
    × (cfg.keyset_column ≡ some (codes "id"))
    × (get_elem? (codes "name" ∷ codes "id" ∷ []) 1 ≡ some (codes "id"))
    × (◌≡◌ {A = Option Text} none none)
    × (some (codes "17") ≡ some (codes "17"))
unfolding build_chunk_plan for_key for_index for_column
build_chunk_plan-IsKey_example =
    build_chunk_plan-IsKey cfg (codes "name" ∷ codes "id" ∷ []) (id ∷ []) 1000 none none
      (some (codes "17")) false (plan frozen) refl

abbrev foreign : ChunkMarker
foreign = record { cursor = codes "41"; upper = codes "99"; read = codes "r1" }

abbrev clean : Warnings
clean = record { raw = []; null_rows = [] }

another_read : (resumable_marker (some foreign) cfg none clean).0 ≡ none
unfolding resumable_marker
another_read = refl

own_read :
    resumable_marker (some (record foreign { read = codes "r2" })) cfg none clean
    ≡ (some (codes "41", codes "99"), clean)
unfolding resumable_marker
own_read = refl

-- Two chunks: the latest change at 100 s, and then at 90 s.
abbrev at : ℕ → Option WatermarkTracker
at secs = some (record { idx = 0; unit = naive_micros; max = pos (secs * 1000000) })

abbrev two_chunks : List (Seen whole micros_only 4)
two_chunks = (at 100, 10) ∷ (at 90, 20) ∷ []
