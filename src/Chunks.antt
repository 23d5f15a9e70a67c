-- ===== src/Chunks.antt =====
-- sync.rs: the plan of a chunked read that can be resumed, and its resume markers. What the methods
-- of the configuration give is a record; an error is its message, but for the Debug text of a type.
pub mod Accepts
pub mod Markers
pub mod Tests
use quickhouse.Prelude.{
  ℕ, ◌+◌, ◌⊎◌, inl, inr, Bool, true, false, not, ◌&&◌, ◌||◌, Option, none, some, List, [], ◌∷◌,
  ◌++◌, ◌>>=◌, any, find, if◌then◌else◌, unwrap_or, ℤ, max_ℤ,
}
use quickhouse.Prelude.Text.{Text, codes, text_eq}
use quickhouse.Prelude.Float.{Floats}
use quickhouse.Arrow.{DataType, int16, int32, int64, uint32, ColumnType}
use quickhouse.Kinds.{WarningKind, TransferWarning}
use quickhouse.Warnings.{Warnings, push}
use quickhouse.Tracker.{WatermarkTracker, position, rewound, render_value, stream_rewind_secs}
use quickhouse.Units.{Chrono}

-- What the code reads of `TransferConfig`, by its methods too.
pub record ChunkConfig : Type 0 where
  pub keyset_column : Option Text
  pub chunk_read_id : Text
  pub effective_state_key : Text
  pub dest_table : Text
  pub advance_watermark : Bool
  pub keyset_not_null : Bool
  -- the keys of `column_transforms`
  pub transformed : List Text

pub record ChunkMarker : Type 0 where
  pub cursor : Text
  pub upper : Text
  pub read : Text

abbrev is_blank : Text → Bool
is_blank [] = true
is_blank (c ∷ s) = false

unfoldable pub abandoned : ChunkMarker → ChunkConfig → Option Text → TransferWarning
abandoned marker cfg committed =
    let from : Text = elim committed [
      | some c ↦ codes "the saved cursor, " ++ c
      | none ↦ codes "the start"
    ] in
    let unread =
      if cfg.advance_watermark
      then []
      else codes
          " With advance_watermark=False nothing else reads the rest of that query's range: run it again to read it, under a state_key of its own so no other read replaces its marker." in
    record {
      kind = WarningKind.abandoned_resume_marker;
      column = none;
      count = 0;
      sample = some marker.cursor;
      message =
          codes "state_key '"
          ++ cfg.effective_state_key
          ++ codes "' into '"
          ++ cfg.dest_table
          ++ codes
              "' holds the resume marker of an unfinished chunk_rows read of a different query, stopped past "
          ++ unwrap_or cfg.keyset_column []
          ++ codes " "
          ++ marker.cursor
          ++ codes ". This run doesn't resume it, and reads from "
          ++ from
          ++ codes " instead."
          ++ unread;
    }

unfoldable pub resumable_marker :
    Option ChunkMarker → ChunkConfig → Option Text → Warnings → Option (Text × Text) × Warnings
unfolding abandoned
resumable_marker none cfg committed warnings = (none, warnings)
resumable_marker (some marker) cfg committed warnings =
    if is_blank marker.read || text_eq marker.read cfg.chunk_read_id
    then (some (marker.cursor, marker.upper), warnings)
    else (none, push warnings (abandoned marker cfg committed))

unfoldable pub resume_bounds : Option (Text × Text) → Option Text × Option Text
resume_bounds none = (none, none)
resume_bounds (some (cursor, upper)) = ((if is_blank upper then none else some upper), some cursor)

-- `stream floor best`: the time that the read began is given with each call.
pub data MarkerBound : Type 0 where
  frozen unbounded : MarkerBound
  stream : Option Text → ℤ → MarkerBound

pub record ChunkPlan : Type 0 where
  pub limit : ℕ
  pub keyset_col : Text
  pub keyset_idx : ℕ
  pub committed : Option Text
  pub effective_upper : Option Text
  pub start_cursor : Option Text
  pub marker : MarkerBound

abbrev pub is_chunk_key : DataType → Bool
is_chunk_key int16 = true
is_chunk_key int32 = true
is_chunk_key int64 = true
is_chunk_key uint32 = true
is_chunk_key _ = false

abbrev config_error : Text → Text → Text
config_error key rest = codes "keyset column '" ++ key ++ codes "' " ++ rest

-- `ok_or_else(..)?`
abbrev pub or_error : {A B : Type 0} → Option A → Text → (A → Text ⊎ B) → Text ⊎ B
or_error none e f = inl e
or_error (some a) e f = f a

abbrev pub is_named : Text → ColumnType → Bool
is_named key c = text_eq c.name key

for_column : ChunkConfig → Bool → ChunkPlan → ColumnType → Text ⊎ ChunkPlan
for_column cfg proven_not_null p c =
    if not (is_chunk_key c.arrow)
    then inl (
        config_error p.keyset_col (
          codes
            "must be an integer type for chunk_rows resumable reads; pick a unique integer key"))
    else if c.nullable && not proven_not_null && not cfg.keyset_not_null
    then inl (
        config_error p.keyset_col (
          codes
            "must be NOT NULL for chunk_rows (a NULL key is silently skipped by the cursor). A source_query's keyset is accepted when it is a plain reference to a NOT NULL table column and the query has no outer join or grouping sets; where it isn't (a view, a join), pass keyset_not_null=True to assert that the column never holds NULL"))
    else inr p

for_index : ChunkConfig → List ColumnType → Bool → ChunkPlan → Text ⊎ ChunkPlan
unfolding for_column
for_index cfg source_cols proven_not_null p =
    let checked =
      or_error (find (is_named p.keyset_col) source_cols)
        (config_error p.keyset_col (codes "not found in source"))
        (for_column cfg proven_not_null p) in
    if any (λ t. text_eq t p.keyset_col) cfg.transformed
    then inl (
        config_error p.keyset_col (
          codes
            "cannot be in column_transforms — chunked reads order and resume on the raw column value, not a transformed one"))
    else checked

for_key :
    ChunkConfig
    → List Text
    → List ColumnType
    → Bool
    → (Text → ℕ → ChunkPlan)
    → Text
    → Text ⊎ ChunkPlan
unfolding for_index
for_key cfg source_columns source_cols proven_not_null planned key =
    or_error (position source_columns key)
      (config_error key (codes "must be selected (it was excluded from the transfer)"))
      (λ idx. for_index cfg source_cols proven_not_null (planned key idx))

abbrev no_keyset : Text
no_keyset = codes "chunk_rows requires a keyset ordering column"

abbrev planned_with : ℕ → Option Text → Option Text → Option Text → Text → ℕ → ChunkPlan
planned_with limit committed effective_upper start_cursor key idx = record {
  limit = limit;
  keyset_col = key;
  keyset_idx = idx;
  committed = committed;
  effective_upper = effective_upper;
  start_cursor = start_cursor;
  marker = frozen;
}

unfoldable pub build_chunk_plan :
    ChunkConfig
    → List Text
    → List ColumnType
    → ℕ
    → Option Text
    → Option Text
    → Option Text
    → Bool
    → Text ⊎ ChunkPlan
unfolding for_key
build_chunk_plan cfg source_columns source_cols limit committed effective_upper start_cursor
      proven_not_null =
    or_error cfg.keyset_column no_keyset (
      for_key cfg source_columns source_cols proven_not_null
        (planned_with limit committed effective_upper start_cursor))

module _ (fl : Floats) (chrono : Chrono) where
  -- The cursor that a read would have saved, had it ended after `secs` seconds.
  unfoldable pub cursor_now : Option Text → Option WatermarkTracker → fl.F → ℕ → Option ℤ
  cursor_now floor none secs lookback_seconds = none
  cursor_now floor (some t) secs lookback_seconds =
      rewound chrono t (stream_rewind_secs fl t secs lookback_seconds) floor

  -- `best.fetch_max(v).max(v)`
  abbrev pub raised : ℤ → Option ℤ → ℤ
  raised best none = best
  raised best (some v) = max_ℤ best v

  abbrev upper_text : Option WatermarkTracker → ℤ → Option ℤ → Text
  upper_text none best v = []
  upper_text (some t) best none = []
  upper_text (some t) best (some v) = unwrap_or (render_value chrono t (raised best (some v))) []

  marker_of : MarkerBound → Option Text → Option WatermarkTracker → fl.F → ℕ → Text × MarkerBound
  unfolding cursor_now
  marker_of frozen upper tracker secs lookback_seconds = (unwrap_or upper [], frozen)
  marker_of unbounded upper tracker secs lookback_seconds = ([], unbounded)
  marker_of (stream floor best) upper tracker secs lookback_seconds =
      let v = cursor_now floor tracker secs lookback_seconds in
      (upper_text tracker best v, stream floor (raised best v))

  -- `ChunkPlan::marker_upper`, with the seconds since the read began.
  unfoldable pub marker_upper : ChunkPlan → Option WatermarkTracker → fl.F → ℕ → Text × ChunkPlan
  unfolding marker_of
  marker_upper p tracker secs lookback_seconds =
      let (upper, marker) = marker_of p.marker p.effective_upper tracker secs lookback_seconds in
      (upper, record p { marker = marker })
