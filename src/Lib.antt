-- ===== src/Lib.antt =====
-- quickhouse, a transfer engine from databases and APIs to warehouses: a model of the core of the
-- crate crates/quickhouse-core.
--
-- A transfer reads a table in partitions, each partition in one statement or in a sweep of windows
-- of its key; every decoded batch goes through one function that folds the watermark, drops rows
-- with a NULL key, reserves memory and groups batches into uploads for a sink; the whole is tried
-- again after an error that may pass; at the end, the watermark that the read met gives the cursor
-- from which the next run starts.
--
-- Files, with the code that each models, under crates/quickhouse-core/src:
--
--   Prelude: numbers, lists, tests, signed integers, text and floats that the others share.
--   Samples: test data.
--   Sql: the conditions of a WHERE clause, their text and their meaning.
--   Keyset: source/mod.rs, keyset_predicate and integer_literal. Partitions: range_partitions of
--   the same file.
--   Kinds, Arrow: config.rs, the kinds of warnings; types.rs, the types of columns.
--   Units, Tracker: sync.rs, WatermarkUnit; WatermarkTracker and the cursor functions.
--   Memory: memory.rs, MemoryBudget. Buffer: sync.rs, InsertBuffer. Upload: sync.rs,
--   SendCtx::push_batch and what it calls.
--   Columns: sink/mod.rs, the comparison of columns and backoff_delay; Columns/Exact: which
--   columns it picks; Columns/Evolve: adding those that are missing.
--   Decimal: decimal.rs, parsing, printing and rescaling; Decimal/Tally: CoercionTally.
--   Chunks: sync.rs, resumable_marker, resume_bounds, build_chunk_plan and
--   ChunkPlan::marker_upper.
--   Warnings: sync.rs, Warnings; Warnings/Checkpoints: Before and check_fatal.
--   Errors: error.rs, EtlError and which errors may pass. Retry: sync.rs, run_transfer.
--   Nulls: null_guard.rs, NullGuard and its filter; Nulls/Plan: NullGuard::new, and the columns of
--   an engine in ddl.rs; Nulls/Texts and Nulls/Enums: the defaults of ClickHouse types and the
--   warnings; Nulls/Report: tallies and archived_rows of sync.rs; the other files of Nulls hold
--   the proofs.
--   Csv: sink/csv_writer.rs, the text of a part; Csv/Fields and Csv/Rows: a reader of RFC 4180 and
--   the round trip. Csv/Parts: sink/csv.rs, insert_stream_batches and finalize, with Csv/Split,
--   Csv/Staged and Csv/Manifest for the proofs. Csv/Folder and Csv/Layout: the manifest and
--   layout_differences. Csv/Append and Csv/Atomic: insert_select. Csv/Swap: swap_dirs. Csv/State:
--   the state file, and effective_state_key of config.rs.
--   Transform: transform.rs, what a plan is made from; Transform/Types and Transform/Decimals: the
--   types of its columns; Transform/Plan: plan_for_destination; Transform/Written and
--   Transform/Projects: the proofs.
--   Ddl: ddl.rs, the statements for ClickHouse tables; Ddl/Idents: a reader of quoted names;
--   Ddl/Sorted: tables and their sorting keys.
--   Reconcile: reconcile.rs, reconcile_keys; Reconcile/Keys and Reconcile/Repairs: the proofs.
--   Sweep: sync.rs, plan_read_window, next_window, window_hi and the loop of sweeping_partition.
--   Windows: the same loop over the stream of Upload, with the cut of the buffer after a window
--   that failed.
--
-- State is passed from step to step. A text is the list of its code points, a key is an i64 as a
-- signed integer in range, sizes and counters are numbers taken to stay below 2^64. Where a method
-- awaits, the order of the events is part of the model: an upload in flight is what it holds of the
-- memory budget, and a wait ends uploads one after another.
--
-- Parameters stand for what is not in the repository: the semaphore of tokio, with its documented
-- laws (Memory.Semaphore); parsing and printing of dates by chrono (Units.Chrono); f64
-- (Prelude.Float); what Arrow says of a batch (Upload.Batches); Arrow's arrays and the functions on
-- them that the guard uses, with their laws (Nulls.Arrays); the statement that a sweep runs
-- (Sweep.Reader); one attempt at a transfer (Retry); Arrow's check of a precision and a scale
-- (Transform.Plan); the reads of keys and their deletion (Reconcile.Systems); whether each call of
-- the file system succeeds (Csv.Append.Outcomes, Csv.Swap.Calls); the printing of a text by {:?}
-- (Csv.Folder).
--
-- Loops: range_partitions runs on as many rounds as the span has keys, plus one; each round moves
-- the start up by one key or more. The sweep runs on a bound made of the keys left and the step: a
-- window that is done leaves fewer keys, and one that is cancelled a smaller step. run_transfer
-- runs on the number of attempts that it may make, of which each round uses one; an insert of a
-- batch on the rows left, of which each round writes one or more; and the reading of an Enum type
-- on its characters, of which each round takes one or more.
--
-- Not modelled: database, HTTP and object-store I/O, decoders, the Python bindings, and the log
-- lines. In the repository and not modelled either: the upload of Upload takes what the guard does
-- to a batch as a parameter (Upload.Batches), which Nulls models apart; the wording of the messages
-- of a checkpoint (Warnings.Wording); the encoders of the CSV writer for dates, timestamps and
-- base64, whose text is what a cell of Csv holds; creating, reading and dropping the folders of CSV
-- tables; the two fixed statements for the state table of ClickHouse; the comparison of values
-- (reconcile_values.rs), the archive, and the SQL of the BigQuery and ClickHouse sinks.
pub mod Prelude
pub mod Samples
pub mod Sql
pub mod Keyset
pub mod Partitions
pub mod Kinds
pub mod Arrow
pub mod Decimal
pub mod Warnings
pub mod Errors
pub mod Retry
pub mod Units
pub mod Tracker
pub mod Memory
pub mod Buffer
pub mod Columns
pub mod Chunks
pub mod Nulls
pub mod Transform
pub mod Ddl
pub mod Csv
pub mod Reconcile
pub mod Upload
pub mod Sweep
pub mod Windows
