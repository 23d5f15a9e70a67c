-- ===== src/Csv/Parts.antt =====
-- sink/csv.rs: the parts of a staged table, `CsvSink::insert_stream_batches` and `finalize`. The
-- inserts of a run stand one after another; a file that can't be written ends one with its error,
-- which is not modelled. A batch is the list of its rows.
use quickhouse.Prelude.{
  ℕ, zero, suc, ◌+◌, ◌-◌, ◌⊎◌, inl, inr, Bool, ◌&&◌, Option, none, some, List, [], ◌∷◌, ◌++◌, map,
  length, take, drop, min, sum, ltb, if◌then◌else◌, is_some,
}
use quickhouse.Prelude.Text.{Text, codes, text_eq}
use quickhouse.Errors.{EtlError}

-- One part file: `n` of `new_part`, and its data rows.
pub record Part (Row : Type 0) : Type 0 where
  pub number : ℕ
  pub rows : List Row

-- What an insert holds: the part that it writes, those that it has closed, and `next_part`.
pub record Writing (Row : Type 0) : Type 0 where
  pub current : Option (Part Row)
  pub closed : List (Part Row)
  pub next : ℕ

pub record StagedState (Row : Type 0) : Type 0 where
  -- the open parts that no insert is writing to, by stream
  pub idle : List (Text × List (Part Row))
  pub parts : List (Part Row)
  pub next_part : ℕ
  -- the manifest's parts and their rows, once the table is finalized
  pub finished : Option (List (Part Row) × ℕ)

module _ {Row : Type 0} where
  abbrev pub new_part : Writing Row → Part Row × Writing Row
  new_part w = (record { number = w.next; rows = [] }, record w { next = w.next + 1 })

  abbrev pub take_part : ℕ → Writing Row → Option (Part Row) → Part Row × Writing Row
  take_part max_rows w none = new_part w
  take_part max_rows w (some p) =
      if ltb (length p.rows) max_rows
      then (p, w)
      else new_part (record w { closed = w.closed ++ p ∷ [] })

  -- One round: the rows that the part has room for.
  abbrev pub write_some : ℕ → List Row → Part Row × Writing Row → Writing Row × List Row
  write_some max_rows left (p, w) =
      let room = min (max_rows - length p.rows) (length left) in
      (record w { current = some (record p { rows = p.rows ++ take room left }) }, drop room left)

  -- `while offset < rows`; the fuel bounds the rows that are left.
  unfoldable pub write_batch : ℕ → ℕ → Writing Row → List Row → Writing Row
  write_batch max_rows zero w left = w
  write_batch max_rows (suc fuel) w [] = w
  write_batch max_rows (suc fuel) w (r ∷ left) =
      let (w', left') = write_some max_rows (r ∷ left) (take_part max_rows w w.current) in
      write_batch max_rows fuel w' left'

  unfoldable pub write_batches : ℕ → Writing Row → List (List Row) → Writing Row
  unfolding write_batch
  write_batches max_rows w [] = w
  write_batches max_rows w (b ∷ bs) =
      write_batches max_rows (write_batch max_rows (length b) w b) bs

  -- `Vec::pop`
  abbrev pub last : List (Part Row) → Option (Part Row)
  last [] = none
  last (p ∷ []) = some p
  last (p ∷ q ∷ ps) = last (q ∷ ps)

  abbrev pub but_last : List (Part Row) → List (Part Row)
  but_last [] = []
  but_last (p ∷ []) = []
  but_last (p ∷ q ∷ ps) = p ∷ but_last (q ∷ ps)

  -- `idle.get_mut(stream).and_then(Vec::pop)`
  unfoldable pub pop_idle :
      Text → List (Text × List (Part Row)) → Option (Part Row) × List (Text × List (Part Row))
  pop_idle stream [] = (none, [])
  pop_idle stream ((s, ps) ∷ idle) =
      let (p, rest) = pop_idle stream idle in
      if text_eq s stream then (last ps, (s, but_last ps) ∷ idle) else (p, (s, ps) ∷ rest)

  -- `idle.entry(stream).or_default().push(w)`
  unfoldable pub push_idle :
      Text → Part Row → List (Text × List (Part Row)) → List (Text × List (Part Row))
  push_idle stream p [] = (stream, p ∷ []) ∷ []
  push_idle stream p ((s, ps) ∷ idle) =
      let rest = push_idle stream p idle in
      if text_eq s stream then (s, ps ++ p ∷ []) ∷ idle else (s, ps) ∷ rest

  abbrev pub put_back :
      Text → Option (Part Row) → List (Text × List (Part Row)) → List (Text × List (Part Row))
  unfolding push_idle
  put_back stream none idle = idle
  put_back stream (some p) idle = push_idle stream p idle

  unfoldable pub insert_stream_batches :
      ℕ → StagedState Row → Text → List (List Row) → EtlError ⊎ StagedState Row
  unfolding write_batches pop_idle push_idle
  insert_stream_batches max_rows st stream batches =
      let (writer, idle) = pop_idle stream st.idle in
      let w =
        write_batches max_rows (record { current = writer; closed = []; next = st.next_part })
          batches in
      if is_some st.finished
      then inl (EtlError.internal (codes "an insert after its parts were closed"))
      else inr (record {
        idle = put_back stream w.current idle;
        parts = st.parts ++ w.closed;
        next_part = w.next;
        finished = none;
      })

  abbrev pub all_idle : List (Text × List (Part Row)) → List (Part Row)
  all_idle [] = []
  all_idle ((s, ps) ∷ idle) = ps ++ all_idle idle

  -- `sort_by` on the file names, which `before` compares.
  unfoldable pub insert_part :
      (Part Row → Part Row → Bool) → Part Row → List (Part Row) → List (Part Row)
  insert_part before p [] = p ∷ []
  insert_part before p (q ∷ ps) =
      let rest = insert_part before p ps in if before q p then q ∷ rest else p ∷ q ∷ ps

  unfoldable pub sort_parts : (Part Row → Part Row → Bool) → List (Part Row) → List (Part Row)
  unfolding insert_part
  sort_parts before [] = []
  sort_parts before (p ∷ ps) = insert_part before p (sort_parts before ps)

  abbrev pub or_empty_part : Bool → ℕ → List (Part Row) → List (Part Row)
  or_empty_part wanted n [] = if wanted then record { number = n; rows = [] } ∷ [] else []
  or_empty_part wanted n (p ∷ ps) = p ∷ ps

  abbrev pub or_empty_next : Bool → ℕ → List (Part Row) → ℕ
  or_empty_next wanted n [] = if wanted then n + 1 else n
  or_empty_next wanted n (p ∷ ps) = n

  abbrev pub with_rows : List (Part Row) → List (Part Row) × ℕ
  with_rows parts = (parts, sum (map (λ (p : Part Row). length p.rows) parts))

  -- The parts closed and listed.
  abbrev pub close_parts :
      Bool
      → (Part Row → Part Row → Bool)
      → StagedState Row
      → (List (Part Row) × ℕ) × StagedState Row
  close_parts wanted before st =
      let open_and_closed = st.parts ++ all_idle st.idle in
      let parts = sort_parts before (or_empty_part wanted st.next_part open_and_closed) in
      (
        with_rows parts,
        record {
          idle = [];
          parts = [];
          next_part = or_empty_next wanted st.next_part open_and_closed;
          finished = some (with_rows parts);
        },
      )

  -- `finalize`: the manifest's parts and rows, and the state after it.
  unfoldable pub finalize :
      Bool
      → Bool
      → (Part Row → Part Row → Bool)
      → StagedState Row
      → (List (Part Row) × ℕ) × StagedState Row
  unfolding sort_parts
  finalize empty_part header before st = elim st.finished [
    | some manifest ↦ (manifest, st)
    | none ↦ close_parts (empty_part && header) before st
  ]
