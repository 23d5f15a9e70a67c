-- ===== src/Buffer/Rollback.antt =====
-- A buffer that is cut back to a mark, and the account of its bytes.
use quickhouse.Prelude.{
  ℕ, suc, ◌+◌, ◌≡◌, refl, sym, ap, ◌∙◌, List, [], ◌∷◌, ◌++◌, append-nil, append_assoc, arith,
  length, take, sum, sum-append, length-append, take-append, take_exact, drop_exact, length-take,
  ◌<◌,
}
use native.Mathlib.Nat.{add_assoc, add-zero}
use quickhouse.Buffer.{
  InsertBuffer, BufferMark, NullRows, push, take_all, mark, truncate, kept, note_null_rows,
}

-- What happens to a buffer between two marks.
pub data Change (Batch : Type 0) : Type 0 where
  pushes : Batch → ℕ → ℕ → Change Batch
  notes : List NullRows → Change Batch
  takes : Change Batch

-- How often the changes empty the buffer, and the reservations that they put in.
abbrev pub times_taken : {Batch : Type 0} → List (Change Batch) → ℕ
times_taken [] = 0
times_taken (pushes _ _ _ ∷ cs) = times_taken cs
times_taken (notes _ ∷ cs) = times_taken cs
times_taken (takes ∷ cs) = suc (times_taken cs)

abbrev pub reserved_by : {Batch : Type 0} → List (Change Batch) → List ℕ
reserved_by [] = []
reserved_by (pushes _ reservation _ ∷ cs) = reservation ∷ reserved_by cs
reserved_by (notes _ ∷ cs) = reserved_by cs
reserved_by (takes ∷ cs) = reserved_by cs

module _ {Batch : Type 0} where
  -- The three lists run in parallel, and `bytes` is the sum of the sizes.
  pub record IsConsistent (b : InsertBuffer Batch) : Type 0 where
    pub reserved : length b.reservations ≡ length b.batches
    pub sized : length b.sizes ≡ length b.batches
    pub counted : b.bytes ≡ sum b.sizes

  unfoldable pub change : InsertBuffer Batch → Change Batch → InsertBuffer Batch
  unfolding push note_null_rows take_all
  change b (pushes batch reservation size) = (push b batch reservation size).0
  change b (notes rows) = note_null_rows b rows
  change b takes = (take_all b).2

  unfoldable pub changes : InsertBuffer Batch → List (Change Batch) → InsertBuffer Batch
  unfolding change
  changes b [] = b
  changes b (c ∷ cs) = changes (change b c) cs

  pub change-IsConsistent :
      (b : InsertBuffer Batch) (c : Change Batch) → IsConsistent b → IsConsistent (change b c)
  unfolding change
  change-IsConsistent b (pushes batch reservation size) h = record {
    reserved = omega (arith, length-append {0}, h.reserved);
    sized = omega (arith, length-append {0});
    counted = omega (arith, sum-append b.sizes (size ∷ []));
  }
  change-IsConsistent b (notes rows) h = record {
    reserved = h.reserved;
    sized = h.sized;
    counted = h.counted;
  }
  change-IsConsistent b takes h = record { reserved = refl; sized = refl; counted = refl }

  -- A buffer with more behind what it holds.
  extended : InsertBuffer Batch → List Batch → List ℕ → List ℕ → List NullRows → InsertBuffer Batch
  extended b xs rs ss ns = record b {
    batches = b.batches ++ xs;
    reservations = b.reservations ++ rs;
    sizes = b.sizes ++ ss;
    bytes = b.bytes + sum ss;
    null_rows = b.null_rows ++ ns;
  }

  extended-push :
      (b : InsertBuffer Batch) (x : Batch) (r s : ℕ) (xs : List Batch) (rs ss : List ℕ)
      (ns : List NullRows)
      → extended (push b x r s).0 xs rs ss ns ≡ extended b (x ∷ xs) (r ∷ rs) (s ∷ ss) ns
  unfolding extended push
  extended-push b x r s xs rs ss ns = simp (append_assoc, add_assoc)

  extended-note :
      (b : InsertBuffer Batch) (rows : List NullRows) (xs : List Batch) (rs ss : List ℕ)
      (ns : List NullRows)
      → extended (note_null_rows b rows) xs rs ss ns ≡ extended b xs rs ss (rows ++ ns)
  unfolding extended note_null_rows
  extended-note b rows xs rs ss ns = simp append_assoc

  -- Changes that never take extend the buffer.
  record Extends (b b' : InsertBuffer Batch) (cs : List (Change Batch)) : Type 0 where
    xs : List Batch
    ss : List ℕ
    ns : List NullRows
    is_extended : b' ≡ extended b xs (reserved_by cs) ss ns

  changes-Extends :
      (b : InsertBuffer Batch) (cs : List (Change Batch))
      → times_taken cs ≡ 0
      → Extends b (changes b cs) cs
  unfolding changes change extended
  changes-Extends b [] h = record {
    xs = [];
    ss = [];
    ns = [];
    is_extended = simp (append-nil, add-zero);
  }
  changes-Extends b (pushes x r s ∷ cs) h =
      let e = changes-Extends (push b x r s).0 cs h in
      record {
        xs = x ∷ e.xs;
        ss = s ∷ e.ss;
        ns = e.ns;
        is_extended = e.is_extended ∙ extended-push b x r s e.xs (reserved_by cs) e.ss e.ns;
      }
  changes-Extends b (notes rows ∷ cs) h =
      let e = changes-Extends (note_null_rows b rows) cs h in
      record {
        xs = e.xs;
        ss = e.ss;
        ns = rows ++ e.ns;
        is_extended = e.is_extended ∙ extended-note b rows e.xs (reserved_by cs) e.ss e.ns;
      }
  changes-Extends b (takes ∷ cs) h = absurd (omega arith)

  -- Cut back to the length that it had, a list is what it was.
  keep_same :
      (b : InsertBuffer Batch) (xs : List Batch) (rs ss : List ℕ) (ns : List NullRows)
      → kept (extended b xs rs ss ns) (mark b) ≡ length b.batches
  unfolding mark extended
  keep_same b xs rs ss ns = ground (arith, length-append b.batches xs)

  cut_back :
      (b : InsertBuffer Batch) (xs : List Batch) (rs ss : List ℕ) (ns : List NullRows)
      → IsConsistent b
      → truncate (extended b xs rs ss ns) (mark b) ≡ (b, rs)
  unfolding truncate
  cut_back b xs rs ss ns h =
      let keep = kept (extended b xs rs ss ns) (mark b) in
      let same : keep ≡ length b.batches = keep_same b xs rs ss ns in
      let as_res : keep ≡ length b.reservations = same ∙ sym h.reserved in
      let sized = take_exact keep b.sizes ss (same ∙ sym h.sized) in
      unfold extended mark in
      λ i. (
        record b {
          batches = take_exact keep b.batches xs same i;
          reservations = take_exact keep b.reservations rs as_res i;
          sizes = sized i;
          bytes = (ap sum sized ∙ sym h.counted) i;
          null_rows = take-append b.null_rows ns i;
        },
        drop_exact keep b.reservations rs as_res i,
      )

  -- Cut back to a mark after pushes and notes, with nothing sent in between, a consistent buffer is
  -- what it was at the mark, and exactly the reservations that were put in since are given back.
  pub truncate-mark_quiet :
      (b : InsertBuffer Batch) (cs : List (Change Batch))
      → IsConsistent b
      → times_taken cs ≡ 0
      → truncate (changes b cs) (mark b) ≡ (b, reserved_by cs)
  truncate-mark_quiet b cs h quiet =
      let e = changes-Extends b cs quiet in
      rw e.is_extended (cut_back b e.xs (reserved_by cs) e.ss e.ns h)

  takes-changes :
      (b : InsertBuffer Batch) (cs : List (Change Batch))
      → (changes b cs).takes ≡ b.takes + times_taken cs
  unfolding changes change
  takes-changes b [] = omega arith
  takes-changes b (pushes x r s ∷ cs) = takes-changes (push b x r s).0 cs
  takes-changes b (notes rows ∷ cs) = takes-changes (note_null_rows b rows) cs
  takes-changes b (takes ∷ cs) = omega (arith, takes-changes (take_all b).2 cs)

  null_rows-changes :
      (b : InsertBuffer Batch) (cs : List (Change Batch))
      → (ns : List NullRows) × ((changes b cs).null_rows ≡ b.null_rows ++ ns)
  unfolding changes change
  null_rows-changes b [] = ([], rw append-nil)
  null_rows-changes b (pushes x r s ∷ cs) = null_rows-changes (push b x r s).0 cs
  null_rows-changes b (takes ∷ cs) = null_rows-changes (take_all b).2 cs
  null_rows-changes b (notes rows ∷ cs) =
      let (ns, e) = null_rows-changes (note_null_rows b rows) cs in
      (rows ++ ns, rw (e, append_assoc))

  taken_since :
      (b : InsertBuffer Batch) (cs : List (Change Batch))
      → 0 < times_taken cs
      → kept (changes b cs) (mark b) ≡ 0
  unfolding mark
  taken_since b cs sent = ground (arith, takes-changes b cs)

  -- Where the buffer was sent since the mark, the cut keeps no batch and no byte, gives back every
  -- reservation that is still held, and leaves the tally of null rows as it was at the mark.
  pub truncate-mark_taken :
      (b : InsertBuffer Batch) (cs : List (Change Batch))
      → 0 < times_taken cs
      → let b' = changes b cs in
        let (cut, dropped) = truncate b' (mark b) in
        (cut.batches ≡ [])
        × (cut.bytes ≡ 0)
        × (dropped ≡ b'.reservations)
        × (cut.null_rows ≡ b.null_rows)
  unfolding truncate mark
  truncate-mark_taken b cs sent =
      let none_kept = taken_since b cs sent in
      let (ns, e) = null_rows-changes b cs in
      (rw none_kept, rw none_kept, rw none_kept, rw e (take-append b.null_rows ns))

  lengths_agree :
      (n : ℕ) (rs : List ℕ) (xs : List Batch)
      → length rs ≡ length xs
      → length (take n rs) ≡ length (take n xs)
  lengths_agree n rs xs e = omega (arith, length-take n rs, length-take n xs)

  -- Pushing, noting null rows, taking and cutting back to any mark all keep the three lists of a
  -- buffer in step and its byte count exact.
  pub buffer_keeps_account :
      (b : InsertBuffer Batch)
      → IsConsistent b
      → ((c : Change Batch) → IsConsistent (change b c))
        × ((m : BufferMark) → IsConsistent (truncate b m).0)
  unfolding truncate
  buffer_keeps_account b h = (
    λ c. change-IsConsistent b c h,
    λ m. record {
      reserved = lengths_agree (kept b m) b.reservations b.batches h.reserved;
      sized = lengths_agree (kept b m) b.sizes b.batches h.sized;
      counted = refl;
    },
  )
