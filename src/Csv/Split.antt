-- ===== src/Csv/Split.antt =====
-- The rows of an insert are split over parts that are full, but for the open ones.
use quickhouse.Prelude.{
  ℕ, zero, suc, ◌+◌, ◌-◌, ◌≤◌, ◌<◌, ◌≡◌, refl, ap, sym, ◌∙◌, inl, inr, Bool, Option, none, some,
  List, [], ◌∷◌, ◌++◌, arith, length, take, drop, min, length-append, length-take, length-drop,
  take-append-drop, All, All-append, ltb, ltb→lt, ◌==◌, if◌then◌else◌, Bool-cases,
}
use quickhouse.Csv.Parts.{Part, Writing, take_part, write_some, write_batch, write_batches}

module _ {Row : Type 0} where
  -- The rows that pass a test.
  abbrev pub count : (Row → Bool) → List Row → ℕ
  count test [] = 0
  count test (r ∷ rs) = (if test r then 1 else 0) + count test rs

  abbrev pub concat : List (List Row) → List Row
  concat [] = []
  concat (b ∷ bs) = b ++ concat bs

  abbrev pub weigh : (Part Row → ℕ) → List (Part Row) → ℕ
  weigh f [] = 0
  weigh f (p ∷ ps) = f p + weigh f ps

  abbrev pub count_parts : (Row → Bool) → List (Part Row) → ℕ
  count_parts test = weigh (λ p. count test p.rows)

  -- How many parts have the number.
  abbrev pub times : ℕ → List (Part Row) → ℕ
  times k = weigh (λ p. if p.number == k then 1 else 0)

  abbrev pub opened : Option (Part Row) → List (Part Row)
  opened none = []
  opened (some p) = p ∷ []

  abbrev pub AtMost : ℕ → Part Row → Type 0
  AtMost n p = length p.rows ≤ n

  abbrev pub Exactly : ℕ → Part Row → Type 0
  Exactly n p = length p.rows ≡ n

  pub count-append :
      (test : Row → Bool) (xs ys : List Row) → count test (xs ++ ys) ≡ count test xs + count test ys
  count-append test [] ys = omega arith
  count-append test (x ∷ xs) ys = omega (arith, count-append test xs ys)

  pub weigh-append :
      (f : Part Row → ℕ) (ps qs : List (Part Row)) → weigh f (ps ++ qs) ≡ weigh f ps + weigh f qs
  weigh-append f [] qs = omega arith
  weigh-append f (p ∷ ps) qs = omega (arith, weigh-append f ps qs)

  count-split :
      (test : Row → Bool) (n : ℕ) (xs : List Row)
      → count test (take n xs) + count test (drop n xs) ≡ count test xs
  count-split test n xs =
      sym (count-append test (take n xs) (drop n xs)) ∙ ap (count test) (take-append-drop n xs)

  -- The parts that an insert holds, the numbers given to others aside (`elsewhere`).
  pub record Good (max_rows : ℕ) (elsewhere : ℕ → ℕ) (w : Writing Row) : Type 0 where
    pub open_fits : All (AtMost max_rows) (opened w.current)
    pub closed_full : All (Exactly max_rows) w.closed
    pub once : (k : ℕ) → elsewhere k + times k (opened w.current) + times k w.closed ≤ 1
    pub unused :
        (k : ℕ) → w.next ≤ k → elsewhere k + times k (opened w.current) + times k w.closed ≡ 0

  abbrev pub held : (Row → Bool) → Writing Row → ℕ
  held test w = count_parts test (opened w.current) + count_parts test w.closed

  module _ (max_rows : ℕ) (elsewhere : ℕ → ℕ) where
    -- A part with room, taken out of what an insert holds.
    record Taken (w : Writing Row) (p : Part Row) (w' : Writing Row) : Type 0 where
      room : length p.rows < max_rows
      full : All (Exactly max_rows) w'.closed
      rows : (test : Row → Bool) → count test p.rows + count_parts test w'.closed ≡ held test w
      once : (k : ℕ) → elsewhere k + (if p.number == k then 1 else 0) + times k w'.closed ≤ 1
      unused :
          (k : ℕ)
          → w'.next ≤ k
          → elsewhere k + (if p.number == k then 1 else 0) + times k w'.closed ≡ 0

    new-Taken :
        (w : Writing Row) (closed : List (Part Row))
        → 1 ≤ max_rows
        → All (Exactly max_rows) closed
        → ((test : Row → Bool) → count_parts test closed ≡ held test w)
        → ((k : ℕ) → elsewhere k + times k closed ≤ 1)
        → ((k : ℕ) → w.next ≤ k → elsewhere k + times k closed ≡ 0)
        → Taken w
            (record { number = w.next; rows = [] })
            (record w { closed = closed; next = w.next + 1 })
    new-Taken w closed h full rows once unused = record {
      room = h;
      full = full;
      rows = λ test. let z = rows test in omega arith;
      once = λ k. elim (Bool-cases (w.next == k)) [
        | inl e ↦ rw e (let z = unused k (ground arith) in omega arith)
        | inr e ↦ rw e (let z = once k in omega arith)
      ];
      unused = λ k le. let z = unused k (omega arith) in ground arith;
    }

    take_part-Taken :
        (w : Writing Row) (c : Option (Part Row))
        → w.current ≡ c
        → 1 ≤ max_rows
        → Good max_rows elsewhere w
        → let (p, w') = take_part max_rows w c in Taken w p w'
    take_part-Taken w none e h g =
        new-Taken w w.closed h g.closed_full (λ test. rw e (omega arith))
          (λ k. let z = rw e at (g.once k) in omega arith)
          (λ k le. let z = rw e at (g.unused k le) in omega arith)
    take_part-Taken w (some p) e h g = elim (Bool-cases (ltb (length p.rows) max_rows)) [
      | inl r ↦ rw r (record {
        room = ltb→lt (length p.rows) max_rows r;
        full = g.closed_full;
        rows = λ test. rw e (omega arith);
        once = λ k. let z = rw e at (g.once k) in omega arith;
        unused = λ k le. let z = rw e at (g.unused k le) in omega arith;
      })
      | inr r ↦
          let fits = rw e at g.open_fits in
          let full : length p.rows ≡ max_rows = ground arith in
          rw r (
            new-Taken w (w.closed ++ p ∷ []) h
              (All-append (Exactly max_rows) w.closed (p ∷ []) g.closed_full (full, tt))
              (λ test.
                rw (e, weigh-append (λ (q : Part Row). count test q.rows) w.closed (p ∷ []))
                  (omega arith))
              (λ k.
                let z = rw e at (g.once k) in
                rw
                  (weigh-append (λ (q : Part Row). if q.number == k then 1 else 0) w.closed
                    (p ∷ []))
                  (omega arith))
              (λ k le.
                let z = rw e at (g.unused k le) in
                rw
                  (weigh-append (λ (q : Part Row). if q.number == k then 1 else 0) w.closed
                    (p ∷ []))
                  (omega arith)))
    ]

    -- One round writes what the part has room for, and at least one row.
    write_some-Good :
        (w : Writing Row) (p : Part Row) (w' : Writing Row) (left : List Row)
        → Taken w p w'
        → let (w'', left') = write_some max_rows left (p, w') in
          Good max_rows elsewhere w''
          × ((test : Row → Bool) → held test w'' + count test left' ≡ held test w + count test left)
          × (length left' ≤ length left - 1)
    write_some-Good w p w' left t =
        let room = min (max_rows - length p.rows) (length left) in
        let space = t.room in
        (
          record {
            open_fits = (
              rw (length-append p.rows (take room left), length-take room left) (omega arith),
              tt,
            );
            closed_full = t.full;
            once = λ k. let z = t.once k in omega arith;
            unused = λ k le. let z = t.unused k le in omega arith;
          },
          λ test.
              let a = count-append test p.rows (take room left) in
              let b = count-split test room left in let c = t.rows test in omega arith,
          rw (length-drop room left) (omega arith),
        )

    -- The loop over a batch ends with every row in a part.
    pub write_batch-Good :
        (fuel : ℕ) (w : Writing Row) (left : List Row)
        → 1 ≤ max_rows
        → length left ≤ fuel
        → Good max_rows elsewhere w
        → Good max_rows elsewhere (write_batch max_rows fuel w left)
          × ((test : Row → Bool)
              → held test (write_batch max_rows fuel w left) ≡ held test w + count test left)
    unfolding write_batch
    write_batch-Good zero w [] h f g = (g, λ test. omega arith)
    write_batch-Good zero w (r ∷ left) h f g = absurd (omega arith)
    write_batch-Good (suc fuel) w [] h f g = (g, λ test. omega arith)
    write_batch-Good (suc fuel) w (r ∷ left) h f g =
        let (p, w') = take_part max_rows w w.current in
        let (g', same, less) =
          write_some-Good w p w' (r ∷ left) (take_part-Taken w w.current refl h g) in
        let (w'', left') = write_some max_rows (r ∷ left) (p, w') in
        let (g'', all_) = write_batch-Good fuel w'' left' h (omega arith) g' in
        (g'', λ test. let a = all_ test in let b = same test in omega arith)

    pub write_batches-Good :
        (w : Writing Row) (bs : List (List Row))
        → 1 ≤ max_rows
        → Good max_rows elsewhere w
        → Good max_rows elsewhere (write_batches max_rows w bs)
          × ((test : Row → Bool)
              → held test (write_batches max_rows w bs) ≡ held test w + count test (concat bs))
    unfolding write_batches
    write_batches-Good w [] h g = (g, λ test. omega arith)
    write_batches-Good w (b ∷ bs) h g =
        let (g', one) = write_batch-Good (length b) w b h (omega arith) g in
        let (g'', rest) = write_batches-Good (write_batch max_rows (length b) w b) bs h g' in
        (
          g'',
          λ test.
              let a = one test in
              let c = rest test in let d = count-append test b (concat bs) in omega arith,
        )
