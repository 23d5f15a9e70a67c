-- ===== src/Upload/Flush.antt =====
-- What a flush keeps: the memory account, and the batches delivered.
use quickhouse.Prelude.{
  ℕ, ◌+◌, ◌≡◌, refl, ap, subst, ◌∙◌, ◌⊎◌, inl, inr, Bool, true, false, List, [], ◌∷◌, ◌++◌,
  append-nil, append_assoc, arith, sum, sum-append, length, if◌then◌else◌,
}
use quickhouse.Memory.{Semaphore}
use quickhouse.Memory.Accounting.{IsSound}
use quickhouse.Buffer
use quickhouse.Buffer.{InsertBuffer, NullRows}
use quickhouse.Buffer.Rollback.{IsConsistent, change, pushes, buffer_keeps_account}
use quickhouse.Upload.{Batches, Stream, flush, add}

abbrev pub flat {ℓ} : {A : Type ℓ} → List (List A) → List A
flat [] = []
flat (xs ∷ xss) = xs ++ flat xss

flat-append {ℓ} :
    {A : Type ℓ} (xss : List (List A)) (xs : List A) → flat (xss ++ xs ∷ []) ≡ flat xss ++ xs
flat-append [] xs = append-nil xs
flat-append (ys ∷ xss) xs = rw (flat-append xss xs, append_assoc)

pub if_either {ℓ} :
    {A : Type ℓ} (b : Bool) (x y : A) → ((if b then x else y) ≡ y) ⊎ ((if b then x else y) ≡ x)
if_either true x y = inr refl
if_either false x y = inl refl

module _ (sp : Semaphore) {Batch : Type 0} (bt : Batches Batch) where
  -- The permits that a stream holds.
  abbrev pub held : Stream sp bt → ℕ
  held s = sum s.inflight + sum s.buffer.reservations

  pub record IsSafe (s : Stream sp bt) : Type 0 where
    pub sound : IsSound sp s.budget (held s)
    pub consistent : IsConsistent s.buffer

  -- The batches handed to uploads, and those still buffered.
  abbrev pub delivered : Stream sp bt → List Batch
  delivered s = flat s.spawned ++ s.buffer.batches

  taken_group : (s : Stream sp bt) → Stream sp bt
  taken_group s = record s {
    buffer = (Buffer.take_all s.buffer).2;
    inflight = s.inflight ++ sum s.buffer.reservations ∷ [];
    spawned = s.spawned ++ s.buffer.batches ∷ [];
  }

  flush_cases :
      (s : Stream sp bt)
      → ((flush sp bt s ≡ s) × (s.buffer.batches ≡ [])) ⊎ (flush sp bt s ≡ taken_group s)
  unfolding flush taken_group Buffer.is_empty Buffer.take_all
  flush_cases s = ground arith

  no_reservations : (rs : List ℕ) → length rs ≡ 0 → rs ≡ []
  no_reservations [] e = refl
  no_reservations (r ∷ rs) e = absurd (omega arith)

  abbrev pub Flushed : Stream sp bt → Stream sp bt → Type 0
  Flushed s t =
      IsSafe t
      × (delivered t ≡ delivered s)
      × (t.buffer.batches ≡ [])
      × (t.buffer.reservations ≡ [])

  taken_group-IsSafe : (s : Stream sp bt) → IsSafe s → IsSafe (taken_group s)
  unfolding taken_group Buffer.take_all
  taken_group-IsSafe s h = record {
    sound =
        subst (IsSound sp s.budget)
          (omega (arith, sum-append s.inflight (sum s.buffer.reservations ∷ []))) h.sound;
    consistent = record { reserved = refl; sized = refl; counted = refl };
  }

  pub flush-Flushed : (s : Stream sp bt) → IsSafe s → Flushed s (flush sp bt s)
  unfolding taken_group Buffer.take_all
  flush-Flushed s h = elim (flush_cases s) [
    | inl (e, empty) ↦ rw e (
      h,
      refl,
      empty,
      no_reservations s.buffer.reservations (h.consistent.reserved ∙ ap length empty),
    )
    | inr e ↦ rw e (taken_group-IsSafe s h, simp (append-nil, flat-append), refl, refl)
  ]

  -- What a push of `batch` may lead to.
  abbrev pub Added : Stream sp bt → List Batch → Stream sp bt → Type 0
  Added s batches t = IsSafe t × (delivered t ≡ delivered s ++ batches)

  pushed : Stream sp bt → Batch → ℕ → Stream sp bt
  unfolding Buffer.push
  pushed s batch r = record s { buffer = (Buffer.push s.buffer batch r (bt.memory_size batch)).0 }

  pushed-Added :
      (s : Stream sp bt) (batch : Batch) (r : ℕ)
      → IsSound sp s.budget (held s + r)
      → IsConsistent s.buffer
      → Added s (batch ∷ []) (pushed s batch r)
  unfolding pushed
  pushed-Added s batch r sound consistent = (
    record {
      sound =
          subst (IsSound sp s.budget) (omega (arith, sum-append s.buffer.reservations (r ∷ [])))
            sound;
      consistent =
          unfold change in
          (buffer_keeps_account s.buffer consistent).0 (pushes batch r (bt.memory_size batch));
    },
    simp append_assoc,
  )

  add_cases :
      (s : Stream sp bt) (batch : Batch) (r : ℕ)
      → (add sp bt s batch r ≡ pushed s batch r)
        ⊎ (add sp bt s batch r ≡ flush sp bt (pushed s batch r))
  unfolding add pushed
  add_cases s batch r =
      if_either (Buffer.push s.buffer batch r (bt.memory_size batch)).1
        (flush sp bt (pushed s batch r)) (pushed s batch r)

  pub add-Added :
      (s : Stream sp bt) (batch : Batch) (r : ℕ)
      → IsSound sp s.budget (held s + r)
      → IsConsistent s.buffer
      → Added s (batch ∷ []) (add sp bt s batch r)
  add-Added s batch r sound consistent =
      let (safe, all) = pushed-Added s batch r sound consistent in
      elim (add_cases s batch r) [
        | inl e ↦ rw e (safe, all)
        | inr e ↦
            let (safe', same, _, _) = flush-Flushed (pushed s batch r) safe in
            rw e (safe', same ∙ all)
      ]
