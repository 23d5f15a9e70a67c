-- ===== src/Csv/Staged.antt =====
-- What a staged table holds after any inserts, and what its manifest lists.
use quickhouse.Prelude.{
  ℕ, ◌+◌, ◌≡◌, refl, ◌⊎◌, inl, inr, Option, none, some, List, [], ◌∷◌, ◌++◌, arith, All, All-append,
  Bool-cases,
}
use quickhouse.Prelude.Text.{Text, text_eq}
use quickhouse.Errors.{EtlError, ◌>>=◌}
use quickhouse.Csv.Parts.{
  Part, StagedState, last, but_last, pop_idle, push_idle, put_back, insert_stream_batches, all_idle,
}
use quickhouse.Csv.Split.{weigh, opened, concat, weigh-append}

-- An insert by a stream: its batches.
abbrev pub Insert : Type 0 → Type 0
Insert Row = Text × List (List Row)

module _ {Row : Type 0} where
  abbrev pub rows_of : List (Insert Row) → List Row
  rows_of [] = []
  rows_of ((stream, batches) ∷ is) = concat batches ++ rows_of is

  -- The inserts of a run, in order; an error ends it.
  unfoldable pub insert_all : ℕ → StagedState Row → List (Insert Row) → EtlError ⊎ StagedState Row
  insert_all max_rows st [] = inr st
  insert_all max_rows st ((stream, batches) ∷ is) = do
    st' ← insert_stream_batches max_rows st stream batches
    insert_all max_rows st' is

  weigh-last :
      (f : Part Row → ℕ) (ps : List (Part Row))
      → weigh f (opened (last ps)) + weigh f (but_last ps) ≡ weigh f ps
  weigh-last f [] = refl
  weigh-last f (p ∷ []) = omega arith
  weigh-last f (p ∷ q ∷ ps) = omega (arith, weigh-last f (q ∷ ps))

  All-last :
      (P : Part Row → Type 0) (ps : List (Part Row))
      → All P ps
      → All P (opened (last ps)) × All P (but_last ps)
  All-last P [] h = (tt, tt)
  All-last P (p ∷ []) h = (h, tt)
  All-last P (p ∷ q ∷ ps) (h, hs) = let (a, b) = All-last P (q ∷ ps) hs in (a, (h, b))

  All-split :
      (P : Part Row → Type 0) (ps qs : List (Part Row)) → All P (ps ++ qs) → All P ps × All P qs
  All-split P [] qs h = (tt, h)
  All-split P (p ∷ ps) qs (h, hs) = let (a, b) = All-split P ps qs hs in ((h, a), b)

  pub weigh-pop :
      (f : Part Row → ℕ) (stream : Text) (idle : List (Text × List (Part Row)))
      → weigh f (opened (pop_idle stream idle).0) + weigh f (all_idle (pop_idle stream idle).1)
        ≡ weigh f (all_idle idle)
  unfolding pop_idle
  weigh-pop f stream [] = refl
  weigh-pop f stream ((s, ps) ∷ idle) = elim (Bool-cases (text_eq s stream)) [
    | inl e ↦
        rw (e, weigh-append f (but_last ps) (all_idle idle), weigh-append f ps (all_idle idle))
          (let a = weigh-last f ps in omega arith)
    | inr e ↦
        rw
          (
            e,
            weigh-append f ps (all_idle (pop_idle stream idle).1),
            weigh-append f ps (all_idle idle),
          )
          (let a = weigh-pop f stream idle in omega arith)
  ]

  pub All-pop :
      (P : Part Row → Type 0) (stream : Text) (idle : List (Text × List (Part Row)))
      → All P (all_idle idle)
      → All P (opened (pop_idle stream idle).0) × All P (all_idle (pop_idle stream idle).1)
  unfolding pop_idle
  All-pop P stream [] h = (tt, tt)
  All-pop P stream ((s, ps) ∷ idle) h =
      let (a, b) = All-split P ps (all_idle idle) h in
      elim (Bool-cases (text_eq s stream)) [
        | inl e ↦
            let (c, d) = All-last P ps a in rw e (c, All-append P (but_last ps) (all_idle idle) d b)
        | inr e ↦
            let (c, d) = All-pop P stream idle b in
            rw e (c, All-append P ps (all_idle (pop_idle stream idle).1) a d)
      ]

  weigh-push :
      (f : Part Row → ℕ) (stream : Text) (p : Part Row) (idle : List (Text × List (Part Row)))
      → weigh f (all_idle (push_idle stream p idle)) ≡ f p + weigh f (all_idle idle)
  unfolding push_idle
  weigh-push f stream p [] = omega arith
  weigh-push f stream p ((s, ps) ∷ idle) = elim (Bool-cases (text_eq s stream)) [
    | inl e ↦
        rw
          (
            e,
            weigh-append f (ps ++ p ∷ []) (all_idle idle),
            weigh-append f ps (p ∷ []),
            weigh-append f ps (all_idle idle),
          )
          (omega arith)
    | inr e ↦
        rw
          (
            e,
            weigh-append f ps (all_idle (push_idle stream p idle)),
            weigh-append f ps (all_idle idle),
          )
          (let a = weigh-push f stream p idle in omega arith)
  ]

  All-push :
      (P : Part Row → Type 0) (stream : Text) (p : Part Row) (idle : List (Text × List (Part Row)))
      → P p
      → All P (all_idle idle)
      → All P (all_idle (push_idle stream p idle))
  unfolding push_idle
  All-push P stream p [] h hs = (h, tt)
  All-push P stream p ((s, ps) ∷ idle) h hs =
      let (a, b) = All-split P ps (all_idle idle) hs in
      elim (Bool-cases (text_eq s stream)) [
        | inl e ↦
            rw e
              (All-append P (ps ++ p ∷ []) (all_idle idle) (All-append P ps (p ∷ []) a (h, tt)) b)
        | inr e ↦
            rw e (
              All-append P ps (all_idle (push_idle stream p idle)) a (All-push P stream p idle h b))
      ]

  pub weigh-put_back :
      (f : Part Row → ℕ) (stream : Text) (o : Option (Part Row))
      (idle : List (Text × List (Part Row)))
      → weigh f (all_idle (put_back stream o idle)) ≡ weigh f (opened o) + weigh f (all_idle idle)
  unfolding push_idle
  weigh-put_back f stream none idle = omega arith
  weigh-put_back f stream (some p) idle = omega (arith, weigh-push f stream p idle)

  pub All-put_back :
      (P : Part Row → Type 0) (stream : Text) (o : Option (Part Row))
      (idle : List (Text × List (Part Row)))
      → All P (opened o)
      → All P (all_idle idle)
      → All P (all_idle (put_back stream o idle))
  unfolding push_idle
  All-put_back P stream none idle h hs = hs
  All-put_back P stream (some p) idle (h, _) hs = All-push P stream p idle h hs
