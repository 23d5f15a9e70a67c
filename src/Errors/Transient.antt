-- ===== src/Errors/Transient.antt =====
-- Where an error happened does not change whether it is retried.
use quickhouse.Prelude.{◌≡◌, refl, false, List, [], ◌∷◌}
use quickhouse.Prelude.Text.{Text}
use quickhouse.Errors.{
  EtlError, click_house, http, arrow, decode, config, io_error, internal, other, unsupported_type,
  cancelled, context, is_transient_source,
}

-- An error with the places that it passed, the innermost first.
abbrev pub in_contexts : List Text → EtlError → EtlError
in_contexts [] e = e
in_contexts (c ∷ cs) e = in_contexts cs (context c e)

-- The errors that no attempt mends.
abbrev pub NeverRetried : EtlError → Type 0
NeverRetried (EtlError.postgres e) = ⊥
NeverRetried (EtlError.my_sql e) = ⊥
NeverRetried (EtlError.read_idle_timeout s n) = ⊥
NeverRetried (context c e) = NeverRetried e
NeverRetried _ = Unit

never_transient : (e : EtlError) → NeverRetried e → is_transient_source e ≡ false
unfolding is_transient_source
never_transient (EtlError.postgres e) h = absurd h
never_transient (EtlError.my_sql e) h = absurd h
never_transient (EtlError.read_idle_timeout s n) h = absurd h
never_transient (context c e) h = never_transient e h
never_transient (click_house m) h = refl
never_transient (http m) h = refl
never_transient (arrow m) h = refl
never_transient (decode m) h = refl
never_transient (config m) h = refl
never_transient (io_error m) h = refl
never_transient (internal m) h = refl
never_transient (other m) h = refl
never_transient (unsupported_type a b c) h = refl
never_transient cancelled h = refl

transient-in_contexts :
    (cs : List Text) (e : EtlError) → is_transient_source (in_contexts cs e) ≡ is_transient_source e
unfolding is_transient_source
transient-in_contexts [] e = refl
transient-in_contexts (c ∷ cs) e = transient-in_contexts cs (context c e)

-- However many places an error has passed, it is worth a retry exactly if the error itself is. One
-- that comes from the destination, the configuration, a decoder or an unknown type, an internal one
-- and a cancelled transfer is not.
pub is_transient_source-in_contexts :
    (cs : List Text) (e : EtlError)
    → (is_transient_source (in_contexts cs e) ≡ is_transient_source e)
      × (NeverRetried e → is_transient_source (in_contexts cs e) ≡ false)
is_transient_source-in_contexts cs e =
    (transient-in_contexts cs e, λ h. rw (transient-in_contexts cs e) (never_transient e h))
