-- ===== src/Csv/State.antt =====
-- sink/csv.rs: the state file, `persist_watermark` and `read_last_watermark`, under the lock; and
-- config.rs: `effective_state_key`. The file is its entries, written whole or not at all.
use quickhouse.Prelude.{
  or_else, ℕ, ◌≡◌, refl, sym, ap, ◌∙◌, inl, inr, Bool, true, false, ◌&&◌, Option, none, some, List,
  [], ◌∷◌, find, arith, Bool-cases, if◌then◌else◌, unwrap_or, ℤ,
}
use quickhouse.Prelude.Text.{Text, text_eq, text_eq→eq, text_eq_refl}

pub record StateEntry : Type 0 where
  pub state_key : Text
  pub dest_table : Text
  pub last_watermark : Text
  pub rows : ℕ
  pub last_run : Text
  pub last_run_micros : ℤ

-- What the state key of a run is made of.
pub record KeyConfig : Type 0 where
  pub state_key : Option Text
  pub source_table : Option Text
  pub source_query : Option Text
  pub dest_table : Text

unfoldable pub effective_state_key : KeyConfig → Text
effective_state_key cfg =
    unwrap_or (or_else cfg.state_key (or_else cfg.source_table cfg.source_query)) []

abbrev pub entry_of : Text → Text → StateEntry → Bool
entry_of key dest e = text_eq e.state_key key && text_eq e.dest_table dest

-- The entry of a key replaced, or added.
unfoldable pub upsert : StateEntry → List StateEntry → List StateEntry
upsert entry [] = entry ∷ []
upsert entry (e ∷ es) =
    let rest = upsert entry es in
    if entry_of entry.state_key entry.dest_table e then entry ∷ es else e ∷ rest

-- `persist_watermark`, with the time of the run.
unfoldable pub persist_watermark :
    KeyConfig → Text → ℕ → Text → ℤ → List StateEntry → List StateEntry
unfolding upsert effective_state_key
persist_watermark cfg watermark rows last_run micros keys =
    upsert
      (record {
        state_key = effective_state_key cfg;
        dest_table = cfg.dest_table;
        last_watermark = watermark;
        rows = rows;
        last_run = last_run;
        last_run_micros = micros;
      })
      keys

abbrev pub non_empty : Text → Option Text
non_empty [] = none
non_empty (c ∷ s) = some (c ∷ s)

abbrev watermark_of : Option StateEntry → Option Text
watermark_of none = none
watermark_of (some e) = non_empty e.last_watermark

unfoldable pub read_last_watermark : KeyConfig → List StateEntry → Option Text
unfolding effective_state_key
read_last_watermark cfg keys =
    watermark_of (find (entry_of (effective_state_key cfg) cfg.dest_table) keys)

-- The runs share an entry.
abbrev pub same_entry : KeyConfig → KeyConfig → Bool
same_entry a b =
    text_eq (effective_state_key a) (effective_state_key b) && text_eq a.dest_table b.dest_table

not_both :
    (key dest : Text) (e entry : StateEntry)
    → entry_of key dest e ≡ true
    → entry_of entry.state_key entry.dest_table e ≡ false
    → entry_of key dest entry ≡ false
not_both key dest e entry mine other = elim (Bool-cases (entry_of key dest entry)) [
  | inr hers ↦ hers
  | inl hers ↦
      let k : e.state_key ≡ entry.state_key =
        text_eq→eq e.state_key key (ground arith)
        ∙ sym (text_eq→eq entry.state_key key (ground arith)) in
      let t : e.dest_table ≡ entry.dest_table =
        text_eq→eq e.dest_table dest (ground arith)
        ∙ sym (text_eq→eq entry.dest_table dest (ground arith)) in
      let same : entry_of entry.state_key entry.dest_table e ≡ true =
        rw (k, t, text_eq_refl entry.state_key) (text_eq_refl entry.dest_table) in
      let clash : true ≡ false = sym same ∙ other in cc
]

watermark_if :
    (b : Bool) (e : StateEntry) (o : Option StateEntry)
    → watermark_of (if b then some e else o)
      ≡ (if b then non_empty e.last_watermark else watermark_of o)
watermark_if true e o = refl
watermark_if false e o = refl

find-upsert :
    (key dest : Text) (entry : StateEntry) (es : List StateEntry)
    → find (entry_of key dest) (upsert entry es)
      ≡ (if entry_of key dest entry then some entry else find (entry_of key dest) es)
unfolding upsert
find-upsert key dest entry [] = refl
find-upsert key dest entry (e ∷ es) =
    elim (Bool-cases (entry_of entry.state_key entry.dest_table e)) [
      | inl same ↦
          let k : e.state_key ≡ entry.state_key =
            text_eq→eq e.state_key entry.state_key (ground arith) in
          let t : e.dest_table ≡ entry.dest_table =
            text_eq→eq e.dest_table entry.dest_table (ground arith) in
          rw same (ground arith)
      | inr other ↦ elim (Bool-cases (entry_of key dest e)) [
        | inl mine ↦
            let different : entry_of key dest entry ≡ false =
              not_both key dest e entry mine other in
            rw (other, mine, different) refl
        | inr not_mine ↦ rw (other, not_mine) (find-upsert key dest entry es)
      ]
    ]

-- The cursor that a run saves is the one that it reads next, an empty one as none, and every run
-- with another key or another table reads what it read before.
pub read_last_watermark-persist :
    (a b : KeyConfig) (watermark : Text) (rows : ℕ) (last_run : Text) (micros : ℤ)
    (keys : List StateEntry)
    → read_last_watermark b (persist_watermark a watermark rows last_run micros keys)
      ≡ (if same_entry a b then non_empty watermark else read_last_watermark b keys)
unfolding read_last_watermark persist_watermark
read_last_watermark-persist a b watermark rows last_run micros keys =
    let entry : StateEntry = record {
      state_key = effective_state_key a;
      dest_table = a.dest_table;
      last_watermark = watermark;
      rows = rows;
      last_run = last_run;
      last_run_micros = micros;
    } in
    ap watermark_of (find-upsert (effective_state_key b) b.dest_table entry keys)
    ∙ watermark_if (same_entry a b) entry
        (find (entry_of (effective_state_key b) b.dest_table) keys)
