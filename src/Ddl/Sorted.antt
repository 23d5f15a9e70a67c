-- ===== src/Ddl/Sorted.antt =====
-- No table of an engine that merges rows is created without a sorting key.
use mathlib.Core.Sum.{inl-ne-inr}
use quickhouse.Prelude.{
  ℕ, ◌≤◌, ◌⊎◌, is_nil, ◌≡◌, ◌↔◌, refl, sym, ap, ◌∙◌, subst, inl, inr, Bool, true, false, ◌&&◌,
  Option, none, some, List, [], ◌∷◌, ◌++◌, append-nil, Bool-cases, ◌==◌, All, any, unwrap_or, arith,
}
use quickhouse.Prelude.Text.{
  Text, codes, text_eq, is_space, keep_char, trim, trim_start, trim_end, split_once,
}
use quickhouse.Arrow.{ColumnType}
use quickhouse.Nulls.Plan.{TransferConfig, effective_engine}
use quickhouse.Nulls.Texts.{strip_prefix}
use quickhouse.Ddl.{
  TableConfig, without_parameters, in_front, row_merging_engines, is_row_merging_engine, or_key,
  order_cols, statement, create_table,
}

pub data Merging : Type 0 where
  replacing collapsing versioned_collapsing summing aggregating : Merging

abbrev pub family_name : Merging → Text
family_name replacing = codes "ReplacingMergeTree"
family_name collapsing = codes "CollapsingMergeTree"
family_name versioned_collapsing = codes "VersionedCollapsingMergeTree"
family_name summing = codes "SummingMergeTree"
family_name aggregating = codes "AggregatingMergeTree"

abbrev parameters : Option Text → Text
parameters none = []
parameters (some args) = b'(' ∷ args

abbrev family_spelled : Bool → Merging → Text
family_spelled true family = codes "Replicated" ++ family_name family
family_spelled false family = family_name family

abbrev pub IsBlank : ℕ → Type 0
IsBlank c = (c ≡ 32) ⊎ ((9 ≤ c) × (c ≤ 13))

-- An engine as it may be spelled: replicated or not, with parameters or without, and with blanks in
-- front of the name and behind it.
abbrev pub spelled : Text → Bool → Merging → Text → Option Text → Text
spelled left replicated family right args =
    (left ++ (family_spelled replicated family ++ right)) ++ parameters args

abbrev IsPlain : ℕ → Type 0
IsPlain c = (c == b'(') ≡ false

IsBlank-IsPlain : (s : Text) → All IsBlank s → All IsPlain s
IsBlank-IsPlain [] h = tt
IsBlank-IsPlain (c ∷ s) (inl e, hs) = (ground arith, IsBlank-IsPlain s hs)
IsBlank-IsPlain (c ∷ s) (inr (lo, hi), hs) = (ground arith, IsBlank-IsPlain s hs)

All-append : (s t : Text) → All IsPlain s → All IsPlain t → All IsPlain (s ++ t)
All-append [] t h h' = h'
All-append (c ∷ s) t (h, hs) h' = (h, All-append s t hs h')

split_none : (s : Text) → All IsPlain s → split_once b'(' s ≡ none
unfolding split_once
split_none [] h = refl
split_none (c ∷ s) (h, hs) = rw (h, split_none s hs) refl

split_some : (s args : Text) → All IsPlain s → split_once b'(' (s ++ (b'(' ∷ args)) ≡ some (s, args)
unfolding split_once
split_some [] args h = refl
split_some (c ∷ s) args (h, hs) = rw (h, split_some s args hs) refl

without_parameters-append :
    (s : Text) (args : Option Text) → All IsPlain s → without_parameters (s ++ parameters args) ≡ s
unfolding without_parameters split_once
without_parameters-append s none h =
    subst (λ t. without_parameters t ≡ s) (sym (append-nil s)) (ap (in_front s) (split_none s h))
without_parameters-append s (some args) h = ap (in_front (s ++ (b'(' ∷ args))) (split_some s args h)

IsBlank-is_space : (c : ℕ) → IsBlank c → is_space c ≡ true
IsBlank-is_space c (inl e) = ground arith
IsBlank-is_space c (inr (lo, hi)) = ground arith

trim_start-blanks : (s t : Text) → All IsBlank s → trim_start (s ++ t) ≡ trim_start t
unfolding trim_start
trim_start-blanks [] t h = refl
trim_start-blanks (c ∷ s) t (h, hs) = rw (IsBlank-is_space c h) (trim_start-blanks s t hs)

trim_end-blanks : (s : Text) → All IsBlank s → trim_end s ≡ []
unfolding trim_end
trim_end-blanks [] h = refl
trim_end-blanks (c ∷ s) (h, hs) = rw (trim_end-blanks s hs, IsBlank-is_space c h) refl

trim_end-append : (s t : Text) → All IsBlank t → trim_end (s ++ t) ≡ trim_end s
unfolding trim_end
trim_end-append [] t h = trim_end-blanks t h
trim_end-append (c ∷ s) t h = ap (keep_char c) (trim_end-append s t h)

all-IsPlain : (s : Text) → any (λ c. c == b'(') s ≡ false → All IsPlain s
all-IsPlain [] h = tt
all-IsPlain (c ∷ s) h = (ground arith, all-IsPlain s (ground arith))

-- What is known of each name by looking at it.
record Known (name : Text) : Type 0 where
  plain : any (λ c. c == b'(') name ≡ false
  starts : (right : Text) → trim_start (name ++ right) ≡ name ++ right
  ends : trim_end name ≡ name
  merges :
      any (text_eq (unwrap_or (strip_prefix (codes "Replicated") name) name)) row_merging_engines
      ≡ true

family_spelled-Known :
    (replicated : Bool) (family : Merging) → Known (family_spelled replicated family)
unfolding trim_start trim_end
family_spelled-Known true replacing = record {
  plain = refl;
  starts = λ r. refl;
  ends = refl;
  merges = refl;
}
family_spelled-Known true collapsing = record {
  plain = refl;
  starts = λ r. refl;
  ends = refl;
  merges = refl;
}
family_spelled-Known true versioned_collapsing = record {
  plain = refl;
  starts = λ r. refl;
  ends = refl;
  merges = refl;
}
family_spelled-Known true summing = record {
  plain = refl;
  starts = λ r. refl;
  ends = refl;
  merges = refl;
}
family_spelled-Known true aggregating = record {
  plain = refl;
  starts = λ r. refl;
  ends = refl;
  merges = refl;
}
family_spelled-Known false replacing = record {
  plain = refl;
  starts = λ r. refl;
  ends = refl;
  merges = refl;
}
family_spelled-Known false collapsing = record {
  plain = refl;
  starts = λ r. refl;
  ends = refl;
  merges = refl;
}
family_spelled-Known false versioned_collapsing = record {
  plain = refl;
  starts = λ r. refl;
  ends = refl;
  merges = refl;
}
family_spelled-Known false summing = record {
  plain = refl;
  starts = λ r. refl;
  ends = refl;
  merges = refl;
}
family_spelled-Known false aggregating = record {
  plain = refl;
  starts = λ r. refl;
  ends = refl;
  merges = refl;
}

spelled-merges :
    (left : Text) (replicated : Bool) (family : Merging) (right : Text) (args : Option Text)
    → All IsBlank left
    → All IsBlank right
    → is_row_merging_engine (spelled left replicated family right args) ≡ true
unfolding is_row_merging_engine trim
spelled-merges left replicated family right args l r =
    let name = family_spelled replicated family in
    let known = family_spelled-Known replicated family in
    let plain : All IsPlain (left ++ (name ++ right)) =
      All-append left (name ++ right) (IsBlank-IsPlain left l)
        (All-append name right (all-IsPlain name known.plain) (IsBlank-IsPlain right r)) in
    rw
      (
        without_parameters-append (left ++ (name ++ right)) args plain,
        trim_start-blanks left (name ++ right) l,
        known.starts right,
        trim_end-append name right r,
        known.ends,
      )
      known.merges

or_key-is_nil :
    (order_by key : List Text) → is_nil (or_key order_by key) ≡ (is_nil order_by && is_nil key)
or_key-is_nil [] key = refl
or_key-is_nil (c ∷ cs) key = refl

order_cols-is_nil :
    (run : TransferConfig) → is_nil (order_cols run) ≡ (is_nil run.order_by && is_nil run.key)
order_cols-is_nil run = or_key-is_nil run.order_by run.key

given :
    (db table : Text) (columns : List ColumnType) (cfg : TableConfig)
    → is_row_merging_engine (effective_engine cfg.run) ≡ true
    → ((stmt : Text) × (create_table db table columns cfg ≡ inr stmt))
      ↔ ((is_nil columns ≡ false) × (is_nil (order_cols cfg.run) ≡ false))
unfolding create_table
given db table columns cfg merges = elim (Bool-cases (is_nil columns)) [
  | inl a ↦ rw a (λ (stmt, h). absurd (inl-ne-inr h), λ (n, m). cc)
  | inr a ↦ elim (Bool-cases (is_nil (order_cols cfg.run))) [
    | inl b ↦ rw (a, b, merges) (λ (stmt, h). absurd (inl-ne-inr h), λ (n, m). cc)
    | inr b ↦ rw (a, b) (λ x. (refl, refl), λ x. (statement db table columns cfg, refl))
  ]
]

-- A statement is given for an engine that merges the rows of equal sorting keys, replicated or not,
-- with any parameters and blanks around its name, exactly if there is a column, and order_by or key
-- is not empty.
pub create_table-Sorted :
    (db table : Text) (columns : List ColumnType) (cfg : TableConfig) (left : Text)
    (replicated : Bool) (family : Merging) (right : Text) (args : Option Text)
    → All IsBlank left
    → All IsBlank right
    → effective_engine cfg.run ≡ spelled left replicated family right args
    → ((stmt : Text) × (create_table db table columns cfg ≡ inr stmt))
      ↔ ((is_nil columns ≡ false) × ((is_nil cfg.run.order_by && is_nil cfg.run.key) ≡ false))
create_table-Sorted db table columns cfg left replicated family right args l r e =
    let merges : is_row_merging_engine (effective_engine cfg.run) ≡ true =
      ap is_row_merging_engine e ∙ spelled-merges left replicated family right args l r in
    let sorted = given db table columns cfg merges in
    subst
      (λ b.
        ((stmt : Text) × (create_table db table columns cfg ≡ inr stmt))
        ↔ ((is_nil columns ≡ false) × (b ≡ false)))
      (order_cols-is_nil cfg.run) sorted
