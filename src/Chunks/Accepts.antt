-- ===== src/Chunks/Accepts.antt =====
-- What a chunked read may be keyed on.
use quickhouse.Prelude.{
  ℕ, suc, ◌+◌, ◌≡◌, refl, ap, sym, ◌⊎◌, inl, inr, Bool, true, false, not, ◌&&◌, Option, none, some,
  List, [], ◌∷◌, arith, any, find, get_elem?, if◌then◌else◌, Bool-cases, Option-cases,
}
use mathlib.Core.Option.{some-injective}
use quickhouse.Prelude.Text.{Text, text_eq, text_eq→eq}
use quickhouse.Arrow.{ColumnType}
use quickhouse.Tracker.{position}
use quickhouse.Chunks.{
  ChunkConfig, ChunkPlan, is_chunk_key, or_error, build_chunk_plan, for_column, for_index, for_key,
  is_named, no_keyset, planned_with,
}

-- A column that a plan may order and resume on.
pub record IsKey (cfg : ChunkConfig) (source_cols : List ColumnType) (proven : Bool) (key : Text)
    : Type 0 where
  pub column : ColumnType
  pub found : find (is_named key) source_cols ≡ some column
  pub named : column.name ≡ key
  pub integer : is_chunk_key column.arrow ≡ true
  pub no_null : (column.nullable && not proven && not cfg.keyset_not_null) ≡ false
  pub raw : any (λ t. text_eq t key) cfg.transformed ≡ false

get_elem?-position :
    (cs : List Text) (name : Text) (i : ℕ) → position cs name ≡ some i → get_elem? cs i ≡ some name
get_elem?-position [] name i h = cc
get_elem?-position (c ∷ cs) name i h = elim (Bool-cases (text_eq c name)) [
  | inl e ↦
      let first : i ≡ 0 = sym (some-injective 0 i (rw e at h)) in
      rw first (ap some (text_eq→eq c name e))
  | inr e ↦ elim (Option-cases (position cs name)) [
    | inl q ↦ cc (rw (e, q) at h)
    | inr (j, q) ↦
        let next : i ≡ suc j = omega (arith, some-injective (j + 1) i (rw (e, q) at h)) in
        rw next (get_elem?-position cs name j q)
  ]
]

find-holds :
    (p : ColumnType → Bool) (cs : List ColumnType) (c : ColumnType)
    → find p cs ≡ some c
    → p c ≡ true
find-holds p [] c h = cc
find-holds p (x ∷ cs) c h = elim (Bool-cases (p x)) [
  | inl e ↦ let same = some-injective x c (rw e at h) in rw (← same) e
  | inr e ↦ find-holds p cs c (rw e at h)
]

from_or_error :
    {A B : Type 0} (o : Option A) (e : Text) (f : A → Text ⊎ B) (b : B)
    → or_error o e f ≡ inr b
    → (a : A) × (o ≡ some a) × (f a ≡ inr b)
from_or_error none e f b h = absurd cc
from_or_error (some a) e f b h = (a, refl, h)

from_guard :
    {B : Type 0} (c : Bool) (e : Text) (x : Text ⊎ B) (b : B)
    → (if c then inl e else x) ≡ inr b
    → (c ≡ false) × (x ≡ inr b)
from_guard true e x b h = absurd cc
from_guard false e x b h = (refl, h)

abbrev plan_in : ChunkPlan → Text ⊎ ChunkPlan → ChunkPlan
plan_in p (inl e) = p
plan_in p (inr q) = q

negated : (b : Bool) → not b ≡ false → b ≡ true
negated true h = refl
negated false h = absurd cc

for_column-ok :
    (cfg : ChunkConfig) (proven : Bool) (p plan : ChunkPlan) (c : ColumnType)
    → for_column cfg proven p c ≡ inr plan
    → (is_chunk_key c.arrow ≡ true)
      × ((c.nullable && not proven && not cfg.keyset_not_null) ≡ false)
      × (p ≡ plan)
unfolding for_column
for_column-ok cfg proven p plan c h =
    let (not_other, h') = from_guard (not (is_chunk_key c.arrow)) _ _ plan h in
    let (no_null, h'') = from_guard _ _ _ plan h' in
    (negated (is_chunk_key c.arrow) not_other, no_null, ap (plan_in plan) h'')

for_index-ok :
    (cfg : ChunkConfig) (cols : List ColumnType) (proven : Bool) (p plan : ChunkPlan)
    → for_index cfg cols proven p ≡ inr plan
    → IsKey cfg cols proven p.keyset_col × (p ≡ plan)
unfolding for_index
for_index-ok cfg cols proven p plan h =
    let (raw, h') = from_guard _ _ _ plan h in
    let (c, found, h'') =
      from_or_error (find (is_named p.keyset_col) cols) _ (for_column cfg proven p) plan h' in
    let (integer, no_null, same) = for_column-ok cfg proven p plan c h'' in
    (
      record {
        column = c;
        found = found;
        named = text_eq→eq c.name p.keyset_col (find-holds (is_named p.keyset_col) cols c found);
        integer = integer;
        no_null = no_null;
        raw = raw;
      },
      same,
    )

-- A plan is made only for a key that the projection reads at the plan's index, that no transform
-- touches, and whose column is an integer that is known to hold no NULL; the plan carries the bounds
-- that it was given.
pub build_chunk_plan-IsKey :
    (cfg : ChunkConfig) (source_columns : List Text) (source_cols : List ColumnType) (limit : ℕ)
    (committed effective_upper start_cursor : Option Text) (proven : Bool) (plan : ChunkPlan)
    → build_chunk_plan cfg source_columns source_cols limit committed effective_upper start_cursor
        proven
      ≡ inr plan
    → IsKey cfg source_cols proven plan.keyset_col
      × (cfg.keyset_column ≡ some plan.keyset_col)
      × (get_elem? source_columns plan.keyset_idx ≡ some plan.keyset_col)
      × (plan.effective_upper ≡ effective_upper)
      × (plan.start_cursor ≡ start_cursor)
unfolding build_chunk_plan for_key
build_chunk_plan-IsKey cfg source_columns source_cols limit committed upper start proven plan h =
    let draft = planned_with limit committed upper start in
    let (key, e, h') =
      from_or_error cfg.keyset_column no_keyset
        (for_key cfg source_columns source_cols proven draft) plan h in
    let (idx, at, h'') =
      from_or_error (position source_columns key) _
        (λ i. for_index cfg source_cols proven (draft key i)) plan h' in
    let (is_key, same) = for_index-ok cfg source_cols proven (draft key idx) plan h'' in
    rw (← same) (is_key, e, get_elem?-position source_columns key idx at, refl, refl)
