-- ===== src/Nulls/Distinct.antt =====
-- The columns that a run checks: no column twice, each at its place in the plan, and every column
-- that an option makes NOT NULL among them.
use quickhouse.Prelude.{
  ℕ, ◌≡◌, refl, ap, sym, ◌∙◌, inl, inr, Bool, true, false, ◌||◌, Option, none, some, List, [], ◌∷◌,
  ◌++◌, arith, map, any, All, All-append, get_elem?, Bool-cases, ◌==◌, if◌then◌else◌,
}
use quickhouse.Prelude.Text.{Text}
use quickhouse.Arrow.{ColumnType}
use quickhouse.Kinds.{WarningKind, kind_eq, rank}
use quickhouse.Tracker.{position}
use quickhouse.Columns.{names_of}
use quickhouse.Nulls.{Guarded, Defaulted}
use quickhouse.Nulls.Plan.{
  SelectPlan, taken, guard_at, unless_nullable, watermark_at, watermark_columns, key_position,
  add_key, key_columns,
}

abbrev pub Distinct : List ℕ → Type 0
Distinct [] = Unit
Distinct (x ∷ xs) = (any (λ c. c == x) xs ≡ false) × Distinct xs

abbrev pub positions : List Guarded → List ℕ
positions cs = map (λ (c : Guarded). c.idx) cs

abbrev pub fill_positions : List Defaulted → List ℕ
fill_positions ds = map (λ (d : Defaulted). d.idx) ds

any-snoc-false :
    (xs : List ℕ) (x y : ℕ)
    → any (λ c. c == y) xs ≡ false
    → (x == y) ≡ false
    → any (λ c. c == y) (xs ++ x ∷ []) ≡ false
any-snoc-false [] x y h e = rw e refl
any-snoc-false (z ∷ xs) x y h e = ground (arith, any-snoc-false xs x y)

any-append-false :
    (xs ys : List ℕ) (y : ℕ)
    → any (λ c. c == y) xs ≡ false
    → any (λ c. c == y) ys ≡ false
    → any (λ c. c == y) (xs ++ ys) ≡ false
any-append-false [] ys y h e = e
any-append-false (z ∷ xs) ys y h e = ground (arith, any-append-false xs ys y)

pub any-append-left :
    (xs ys : List ℕ) (y : ℕ) → any (λ c. c == y) xs ≡ true → any (λ c. c == y) (xs ++ ys) ≡ true
any-append-left [] ys y h = cc
any-append-left (z ∷ xs) ys y h = ground (arith, any-append-left xs ys y)

pub any-append-right :
    (xs ys : List ℕ) (y : ℕ) → any (λ c. c == y) ys ≡ true → any (λ c. c == y) (xs ++ ys) ≡ true
any-append-right [] ys y h = h
any-append-right (z ∷ xs) ys y h = ground (arith, any-append-right xs ys y)

-- None of the positions `ys` is among `xs`.
abbrev pub Apart : List ℕ → List ℕ → Type 0
Apart xs ys = All (λ y. any (λ c. c == y) xs ≡ false) ys

not_among :
    (x : ℕ) (xs ys : List ℕ) → Apart (x ∷ xs) ys → (any (λ c. c == x) ys ≡ false) × Apart xs ys
not_among x xs [] h = (refl, tt)
not_among x xs (y ∷ ys) (h, hs) =
    let (p, q) = not_among x xs ys hs in (ground arith, (ground arith, q))

pub Distinct-append :
    (xs ys : List ℕ) → Distinct xs → Distinct ys → Apart xs ys → Distinct (xs ++ ys)
Distinct-append [] ys dx dy h = dy
Distinct-append (x ∷ xs) ys (n, dx) dy h =
    let (p, q) = not_among x xs ys h in
    (any-append-false xs ys x n p, Distinct-append xs ys dx dy q)

pub taken-positions :
    (cs : List Guarded) (idx : ℕ) → taken cs idx ≡ any (λ c. c == idx) (positions cs)
taken-positions [] idx = refl
taken-positions (c ∷ cs) idx = ap (◌||◌ (c.idx == idx)) (taken-positions cs idx)

positions-append : (cs ds : List Guarded) → positions (cs ++ ds) ≡ positions cs ++ positions ds
positions-append [] ds = refl
positions-append (c ∷ cs) ds = ap (◌∷◌ c.idx) (positions-append cs ds)

-- The column at `idx` has that name.
abbrev pub Placed : SelectPlan → ℕ → Text → Type 0
Placed plan idx name =
    (col : ColumnType) × (get_elem? plan.dest_columns idx ≡ some col) × (col.name ≡ name)

-- The column's NULL rows are left out, not filled in.
abbrev pub LeavesOut : Guarded → Type 0
LeavesOut c = kind_eq c.kind WarningKind.null_defaulted ≡ false

key_leaves_out : kind_eq WarningKind.null_key WarningKind.null_defaulted ≡ false
unfolding kind_eq rank
key_leaves_out = refl

watermark_leaves_out : kind_eq WarningKind.null_watermark WarningKind.null_defaulted ≡ false
unfolding kind_eq rank
watermark_leaves_out = refl

module _ (plan : SelectPlan) where
  abbrev pub PlacedGuards : List Guarded → Type 0
  PlacedGuards cs = All (λ (c : Guarded). Placed plan c.idx c.dest) cs

  pub record Good (cs : List Guarded) : Type 0 where
    pub distinct : Distinct (positions cs)
    pub placed : PlacedGuards cs
    pub kinds : All LeavesOut cs

  -- One more guarded column, where its position is free.
  guard_at-Good :
      (idx : ℕ) (column : Text) (kind : WarningKind) (o : Option ColumnType) (cs : List Guarded)
      → ((d : ColumnType) → o ≡ some d → get_elem? plan.dest_columns idx ≡ some d)
      → taken cs idx ≡ false
      → kind_eq kind WarningKind.null_defaulted ≡ false
      → Good cs
      → Good (guard_at idx column kind o cs)
  guard_at-Good idx column kind none cs at free leaves g = g
  guard_at-Good idx column kind (some d) cs at free leaves g =
      let added : Guarded = record { idx = idx; dest = d.name; column = column; kind = kind } in
      record {
        distinct = rw (positions-append cs (added ∷ [])) (
            Distinct-append (positions cs) (idx ∷ []) g.distinct (refl, tt)
              (sym (taken-positions cs idx) ∙ free, tt));
        placed =
            All-append (λ (c : Guarded). Placed plan c.idx c.dest) cs (added ∷ []) g.placed
              ((d, at d refl, refl), tt);
        kinds = All-append LeavesOut cs (added ∷ []) g.kinds (leaves, tt);
      }

  add_key-Good :
      (k : Text) (o : Option ℕ) (cs : List Guarded) → Good cs → Good (add_key plan k o cs)
  add_key-Good k none cs g = g
  add_key-Good k (some idx) cs g = elim (Bool-cases (taken cs idx)) [
    | inl e ↦ rw e g
    | inr e ↦ rw e (
        guard_at-Good idx k WarningKind.null_key (get_elem? plan.dest_columns idx) cs (λ d h. h) e
          key_leaves_out g)
  ]

  pub key_columns-Good :
      (ks : List Text) (cs : List Guarded) → Good cs → Good (key_columns plan ks cs)
  unfolding key_columns
  key_columns-Good [] cs g = g
  key_columns-Good (k ∷ ks) cs g =
      key_columns-Good ks _ (add_key-Good k (key_position (names_of plan.dest_columns) k) cs g)

  no_guards : Good []
  no_guards = record { distinct = tt; placed = tt; kinds = tt }

  not_left_out :
      (b : Bool) (c d : ColumnType) → (if b then none else some c) ≡ some d → some c ≡ some d
  not_left_out true c d h = cc
  not_left_out false c d h = h

  unless_nullable-some :
      (o : Option ColumnType) (d : ColumnType) → unless_nullable o ≡ some d → o ≡ some d
  unless_nullable-some none d h = cc
  unless_nullable-some (some c) d h = not_left_out c.nullable c d h

  pub watermark_columns-Good : (w : Option Text) → Good (watermark_columns plan w)
  watermark_columns-Good none = no_guards
  watermark_columns-Good (some w) = at_position (position plan.source_columns w)
    where
      at_position : (o : Option ℕ) → Good (watermark_at plan w o)
      at_position none = no_guards
      at_position (some idx) =
          guard_at-Good idx w WarningKind.null_watermark
            (unless_nullable (get_elem? plan.dest_columns idx)) []
            (unless_nullable-some (get_elem? plan.dest_columns idx)) refl watermark_leaves_out
            no_guards
