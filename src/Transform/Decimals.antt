-- ===== src/Transform/Decimals.antt =====
-- transform.rs: the decimals that a destination holds, and the type that a declared decimal defaults
-- to. `String`s are sorted by their bytes, which is by code points.
use quickhouse.Prelude.{
  ℕ, Bool, true, false, not, ◌&&◌, ◌||◌, Option, none, some, List, [], ◌∷◌, ◌++◌, ltb, ◌==◌,
  if◌then◌else◌, is_some, ℤ, pos, ltb_ℤ, ◌-ℤ◌,
}
use quickhouse.Prelude.Text.{Text, codes, show_ℕ, show_ℤ}
use quickhouse.Arrow.{ColumnType}
use quickhouse.Nulls.Plan.{DestKind, click_house, big_query, csv}
use quickhouse.Transform.{
  PlanConfig, ExistingColumns, no_table, unknown, known, get, type_of, included, renamed,
}
use quickhouse.Transform.Types.{upper, starts_with, holds_text}

pub data ExistingDecimals : Type 0 where
  nothing decimal float : ExistingDecimals
  mixed : List Text → List Text → ExistingDecimals

unfoldable pub decimal_fits : ℕ → ℤ → DestKind → Bool
unfolding ◌-ℤ◌
decimal_fits p s big_query = not (ltb_ℤ (pos 9) s || ltb_ℤ (pos 29) (pos p -ℤ s))
decimal_fits p s click_house = true
decimal_fits p s csv = true

unfoldable pub is_decimal_type : Text → Bool
is_decimal_type dest_type =
    holds_text (codes "DECIMAL") (upper dest_type)
    || starts_with (codes "NUMERIC") (upper dest_type)
    || starts_with (codes "BIGNUMERIC") (upper dest_type)

abbrev comes_first : Text → Text → Bool
comes_first [] t = true
comes_first (b ∷ s) [] = false
comes_first (b ∷ s) (c ∷ t) = ltb b c || (b == c && comes_first s t)

abbrev put : Text → List Text → List Text
put n [] = n ∷ []
put n (m ∷ ms) = let rest = put n ms in if comes_first n m then n ∷ m ∷ ms else m ∷ rest

abbrev sorted : List Text → List Text
sorted [] = []
sorted (n ∷ ns) = put n (sorted ns)

-- The names of decimal columns and of others.
abbrev sort_out : Text → Option Text → List Text × List Text → List Text × List Text
unfolding is_decimal_type
sort_out name none found = found
sort_out name (some t) (ds, fs) = if is_decimal_type t then (name ∷ ds, fs) else (ds, name ∷ fs)

abbrev overridden : PlanConfig → ColumnType → Bool
overridden cfg c =
    is_some (get cfg.type_overrides c.name) || is_some (get cfg.type_overrides (renamed cfg c.name))

abbrev look_at :
    PlanConfig
    → DestKind
    → ExistingColumns
    → ColumnType
    → Option (ℕ × ℤ)
    → List Text × List Text
    → List Text × List Text
unfolding decimal_fits type_of is_decimal_type
look_at cfg dest_kind existing c none found = found
look_at cfg dest_kind existing c (some (p, s)) found =
    if overridden cfg c || not (decimal_fits p s dest_kind)
    then found
    else sort_out (renamed cfg c.name) (type_of existing (renamed cfg c.name)) found

abbrev found_in : PlanConfig → DestKind → ExistingColumns → List ColumnType → List Text × List Text
unfolding decimal_fits type_of is_decimal_type
found_in cfg dest_kind existing [] = ([], [])
found_in cfg dest_kind existing (c ∷ cs) =
    look_at cfg dest_kind existing c c.declared_decimal (found_in cfg dest_kind existing cs)

abbrev classify : List Text × List Text → ExistingDecimals
classify ([], []) = nothing
classify (d ∷ ds, []) = decimal
classify ([], f ∷ fs) = float
classify (d ∷ ds, f ∷ fs) = mixed (sorted (d ∷ ds)) (sorted (f ∷ fs))

unfoldable pub existing_decimals :
    List ColumnType → PlanConfig → DestKind → ExistingColumns → ExistingDecimals
unfolding decimal_fits type_of is_decimal_type
existing_decimals source cfg csv existing = nothing
existing_decimals source cfg click_house existing =
    classify (found_in cfg click_house existing (included cfg source))
existing_decimals source cfg big_query existing =
    classify (found_in cfg big_query existing (included cfg source))

abbrev is_float : ExistingDecimals → Bool
is_float float = true
is_float _ = false

-- Whether the table keeps the default from a column.
abbrev pub held_back : ExistingColumns → Text → ExistingDecimals → Bool
unfolding type_of is_decimal_type
held_back no_table name siblings = false
held_back unknown name siblings = true
held_back (known m) name siblings = elim (type_of (known m) name) [
  | some t ↦ not (is_decimal_type t)
  | none ↦ is_float siblings
]

abbrev default_of :
    Option (ℕ × ℤ) → Text → DestKind → ExistingColumns → ExistingDecimals → Option Text
unfolding type_of is_decimal_type decimal_fits
default_of none name dest_kind existing siblings = none
default_of (some (p, s)) name dest_kind existing siblings =
    if held_back existing name siblings || not (decimal_fits p s dest_kind)
    then none
    else some (codes "Decimal(" ++ show_ℕ p ++ codes ", " ++ show_ℤ s ++ codes ")")

unfoldable pub declared_decimal_default :
    ColumnType → Text → DestKind → ExistingColumns → ExistingDecimals → Option Text
unfolding type_of is_decimal_type decimal_fits
declared_decimal_default c dest_name dest_kind existing siblings =
    default_of c.declared_decimal dest_name dest_kind existing siblings
