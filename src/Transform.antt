-- ===== src/Transform.antt =====
-- transform.rs: what a run reads and writes. A map of the configuration is a list of keys with their
-- values, in the order of an iteration over it. The texts of the errors are shortened.
pub mod Types
pub mod Decimals
pub mod Plan
pub mod Written
pub mod Projects
pub mod Tests
use quickhouse.Prelude.{
  is_nil, or_else, Bool, true, false, not, ◌&&◌, ◌||◌, Option, none, some, List, [], ◌∷◌, any,
  if◌then◌else◌,
}
use quickhouse.Prelude.Text.{Text, text_eq}
use quickhouse.Columns.{column_key, filter}
use quickhouse.Arrow.{ColumnType}
use quickhouse.Nulls.Plan.{TransferConfig}

abbrev pub Map : Type 0
Map = List (Text × Text)

-- What a plan is made from: `run` is the part of the configuration that the NULL guard reads too.
pub record PlanConfig : Type 0 where
  pub run : TransferConfig
  pub include : List Text
  pub exclude : List Text
  pub rename : Map
  pub column_transforms : Map
  pub column_transform_types : Map
  pub type_overrides : Map
  pub numeric_as_decimal : Option Text

pub data ExistingColumns : Type 0 where
  no_table unknown : ExistingColumns
  known : Map → ExistingColumns

abbrev pub get : Map → Text → Option Text
get [] k = none
get ((k', v) ∷ m) k = if text_eq k' k then some v else get m k

abbrev pub get_any_case : Map → Text → Option Text
unfolding column_key
get_any_case [] k = none
get_any_case ((k', v) ∷ m) k =
    if text_eq (column_key k' true) (column_key k true) then some v else get_any_case m k

abbrev pub lists : List Text → Text → Bool
lists names n = any (λ m. text_eq m n) names

unfoldable pub type_of : ExistingColumns → Text → Option Text
unfolding column_key
type_of no_table name = none
type_of unknown name = none
type_of (known m) name = or_else (get m name) (get_any_case m name)

-- Read, by include and then exclude.
abbrev pub is_included : PlanConfig → ColumnType → Bool
is_included cfg c =
    (is_nil cfg.include || lists cfg.include c.name) && not (lists cfg.exclude c.name)

abbrev pub included : PlanConfig → List ColumnType → List ColumnType
included cfg source = filter (is_included cfg) source

abbrev pub renamed : PlanConfig → Text → Text
renamed cfg name = elim (get cfg.rename name) [ some n ↦ n | none ↦ name ]
