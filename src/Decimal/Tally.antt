-- ===== src/Decimal/Tally.antt =====
-- decimal.rs: `Coercion` and `CoercionTally`, the counts of lossy values by column.
use quickhouse.Prelude.{
  ℕ, zero, suc, ◌+◌, Option, none, some, List, [], ◌∷◌, ◌++◌, map, length, replicate, get_elem?,
  sum, ltb, if◌then◌else◌, unwrap_or,
}
use quickhouse.Prelude.Text.{Text}
use quickhouse.Kinds.{WarningKind}

pub data Coercion : Type 0 where
  no_coercion date_range decimal_overflow bool_collapse : Coercion

-- The counts of one column, by slot.
pub record Slots : Type 0 where
  pub date : ℕ
  pub decimal : ℕ
  pub bool : ℕ
  pub scalar : ℕ

pub record CoercionTally : Type 0 where
  pub names : List Text
  pub counts : List Slots

pub data Slot : Type 0 where
  date_slot decimal_slot bool_slot scalar_slot : Slot

unfoldable pub slot : WarningKind → Option Slot
slot WarningKind.coerced_date = some date_slot
slot WarningKind.coerced_decimal = some decimal_slot
slot WarningKind.collapsed_bool = some bool_slot
slot WarningKind.coerced_scalar = some scalar_slot
slot _ = none

unfoldable pub kind_of : Slot → WarningKind
kind_of date_slot = WarningKind.coerced_date
kind_of decimal_slot = WarningKind.coerced_decimal
kind_of bool_slot = WarningKind.collapsed_bool
kind_of scalar_slot = WarningKind.coerced_scalar

abbrev pub at : Slot → Slots → ℕ
at date_slot row = row.date
at decimal_slot row = row.decimal
at bool_slot row = row.bool
at scalar_slot row = row.scalar

abbrev pub count_up : Slot → Slots → Slots
count_up date_slot row = record row { date = row.date + 1 }
count_up decimal_slot row = record row { decimal = row.decimal + 1 }
count_up bool_slot row = record row { bool = row.bool + 1 }
count_up scalar_slot row = record row { scalar = row.scalar + 1 }

abbrev no_counts : Slots
no_counts = record { date = 0; decimal = 0; bool = 0; scalar = 0 }

unfoldable pub new : List Text → CoercionTally
new names = record { names = names; counts = replicate (length names) no_counts }

-- `counts.get_mut(col)`: nothing happens past the end.
unfoldable pub update : Slot → ℕ → List Slots → List Slots
update sl col [] = []
update sl zero (row ∷ rows) = count_up sl row ∷ rows
update sl (suc col) (row ∷ rows) = row ∷ update sl col rows

abbrev pub update_slot : Option Slot → ℕ → List Slots → List Slots
update_slot none col rows = rows
update_slot (some sl) col rows = update sl col rows

unfoldable pub record_kind : CoercionTally → ℕ → WarningKind → CoercionTally
unfolding slot update
record_kind t col kind = record t { counts = update_slot (slot kind) col t.counts }

unfoldable pub record_coercion : CoercionTally → ℕ → Coercion → CoercionTally
unfolding record_kind
record_coercion t col no_coercion = t
record_coercion t col date_range = record_kind t col WarningKind.coerced_date
record_coercion t col decimal_overflow = record_kind t col WarningKind.coerced_decimal
record_coercion t col bool_collapse = record_kind t col WarningKind.collapsed_bool

unfoldable pub sum_at : Option Slot → List Slots → ℕ
sum_at none rows = 0
sum_at (some sl) rows = sum (map (at sl) rows)

unfoldable pub total : CoercionTally → WarningKind → ℕ
unfolding slot sum_at
total t kind = sum_at (slot kind) t.counts

abbrev pub non_zero : WarningKind → Text → ℕ → List (WarningKind × Text × ℕ)
non_zero kind name n = if ltb 0 n then (kind, name, n) ∷ [] else []

abbrev pub row_entries : Text → Slots → List (WarningKind × Text × ℕ)
row_entries name row =
    non_zero WarningKind.coerced_date name row.date
    ++ non_zero WarningKind.coerced_decimal name row.decimal
    ++ non_zero WarningKind.collapsed_bool name row.bool
    ++ non_zero WarningKind.coerced_scalar name row.scalar

abbrev pub rows_from : ℕ → List Text → List Slots → List (WarningKind × Text × ℕ)
rows_from i names [] = []
rows_from i names (row ∷ rows) =
    row_entries (unwrap_or (get_elem? names i) []) row ++ rows_from (i + 1) names rows

unfoldable pub entries : CoercionTally → List (WarningKind × Text × ℕ)
entries t = rows_from 0 t.names t.counts
