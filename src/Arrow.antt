-- ===== src/Arrow.antt =====
-- The variants of arrow's `DataType` and `TimeUnit` that the source matches on, and the columns of
-- types.rs.
use quickhouse.Prelude.{ℕ, Bool, Option, ℤ}
use quickhouse.Prelude.Text.{Text}

pub data TimeUnit : Type 0 where
  second millisecond microsecond nanosecond : TimeUnit

-- `other` stands for every variant that the modelled code leaves to a catch-all.
pub data DataType : Type 0 where
  boolean int8 int16 int32 int64 uint8 uint16 uint32 uint64 float32 float64 : DataType
  utf8 large_utf8 binary large_binary date32 date64 : DataType
  fixed_size_binary : ℕ → DataType
  timestamp : TimeUnit → Option Text → DataType
  decimal128 decimal256 : ℕ → ℤ → DataType
  other : DataType

-- A source column with its resolved types.
pub record ColumnType : Type 0 where
  pub name : Text
  pub type_id : ℕ
  pub nullable : Bool
  pub arrow : DataType
  pub clickhouse_inner : Text
  pub arbitrary_precision_decimal : Bool
  pub declared_decimal : Option (ℕ × ℤ)
