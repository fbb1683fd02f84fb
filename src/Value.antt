-- ===== src/Value.antt =====
-- src/record/dynamic/value: `Value`, the fields of a dynamic record, with its order (mod.rs), its
-- references (value_ref.rs), its encoding (encoding.rs) and the helpers of util.rs. A `ValueRef` is a
-- borrowed `Value` and the same type here. Strings and binaries are lists of bytes, floats are their
-- bits, and `none` is a panic. Of arrow's `DataType` the constructors that the code names are here; its
-- `TimeUnit` has the same four units as the one of src/record/key/timestamp.rs, and is the same type.
pub mod Types
pub mod Time
pub mod Order
pub mod Borrowed
pub mod Encoding
mod Examples
use tonbo.Prelude.{ℕ, Bool, true, false, Option, none, some, List}
use tonbo.Prelude.Integers.{ℤ}

abbrev pub Text : Type 0
Text = List ℕ

pub data TimeUnit : Type 0 where
  second millisecond microsecond nanosecond : TimeUnit

-- a timestamp has the name of its timezone, if any; a list has the name, the type and the nullability of its field
pub data DataType : Type 0 where
  null_type boolean_type int8_type int16_type int32_type int64_type : DataType
  uint8_type uint16_type uint32_type uint64_type float32_type float64_type : DataType
  utf8_type large_utf8_type binary_type large_binary_type date32_type date64_type : DataType
  timestamp_type : TimeUnit → Option Text → DataType
  time32_type time64_type : TimeUnit → DataType
  fixed_size_binary_type : ℤ → DataType
  list_type : Text → DataType → Bool → DataType

mutual
  pub data Value : Type 0 where
    null : Value
    boolean : Bool → Value
    int8 int16 int32 int64 : ℤ → Value
    uint8 uint16 uint32 uint64 : ℕ → Value
    float32 float64 : ℕ → Value
    string binary : Text → Value
    fixed_size_binary : Text → ℕ → Value
    date32 date64 : ℤ → Value
    time32 time64 timestamp : ℤ → TimeUnit → Value
    list : DataType → Values → Value

  pub data Values : Type 0 where
    nil : Values
    cons : Value → Values → Values

-- `Value::is_null`
abbrev pub is_null : Value → Bool
is_null null = true
is_null _ = false
