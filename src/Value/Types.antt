-- ===== src/Value/Types.antt =====
-- `Value::data_type`, the same in mod.rs and value_ref.rs, and the equality of types.
use tonbo.Prelude.{
  ℕ, Bool, true, false, Option, none, some, [], ◌∷◌, ◌≡◌, refl, ltb, if◌then◌else◌, ◌%◌, ◌^◌, ◌-◌,
}
use native.Mathlib.Decide.{ℕ_discrete}
use tonbo.Prelude.Integers.{ℤ, pos, negsuc}
use tonbo.Value.{
  Text, TimeUnit, second, millisecond, microsecond, nanosecond, DataType, null_type, boolean_type,
  int8_type, int16_type, int32_type, int64_type, uint8_type, uint16_type, uint32_type, uint64_type,
  float32_type, float64_type, utf8_type, binary_type, date32_type, date64_type, timestamp_type,
  time32_type, time64_type, fixed_size_binary_type, list_type, Value,
}
use tonbo.Value.Value.{
  null, boolean, int8, int16, int32, int64, uint8, uint16, uint32, uint64, float32, float64, string,
  binary, fixed_size_binary, date32, date64, time32, time64, timestamp, list,
}

TimeUnit-discrete : Discrete TimeUnit
TimeUnit-discrete = hlevel

pub DataType-discrete : Discrete DataType
DataType-discrete = hlevel (ℕ_discrete)

abbrev decided {ℓ} : {P : Type ℓ} → Dec P → Bool
decided (yes p) = true
decided (no q) = false

-- `==` of types
unfoldable pub same_type : DataType → DataType → Bool
same_type a b = decided (DataType-discrete a b)

unfoldable pub same_unit : TimeUnit → TimeUnit → Bool
same_unit second second = true
same_unit millisecond millisecond = true
same_unit microsecond microsecond = true
same_unit nanosecond nanosecond = true
same_unit _ _ = false

-- the name of the field of a list, `"item"`
abbrev pub item : Text
item = 105 ∷ 116 ∷ 101 ∷ 109 ∷ []

abbrev pub time32_of : TimeUnit → Option DataType
time32_of second = some (time32_type second)
time32_of millisecond = some (time32_type millisecond)
time32_of _ = none

abbrev pub time64_of : TimeUnit → Option DataType
time64_of microsecond = some (time64_type microsecond)
time64_of nanosecond = some (time64_type nanosecond)
time64_of _ = none

-- `w as i32`
abbrev pub as_i32 : ℕ → ℤ
as_i32 w = if ltb (w % 2 ^ 32) (2 ^ 31) then pos (w % 2 ^ 32) else negsuc (2 ^ 32 - w % 2 ^ 32 - 1)

-- a time with a unit that its type does not have panics
unfoldable pub data_type : Value → Option DataType
data_type null = some null_type
data_type (boolean b) = some boolean_type
data_type (int8 v) = some int8_type
data_type (int16 v) = some int16_type
data_type (int32 v) = some int32_type
data_type (int64 v) = some int64_type
data_type (uint8 v) = some uint8_type
data_type (uint16 v) = some uint16_type
data_type (uint32 v) = some uint32_type
data_type (uint64 v) = some uint64_type
data_type (float32 v) = some float32_type
data_type (float64 v) = some float64_type
data_type (string v) = some utf8_type
data_type (binary v) = some binary_type
data_type (fixed_size_binary v width) = some (fixed_size_binary_type (as_i32 width))
data_type (date32 v) = some date32_type
data_type (date64 v) = some date64_type
data_type (timestamp v unit) = some (timestamp_type unit none)
data_type (time32 v unit) = time32_of unit
data_type (time64 v unit) = time64_of unit
data_type (list ty vs) = some (list_type item ty false)

pub same_type_self : (a : DataType) → same_type a a ≡ true
unfolding same_type
same_type_self a = elim (DataType-discrete a a) as (λ d. decided d ≡ true) [
  | yes p ↦ refl
  | no q ↦ elim (q refl) [ ]
]

pub same_type-eq : (a b : DataType) → same_type a b ≡ true → a ≡ b
unfolding same_type
same_type-eq a b = elim (DataType-discrete a b) as (λ d. decided d ≡ true → a ≡ b) [
  | yes p ↦ λ h. p
  | no q ↦ λ h. cc
]
