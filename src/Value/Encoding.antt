-- ===== src/Value/Encoding.antt =====
-- The encoding of values and of their types: src/record/dynamic/value/encoding.rs and util.rs. The codecs
-- of the scalars are those of fusio_log, and arguments. `none` is an `unreachable!()` of `data_type`.
pub mod RoundTrip
use tonbo.Prelude.{
  ℕ, zero, suc, ◌+◌, ◌-◌, ◌%◌, ◌^◌, ◌≤◌, ◌<◌, Bool, true, false, Option, none, some, List, [], ◌∷◌,
  ◌++◌, length, if◌then◌else◌, ◌==◌,
}
use tonbo.Prelude.Result.{Result, ok, err, ◌>>=◌}
use tonbo.Prelude.Integers.{ℤ, pos, negsuc}
use tonbo.Codec.{Bytes, ReadError, ended, panics, invalid_type, Codec, HasBits, Numbers}
use tonbo.Value.Types.{item, data_type}
use tonbo.Value.Borrowed.{as_u32}
use tonbo.Value.{
  null_type, boolean_type, int8_type, int16_type, int32_type, int64_type, uint8_type, uint16_type,
  uint32_type, uint64_type, float32_type, float64_type, utf8_type, large_utf8_type, binary_type,
  large_binary_type, date32_type, date64_type, timestamp_type, time32_type, time64_type,
  fixed_size_binary_type, list_type,
}
use tonbo.Value.{
  Text, TimeUnit, second, millisecond, microsecond, nanosecond, DataType, Value, Values, nil, cons,
}
use tonbo.Value.Value.{
  null, boolean, int8, int16, int32, int64, uint8, uint16, uint32, uint64, float32, float64, string,
  binary, fixed_size_binary, date32, date64, time32, time64, timestamp, list,
}

-- a signed number of so many bits, one of which is the sign
abbrev pub HasSignedBits : ℕ → ℤ → Type 0
HasSignedBits w (pos n) = n < 2 ^ w
HasSignedBits w (negsuc n) = n < 2 ^ w

abbrev pub IsAny {ℓ} : {A : Type ℓ} → A → Type 0
IsAny a = Unit

-- strings and binaries have less than 2 ^ 32 bytes
abbrev pub IsShort : Text → Type 0
IsShort t = length t < 2 ^ 32

pub record Scalars : Type 0 where
  pub u8 : Codec ℕ (HasBits 8)
  pub u16 : Codec ℕ (HasBits 16)
  pub u32 : Codec ℕ (HasBits 32)
  pub u64 : Codec ℕ (HasBits 64)
  pub i8 : Codec ℤ (HasSignedBits 7)
  pub i16 : Codec ℤ (HasSignedBits 15)
  pub i32 : Codec ℤ (HasSignedBits 31)
  pub i64 : Codec ℤ (HasSignedBits 63)
  pub f32 : Codec ℕ (HasBits 32)
  pub f64 : Codec ℕ (HasBits 64)
  pub bool : Codec Bool IsAny
  pub text : Codec Text IsShort
  pub binary_of : Codec Text IsShort

abbrev pub unit_tag : TimeUnit → ℕ
unit_tag second = 0
unit_tag millisecond = 1
unit_tag microsecond = 2
unit_tag nanosecond = 3

abbrev pub unit_of : ℕ → Result TimeUnit ReadError
unit_of zero = ok second
unit_of (suc zero) = ok millisecond
unit_of (suc (suc zero)) = ok microsecond
unit_of (suc (suc (suc zero))) = ok nanosecond
unit_of _ = err panics

-- the tags of the types
abbrev pub type_tag : DataType → ℕ
type_tag null_type = 0
type_tag uint8_type = 1
type_tag uint16_type = 2
type_tag uint32_type = 3
type_tag uint64_type = 4
type_tag int8_type = 5
type_tag int16_type = 6
type_tag int32_type = 7
type_tag int64_type = 8
type_tag utf8_type = 9
type_tag large_utf8_type = 10
type_tag boolean_type = 11
type_tag binary_type = 12
type_tag large_binary_type = 13
type_tag float32_type = 14
type_tag float64_type = 15
type_tag (timestamp_type unit timezone) = 16
type_tag date32_type = 17
type_tag date64_type = 18
type_tag (time32_type unit) = 19
type_tag (time64_type unit) = 20
type_tag (fixed_size_binary_type w) = 21
type_tag (list_type name ty nullable) = 30

-- what the tag says: the type, or what is to be read after it
pub data Shape : Type 0 where
  plain : DataType → Shape
  with_unit : (TimeUnit → DataType) → Shape
  with_width with_field unknown : Shape

abbrev known_shapes : List (ℕ × Shape)
known_shapes =
    (0, plain null_type)
    ∷ (1, plain uint8_type)
    ∷ (2, plain uint16_type)
    ∷ (3, plain uint32_type)
    ∷ (4, plain uint64_type)
    ∷ (5, plain int8_type)
    ∷ (6, plain int16_type)
    ∷ (7, plain int32_type)
    ∷ (8, plain int64_type)
    ∷ (9, plain utf8_type)
    ∷ (10, plain large_utf8_type)
    ∷ (11, plain boolean_type)
    ∷ (12, plain binary_type)
    ∷ (13, plain large_binary_type)
    ∷ (14, plain float32_type)
    ∷ (15, plain float64_type)
    ∷ (16, with_unit (λ unit. timestamp_type unit none))
    ∷ (17, plain date32_type)
    ∷ (18, plain date64_type)
    ∷ (19, with_unit time32_type)
    ∷ (20, with_unit time64_type)
    ∷ (21, with_width)
    ∷ (30, with_field)
    ∷ []

abbrev find_shape : ℕ → List (ℕ × Shape) → Shape
find_shape tag [] = unknown
find_shape tag (s ∷ l) = if tag == s.0 then s.1 else find_shape tag l

unfoldable pub shape_of : ℕ → Shape
shape_of tag = find_shape tag known_shapes

abbrev pub count : Values → ℕ
count nil = 0
count (cons v vs) = suc (count vs)

-- bytes after which there are others
abbrev pub then_bytes : Option Bytes → Option Bytes → Option Bytes
then_bytes none b = none
then_bytes (some a) none = none
then_bytes (some a) (some b) = some (a ++ b)

module _ (c : Scalars) where
  abbrev pub decode_unit : Bytes → Result (TimeUnit × Bytes) ReadError
  decode_unit b = c.u8.decode b >>= λ tag. unit_of tag.0 >>= λ unit. ok (unit, tag.1)

  unfoldable pub encode_type : DataType → Bytes
  encode_type (timestamp_type unit timezone) = c.u8.encode 16 ++ c.u8.encode (unit_tag unit)
  encode_type (time32_type unit) = c.u8.encode 19 ++ c.u8.encode (unit_tag unit)
  encode_type (time64_type unit) = c.u8.encode 20 ++ c.u8.encode (unit_tag unit)
  encode_type (fixed_size_binary_type w) = c.u8.encode 21 ++ c.i32.encode w
  encode_type (list_type name ty nullable) =
      c.u8.encode 30 ++ c.text.encode name ++ encode_type ty ++ c.bool.encode nullable
  encode_type ty = c.u8.encode (type_tag ty)

  -- what follows the tag; `read` reads the type within a list
  abbrev pub decode_shape :
      (Bytes → Result (DataType × Bytes) ReadError)
      → Shape
      → Bytes
      → Result (DataType × Bytes) ReadError
  decode_shape read (plain ty) b = ok (ty, b)
  decode_shape read (with_unit f) b = decode_unit b >>= λ unit. ok (f unit.0, unit.1)
  decode_shape read with_width b = c.i32.decode b >>= λ w. ok (fixed_size_binary_type w.0, w.1)
  decode_shape read with_field b = c.text.decode b >>= λ name. read name.1 >>= λ ty.
      c.bool.decode ty.1 >>= λ nullable. ok (list_type name.0 ty.0 nullable.0, nullable.1)
  decode_shape read unknown b = err panics

  -- The fuel is for the lists within lists.
  unfoldable pub decode_type : ℕ → Bytes → Result (DataType × Bytes) ReadError
  decode_type zero b = err ended
  decode_type (suc fuel) b =
      c.u8.decode b >>= λ tag. decode_shape (decode_type fuel) (shape_of tag.0) tag.1

  abbrev pub with_type : Option DataType → Option Bytes → Option Bytes
  with_type none payload = none
  with_type (some ty) payload = then_bytes (some (encode_type ty)) payload

  unfoldable mutual
    -- `encode_inner`
    pub encode_value : Value → Option Bytes
    encode_value null = with_type (data_type null) (some [])
    encode_value (boolean v) = with_type (data_type (boolean v)) (some (c.bool.encode v))
    encode_value (int8 v) = with_type (data_type (int8 v)) (some (c.i8.encode v))
    encode_value (int16 v) = with_type (data_type (int16 v)) (some (c.i16.encode v))
    encode_value (int32 v) = with_type (data_type (int32 v)) (some (c.i32.encode v))
    encode_value (int64 v) = with_type (data_type (int64 v)) (some (c.i64.encode v))
    encode_value (uint8 v) = with_type (data_type (uint8 v)) (some (c.u8.encode v))
    encode_value (uint16 v) = with_type (data_type (uint16 v)) (some (c.u16.encode v))
    encode_value (uint32 v) = with_type (data_type (uint32 v)) (some (c.u32.encode v))
    encode_value (uint64 v) = with_type (data_type (uint64 v)) (some (c.u64.encode v))
    encode_value (float32 v) = with_type (data_type (float32 v)) (some (c.f32.encode v))
    encode_value (float64 v) = with_type (data_type (float64 v)) (some (c.f64.encode v))
    encode_value (string v) = with_type (data_type (string v)) (some (c.text.encode v))
    encode_value (binary v) = with_type (data_type (binary v)) (some (c.binary_of.encode v))
    encode_value (fixed_size_binary v w) =
        with_type (data_type (fixed_size_binary v w)) (some (c.binary_of.encode v))
    encode_value (date32 v) = with_type (data_type (date32 v)) (some (c.i32.encode v))
    encode_value (date64 v) = with_type (data_type (date64 v)) (some (c.i64.encode v))
    encode_value (timestamp v unit) =
        with_type (data_type (timestamp v unit)) (some (c.i64.encode v))
    encode_value (time32 v unit) = with_type (data_type (time32 v unit)) (some (c.i32.encode v))
    encode_value (time64 v unit) = with_type (data_type (time64 v unit)) (some (c.i64.encode v))
    encode_value (list ty vs) =
        with_type (data_type (list ty vs))
          (then_bytes (some (c.u32.encode (count vs % 2 ^ 32))) (encode_values vs))

    pub encode_values : Values → Option Bytes
    encode_values nil = some []
    encode_values (cons v vs) = then_bytes (encode_value v) (encode_values vs)

  -- the loop over the elements of a list; `read` reads one
  abbrev pub decode_values :
      (Bytes → Result (Value × Bytes) ReadError) → ℕ → Bytes → Result (Values × Bytes) ReadError
  decode_values read zero b = ok (nil, b)
  decode_values read (suc n) b =
      read b >>= λ v. decode_values read n v.1 >>= λ vs. ok (cons v.0 vs.0, vs.1)

  abbrev pub time32_read :
      TimeUnit → Result (ℤ × Bytes) ReadError → Result (Value × Bytes) ReadError
  time32_read microsecond r = err panics
  time32_read nanosecond r = err panics
  time32_read unit r = r >>= λ v. ok (time32 v.0 unit, v.1)

  abbrev pub time64_read :
      TimeUnit → Result (ℤ × Bytes) ReadError → Result (Value × Bytes) ReadError
  time64_read second r = err panics
  time64_read millisecond r = err panics
  time64_read unit r = r >>= λ v. ok (time64 v.0 unit, v.1)

  -- the `match` on the type
  abbrev pub decode_payload :
      (Bytes → Result (Value × Bytes) ReadError)
      → DataType
      → Bytes
      → Result (Value × Bytes) ReadError
  decode_payload read null_type b = ok (null, b)
  decode_payload read boolean_type b = c.bool.decode b >>= λ v. ok (boolean v.0, v.1)
  decode_payload read int8_type b = c.i8.decode b >>= λ v. ok (int8 v.0, v.1)
  decode_payload read int16_type b = c.i16.decode b >>= λ v. ok (int16 v.0, v.1)
  decode_payload read int32_type b = c.i32.decode b >>= λ v. ok (int32 v.0, v.1)
  decode_payload read int64_type b = c.i64.decode b >>= λ v. ok (int64 v.0, v.1)
  decode_payload read uint8_type b = c.u8.decode b >>= λ v. ok (uint8 v.0, v.1)
  decode_payload read uint16_type b = c.u16.decode b >>= λ v. ok (uint16 v.0, v.1)
  decode_payload read uint32_type b = c.u32.decode b >>= λ v. ok (uint32 v.0, v.1)
  decode_payload read uint64_type b = c.u64.decode b >>= λ v. ok (uint64 v.0, v.1)
  decode_payload read float32_type b = c.f32.decode b >>= λ v. ok (float32 v.0, v.1)
  decode_payload read float64_type b = c.f64.decode b >>= λ v. ok (float64 v.0, v.1)
  decode_payload read utf8_type b = c.text.decode b >>= λ v. ok (string v.0, v.1)
  decode_payload read binary_type b = c.binary_of.decode b >>= λ v. ok (binary v.0, v.1)
  decode_payload read (fixed_size_binary_type w) b =
      c.binary_of.decode b >>= λ v. ok (fixed_size_binary v.0 (as_u32 w), v.1)
  decode_payload read date32_type b = c.i32.decode b >>= λ v. ok (date32 v.0, v.1)
  decode_payload read date64_type b = c.i64.decode b >>= λ v. ok (date64 v.0, v.1)
  decode_payload read (timestamp_type unit timezone) b =
      c.i64.decode b >>= λ v. ok (timestamp v.0 unit, v.1)
  decode_payload read (time32_type unit) b = time32_read unit (c.i32.decode b)
  decode_payload read (time64_type unit) b = time64_read unit (c.i64.decode b)
  decode_payload read (list_type name ty nullable) b =
      c.u32.decode b >>= λ len. decode_values read len.0 len.1 >>= λ vs. ok (list ty vs.0, vs.1)
  decode_payload read large_utf8_type b = err invalid_type
  decode_payload read large_binary_type b = err invalid_type

  -- `decode_inner`. The fuel is for the lists within lists, of values and of types.
  unfoldable pub decode_value : ℕ → Bytes → Result (Value × Bytes) ReadError
  decode_value zero b = err ended
  decode_value (suc fuel) b =
      decode_type (suc fuel) b >>= λ ty. decode_payload (decode_value fuel) ty.0 ty.1
