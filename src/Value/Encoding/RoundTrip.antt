-- ===== src/Value/Encoding/RoundTrip.antt =====
-- A value is decoded as it was encoded.
use Prim.Native.Nat.{max}
use tonbo.Prelude.{
  ℕ, zero, suc, ◌%◌, ◌^◌, ◌≤◌, ◌<◌, ◌≡◌, refl, sym, arith, false, Option, none, some, [], ◌++◌,
  append_assoc, some-eq,
}
use tonbo.Prelude.Result.{ok}
use tonbo.Codec.{Bytes, HasBits}
use tonbo.Value.Types.{item, data_type, as_i32}
use tonbo.Value.Borrowed.{as_u32}
use tonbo.Value.Encoding.{
  Scalars, decode_shape, decode_payload, HasSignedBits, IsShort, unit_tag, unit_of, shape_of, count,
  then_bytes, decode_unit, encode_type, decode_type, with_type, encode_value, encode_values,
  decode_values, decode_value,
}
use tonbo.Value.{
  null_type, boolean_type, int8_type, int16_type, int32_type, int64_type, uint8_type, uint16_type,
  uint32_type, uint64_type, float32_type, float64_type, utf8_type, large_utf8_type, binary_type,
  large_binary_type, date32_type, date64_type, timestamp_type, time32_type, time64_type,
  fixed_size_binary_type, list_type,
}
use tonbo.Value.{
  TimeUnit, second, millisecond, microsecond, nanosecond, DataType, Value, Values, nil, cons,
}
use tonbo.Value.Value.{
  null, boolean, int8, int16, int32, int64, uint8, uint16, uint32, uint64, float32, float64, string,
  binary, fixed_size_binary, date32, date64, time32, time64, timestamp, list,
}

-- What the parts of a type are in the program. A timezone is not encoded.
abbrev pub FitsType : DataType → Type 0
FitsType (fixed_size_binary_type w) = HasSignedBits 31 w
FitsType (timestamp_type unit (some timezone)) = ⊥
FitsType (list_type name ty nullable) = IsShort name × FitsType ty
FitsType _ = Unit

abbrev pub type_fuel : DataType → ℕ
type_fuel (list_type name ty nullable) = suc (type_fuel ty)
type_fuel _ = 1

tag_fits : (unit : TimeUnit) → HasBits 8 (unit_tag unit)
tag_fits second = omega arith
tag_fits millisecond = omega arith
tag_fits microsecond = omega arith
tag_fits nanosecond = omega arith

unit_of-unit_tag : (unit : TimeUnit) → unit_of (unit_tag unit) ≡ ok unit
unit_of-unit_tag second = refl
unit_of-unit_tag millisecond = refl
unit_of-unit_tag microsecond = refl
unit_of-unit_tag nanosecond = refl

module _ (c : Scalars) where
  decode_unit-encode :
      (unit : TimeUnit) (rest : Bytes)
      → decode_unit c (c.u8.encode (unit_tag unit) ++ rest) ≡ ok (unit, rest)
  decode_unit-encode unit rest =
      simp (c.u8.decode-encode (unit_tag unit) rest (tag_fits unit), unit_of-unit_tag unit)

  -- a type of a tag only
  decode_type-tag :
      (fuel tag : ℕ) (rest : Bytes)
      → tag < 256
      → decode_type c (suc fuel) (c.u8.encode tag ++ rest)
        ≡ decode_shape c (decode_type c fuel) (shape_of tag) rest
  unfolding decode_type
  decode_type-tag fuel tag rest h = rw (c.u8.decode-encode tag rest h) refl

  pub decode_type-encode_type :
      (fuel : ℕ) (ty : DataType) (rest : Bytes)
      → FitsType ty
      → type_fuel ty ≤ fuel
      → decode_type c fuel (encode_type c ty ++ rest) ≡ ok (ty, rest)
  unfolding encode_type shape_of
  decode_type-encode_type zero (list_type name ty nullable) rest h l = absurd (omega arith)
  decode_type-encode_type zero _ rest h l = absurd (omega arith)
  decode_type-encode_type (suc fuel) (timestamp_type unit none) rest h l =
      simp (append_assoc, decode_type-tag fuel 16 _ (omega arith), decode_unit-encode unit rest)
  decode_type-encode_type (suc fuel) (timestamp_type unit (some timezone)) rest h l = elim h [ ]
  decode_type-encode_type (suc fuel) (time32_type unit) rest h l =
      simp (append_assoc, decode_type-tag fuel 19 _ (omega arith), decode_unit-encode unit rest)
  decode_type-encode_type (suc fuel) (time64_type unit) rest h l =
      simp (append_assoc, decode_type-tag fuel 20 _ (omega arith), decode_unit-encode unit rest)
  decode_type-encode_type (suc fuel) (fixed_size_binary_type w) rest h l =
      simp (append_assoc, decode_type-tag fuel 21 _ (omega arith), c.i32.decode-encode w rest h)
  decode_type-encode_type (suc fuel) (list_type name ty nullable) rest h l = simp (
    append_assoc,
    decode_type-tag fuel 30 _ (omega arith),
    c.text.decode-encode name _ h.0,
    decode_type-encode_type fuel ty _ h.1 (omega arith),
    c.bool.decode-encode nullable rest tt,
  )
  decode_type-encode_type (suc fuel) null_type rest h l = decode_type-tag fuel 0 rest (omega arith)
  decode_type-encode_type (suc fuel) uint8_type rest h l = decode_type-tag fuel 1 rest (omega arith)
  decode_type-encode_type (suc fuel) uint16_type rest h l =
      decode_type-tag fuel 2 rest (omega arith)
  decode_type-encode_type (suc fuel) uint32_type rest h l =
      decode_type-tag fuel 3 rest (omega arith)
  decode_type-encode_type (suc fuel) uint64_type rest h l =
      decode_type-tag fuel 4 rest (omega arith)
  decode_type-encode_type (suc fuel) int8_type rest h l = decode_type-tag fuel 5 rest (omega arith)
  decode_type-encode_type (suc fuel) int16_type rest h l = decode_type-tag fuel 6 rest (omega arith)
  decode_type-encode_type (suc fuel) int32_type rest h l = decode_type-tag fuel 7 rest (omega arith)
  decode_type-encode_type (suc fuel) int64_type rest h l = decode_type-tag fuel 8 rest (omega arith)
  decode_type-encode_type (suc fuel) utf8_type rest h l = decode_type-tag fuel 9 rest (omega arith)
  decode_type-encode_type (suc fuel) large_utf8_type rest h l =
      decode_type-tag fuel 10 rest (omega arith)
  decode_type-encode_type (suc fuel) boolean_type rest h l =
      decode_type-tag fuel 11 rest (omega arith)
  decode_type-encode_type (suc fuel) binary_type rest h l =
      decode_type-tag fuel 12 rest (omega arith)
  decode_type-encode_type (suc fuel) large_binary_type rest h l =
      decode_type-tag fuel 13 rest (omega arith)
  decode_type-encode_type (suc fuel) float32_type rest h l =
      decode_type-tag fuel 14 rest (omega arith)
  decode_type-encode_type (suc fuel) float64_type rest h l =
      decode_type-tag fuel 15 rest (omega arith)
  decode_type-encode_type (suc fuel) date32_type rest h l =
      decode_type-tag fuel 17 rest (omega arith)
  decode_type-encode_type (suc fuel) date64_type rest h l =
      decode_type-tag fuel 18 rest (omega arith)

-- what the parts of a value are in the program
unfoldable mutual
  pub FitsValue : Value → Type 0
  FitsValue null = Unit
  FitsValue (boolean v) = Unit
  FitsValue (int8 v) = HasSignedBits 7 v
  FitsValue (int16 v) = HasSignedBits 15 v
  FitsValue (int32 v) = HasSignedBits 31 v
  FitsValue (int64 v) = HasSignedBits 63 v
  FitsValue (uint8 v) = HasBits 8 v
  FitsValue (uint16 v) = HasBits 16 v
  FitsValue (uint32 v) = HasBits 32 v
  FitsValue (uint64 v) = HasBits 64 v
  FitsValue (float32 v) = HasBits 32 v
  FitsValue (float64 v) = HasBits 64 v
  FitsValue (string v) = IsShort v
  FitsValue (binary v) = IsShort v
  FitsValue (fixed_size_binary v w) = IsShort v × HasBits 32 w
  FitsValue (date32 v) = HasSignedBits 31 v
  FitsValue (date64 v) = HasSignedBits 63 v
  FitsValue (timestamp v unit) = HasSignedBits 63 v
  FitsValue (time32 v unit) = HasSignedBits 31 v
  FitsValue (time64 v unit) = HasSignedBits 63 v
  FitsValue (list ty vs) = FitsType ty × count vs < 2 ^ 32 × FitValues vs

  pub FitValues : Values → Type 0
  FitValues nil = Unit
  FitValues (cons v vs) = FitsValue v × FitValues vs

-- how deep the lists, of values and of types, are within one another
unfoldable mutual
  pub value_fuel : Value → ℕ
  value_fuel (list ty vs) = suc (max (type_fuel ty) (values_fuel vs))
  value_fuel _ = 1

  pub values_fuel : Values → ℕ
  values_fuel nil = 0
  values_fuel (cons v vs) = max (value_fuel v) (values_fuel vs)

width_back : (w : ℕ) → w < 2 ^ 32 → as_u32 (as_i32 w) ≡ w
width_back w h = ground arith

width_signed : (w : ℕ) → HasSignedBits 31 (as_i32 w)
width_signed w = ground arith

module _ (c : Scalars) where
  -- a value of the type and the bytes, decoded
  abbrev pub Decodes : ℕ → Value → Bytes → Type 0
  Decodes fuel v b = (rest : Bytes) → decode_value c fuel (b ++ rest) ≡ ok (v, rest)

  decode_typed :
      (fuel : ℕ) (ty : DataType) (v : Value) (payload b : Bytes)
      → FitsType ty
      → type_fuel ty ≤ suc fuel
      → ((rest : Bytes)
          → decode_payload c (decode_value c fuel) ty (payload ++ rest) ≡ ok (v, rest))
      → some (encode_type c ty ++ payload) ≡ some b
      → Decodes (suc fuel) v b
  unfolding decode_value
  decode_typed fuel ty v payload b h l f e rest =
      rw
        (
          sym (some-eq (encode_type c ty ++ payload) b e),
          append_assoc (encode_type c ty) payload rest,
          decode_type-encode_type c (suc fuel) ty (payload ++ rest) h l,
        )
        (f rest)

  -- what was encoded, if anything, is decoded
  abbrev pub Reads : ℕ → Value → Option Bytes → Type 0
  Reads fuel v o = (b : Bytes) → o ≡ some b → Decodes fuel v b

  abbrev pub ReadValues : ℕ → Values → Option Bytes → Type 0
  ReadValues fuel vs o =
      (b : Bytes)
      → o ≡ some b
      → (rest : Bytes)
      → decode_values c (decode_value c fuel) (count vs) (b ++ rest) ≡ ok (vs, rest)

  read_list :
      (fuel : ℕ) (ty : DataType) (vs : Values) (o : Option Bytes)
      → FitsType ty
      → type_fuel ty ≤ fuel
      → count vs < 2 ^ 32
      → ReadValues fuel vs o
      → Reads (suc fuel) (list ty vs) (
          with_type c
            (some (list_type item ty false))
            (then_bytes (some (c.u32.encode (count vs % 2 ^ 32))) o))
  read_list fuel ty vs none h l len f = λ b e. cc
  read_list fuel ty vs (some bs) h l len f = λ b e.
      let same : count vs % 2 ^ 32 ≡ count vs = omega arith in
      decode_typed fuel (list_type item ty false) (list ty vs)
        (c.u32.encode (count vs % 2 ^ 32) ++ bs) b (omega arith, h) (omega arith)
        (λ rest.
          simp
            (append_assoc, same, c.u32.decode-encode (count vs) (bs ++ rest) len, f bs refl rest))
        e

  read_cons :
      (fuel : ℕ) (v : Value) (vs : Values) (o p : Option Bytes)
      → Reads fuel v o
      → ReadValues fuel vs p
      → ReadValues fuel (cons v vs) (then_bytes o p)
  read_cons fuel v vs none p f g = λ b e. cc
  read_cons fuel v vs (some a) none f g = λ b e. cc
  read_cons fuel v vs (some a) (some d) f g = λ b e rest.
      rw (sym (some-eq (a ++ d) b e)) (simp (append_assoc, f a refl (d ++ rest), g d refl rest))

  fuel_positive : (v : Value) → 0 < value_fuel v
  unfolding value_fuel
  fuel_positive (list ty vs) = omega arith
  fuel_positive _ = omega arith

  mutual
    unfolding encode_value data_type FitsValue value_fuel

    decode_value-encode_value :
        (v : Value) (fuel : ℕ)
        → FitsValue v
        → value_fuel v ≤ suc fuel
        → Reads (suc fuel) v (encode_value c v)
    decode_value-encode_value null fuel h l =
        λ b e. decode_typed fuel null_type null [] b tt (omega arith) (λ rest. refl) e
    decode_value-encode_value (boolean v) fuel h l = λ b e.
        decode_typed fuel boolean_type (boolean v) (c.bool.encode v) b tt (omega arith)
          (λ rest. rw (c.bool.decode-encode v rest tt) refl) e
    decode_value-encode_value (int8 v) fuel h l = λ b e.
        decode_typed fuel int8_type (int8 v) (c.i8.encode v) b tt (omega arith)
          (λ rest. rw (c.i8.decode-encode v rest h) refl) e
    decode_value-encode_value (int16 v) fuel h l = λ b e.
        decode_typed fuel int16_type (int16 v) (c.i16.encode v) b tt (omega arith)
          (λ rest. rw (c.i16.decode-encode v rest h) refl) e
    decode_value-encode_value (int32 v) fuel h l = λ b e.
        decode_typed fuel int32_type (int32 v) (c.i32.encode v) b tt (omega arith)
          (λ rest. rw (c.i32.decode-encode v rest h) refl) e
    decode_value-encode_value (int64 v) fuel h l = λ b e.
        decode_typed fuel int64_type (int64 v) (c.i64.encode v) b tt (omega arith)
          (λ rest. rw (c.i64.decode-encode v rest h) refl) e
    decode_value-encode_value (uint8 v) fuel h l = λ b e.
        decode_typed fuel uint8_type (uint8 v) (c.u8.encode v) b tt (omega arith)
          (λ rest. rw (c.u8.decode-encode v rest h) refl) e
    decode_value-encode_value (uint16 v) fuel h l = λ b e.
        decode_typed fuel uint16_type (uint16 v) (c.u16.encode v) b tt (omega arith)
          (λ rest. rw (c.u16.decode-encode v rest h) refl) e
    decode_value-encode_value (uint32 v) fuel h l = λ b e.
        decode_typed fuel uint32_type (uint32 v) (c.u32.encode v) b tt (omega arith)
          (λ rest. rw (c.u32.decode-encode v rest h) refl) e
    decode_value-encode_value (uint64 v) fuel h l = λ b e.
        decode_typed fuel uint64_type (uint64 v) (c.u64.encode v) b tt (omega arith)
          (λ rest. rw (c.u64.decode-encode v rest h) refl) e
    decode_value-encode_value (float32 v) fuel h l = λ b e.
        decode_typed fuel float32_type (float32 v) (c.f32.encode v) b tt (omega arith)
          (λ rest. rw (c.f32.decode-encode v rest h) refl) e
    decode_value-encode_value (float64 v) fuel h l = λ b e.
        decode_typed fuel float64_type (float64 v) (c.f64.encode v) b tt (omega arith)
          (λ rest. rw (c.f64.decode-encode v rest h) refl) e
    decode_value-encode_value (string v) fuel h l = λ b e.
        decode_typed fuel utf8_type (string v) (c.text.encode v) b tt (omega arith)
          (λ rest. rw (c.text.decode-encode v rest h) refl) e
    decode_value-encode_value (binary v) fuel h l = λ b e.
        decode_typed fuel binary_type (binary v) (c.binary_of.encode v) b tt (omega arith)
          (λ rest. rw (c.binary_of.decode-encode v rest h) refl) e
    decode_value-encode_value (date32 v) fuel h l = λ b e.
        decode_typed fuel date32_type (date32 v) (c.i32.encode v) b tt (omega arith)
          (λ rest. rw (c.i32.decode-encode v rest h) refl) e
    decode_value-encode_value (date64 v) fuel h l = λ b e.
        decode_typed fuel date64_type (date64 v) (c.i64.encode v) b tt (omega arith)
          (λ rest. rw (c.i64.decode-encode v rest h) refl) e
    decode_value-encode_value (timestamp v unit) fuel h l = λ b e.
        decode_typed fuel (timestamp_type unit none) (timestamp v unit) (c.i64.encode v) b tt
          (omega arith) (λ rest. rw (c.i64.decode-encode v rest h) refl) e
    decode_value-encode_value (time32 v second) fuel h l = λ b e.
        decode_typed fuel (time32_type second) (time32 v second) (c.i32.encode v) b tt (omega arith)
          (λ rest. rw (c.i32.decode-encode v rest h) refl) e
    decode_value-encode_value (time32 v millisecond) fuel h l = λ b e.
        decode_typed fuel (time32_type millisecond) (time32 v millisecond) (c.i32.encode v) b tt
          (omega arith) (λ rest. rw (c.i32.decode-encode v rest h) refl) e
    decode_value-encode_value (time32 v microsecond) fuel h l = λ b e. cc
    decode_value-encode_value (time32 v nanosecond) fuel h l = λ b e. cc
    decode_value-encode_value (time64 v microsecond) fuel h l = λ b e.
        decode_typed fuel (time64_type microsecond) (time64 v microsecond) (c.i64.encode v) b tt
          (omega arith) (λ rest. rw (c.i64.decode-encode v rest h) refl) e
    decode_value-encode_value (time64 v nanosecond) fuel h l = λ b e.
        decode_typed fuel (time64_type nanosecond) (time64 v nanosecond) (c.i64.encode v) b tt
          (omega arith) (λ rest. rw (c.i64.decode-encode v rest h) refl) e
    decode_value-encode_value (time64 v second) fuel h l = λ b e. cc
    decode_value-encode_value (time64 v millisecond) fuel h l = λ b e. cc
    decode_value-encode_value (fixed_size_binary v w) fuel h l = λ b e.
        decode_typed fuel (fixed_size_binary_type (as_i32 w)) (fixed_size_binary v w)
          (c.binary_of.encode v) b (width_signed w) (omega arith)
          (λ rest. rw (c.binary_of.decode-encode v rest h.0, width_back w h.1) refl) e
    decode_value-encode_value (list ty vs) fuel h l =
        read_list fuel ty vs (encode_values c vs) h.0 (omega arith) h.1
          (decode_values-encode_values vs fuel h.2 (omega arith))

    decode_values-encode_values :
        (vs : Values) (fuel : ℕ)
        → FitValues vs
        → values_fuel vs ≤ fuel
        → ReadValues fuel vs (encode_values c vs)
    decode_values-encode_values nil fuel h l = λ b e rest. rw (sym (some-eq [] b e)) refl
    decode_values-encode_values (cons v vs) zero h l = absurd (omega (arith, fuel_positive v))
    decode_values-encode_values (cons v vs) (suc fuel) h l =
        read_cons (suc fuel) v vs (encode_value c v) (encode_values c vs)
          (decode_value-encode_value v fuel h.0 (omega arith))
          (decode_values-encode_values vs (suc fuel) h.1 (omega arith))
