-- ===== src/Value/Borrowed.antt =====
-- `ValueRef`: what becomes of a borrowed value, and of a cell of an arrow array. An array is an argument,
-- with what the code asks of it: its length, its type, which cells are null, and the cell itself. A
-- cast of an array to the class of its type does not fail.
pub mod Laws
use tonbo.Prelude.{
  ℕ, zero, suc, ◌+◌, ◌%◌, ◌^◌, ◌-◌, ◌≡◌, ◌≢◌, refl, ap, arith, Bool, true, false, Option, none,
  some, List, [], ◌∷◌, if◌then◌else◌, leb,
}
use tonbo.Prelude.Result.{Result, ok, err, ◌>>=◌}
use tonbo.Prelude.Integers.{ℤ, pos, negsuc}
use tonbo.Value.Types.{item, data_type}
use tonbo.Value.{
  null_type, boolean_type, int8_type, int16_type, int32_type, int64_type, uint8_type, uint16_type,
  uint32_type, uint64_type, float32_type, float64_type, utf8_type, large_utf8_type, binary_type,
  large_binary_type, date32_type, date64_type, timestamp_type, time32_type, time64_type,
  fixed_size_binary_type, list_type,
}
use tonbo.Value.{
  Text, TimeUnit, second, millisecond, microsecond, nanosecond, DataType, Value, Values, nil, cons,
}
use tonbo.Value.Value.{
  null, boolean, int8, int16, int32, int64, uint8, uint16, uint32, uint64, float32, float64, string,
  binary, fixed_size_binary, date32, date64, time32, time64, timestamp, list,
}

-- `ValueRef::to_owned`
unfoldable pub to_owned : Value → Value
to_owned (list ty vs) = list (list_type item ty false) vs
to_owned v = v

-- `ValueError::InvalidConversion`, and the `unreachable!()` of a time of another unit
pub data ArrayError : Type 0 where
  out_of_bounds unsupported unreachable : ArrayError

-- the scalar of a cell, by the class of its array
pub record Arrays {ℓ} (A : Type ℓ) : Type ℓ where
  pub len : A → ℕ
  pub array_type : A → DataType
  pub is_null_at : A → ℕ → Bool
  pub bool_at : A → ℕ → Bool
  pub int_at : A → ℕ → ℤ
  pub number_at : A → ℕ → ℕ
  pub bytes_at : A → ℕ → Text
  pub list_at : A → ℕ → A

-- `w as u32`
abbrev pub as_u32 : ℤ → ℕ
as_u32 (pos w) = w % 2 ^ 32
as_u32 (negsuc w) = 2 ^ 32 - 1 - w % 2 ^ 32

abbrev pub time32_ref : ℤ → TimeUnit → Result Value ArrayError
time32_ref v second = ok (time32 v second)
time32_ref v millisecond = ok (time32 v millisecond)
time32_ref v _ = err unreachable

abbrev pub time64_ref : ℤ → TimeUnit → Result Value ArrayError
time64_ref v microsecond = ok (time64 v second)
time64_ref v nanosecond = ok (time64 v millisecond)
time64_ref v _ = err unreachable

module _ {ℓ} {A : Type ℓ} (arrow : Arrays A) where
  -- The `match` on the type of the array. `elements` are those of the list in a cell.
  abbrev pub cell_ref : A → ℕ → Result Values ArrayError → DataType → Result Value ArrayError
  cell_ref a i elements null_type = ok null
  cell_ref a i elements boolean_type = ok (boolean (arrow.bool_at a i))
  cell_ref a i elements int8_type = ok (int8 (arrow.int_at a i))
  cell_ref a i elements int16_type = ok (int16 (arrow.int_at a i))
  cell_ref a i elements int32_type = ok (int32 (arrow.int_at a i))
  cell_ref a i elements int64_type = ok (int64 (arrow.int_at a i))
  cell_ref a i elements uint8_type = ok (uint8 (arrow.number_at a i))
  cell_ref a i elements uint16_type = ok (uint16 (arrow.number_at a i))
  cell_ref a i elements uint32_type = ok (uint32 (arrow.number_at a i))
  cell_ref a i elements uint64_type = ok (uint64 (arrow.number_at a i))
  cell_ref a i elements float32_type = ok (float32 (arrow.number_at a i))
  cell_ref a i elements float64_type = ok (float64 (arrow.number_at a i))
  cell_ref a i elements utf8_type = ok (string (arrow.bytes_at a i))
  cell_ref a i elements binary_type = ok (binary (arrow.bytes_at a i))
  cell_ref a i elements (fixed_size_binary_type w) =
      ok (fixed_size_binary (arrow.bytes_at a i) (as_u32 w))
  cell_ref a i elements date32_type = ok (date32 (arrow.int_at a i))
  cell_ref a i elements date64_type = ok (date64 (arrow.int_at a i))
  cell_ref a i elements (timestamp_type unit timezone) = ok (timestamp (arrow.int_at a i) unit)
  cell_ref a i elements (time32_type unit) = time32_ref (arrow.int_at a i) unit
  cell_ref a i elements (time64_type unit) = time64_ref (arrow.int_at a i) unit
  cell_ref a i elements (list_type name ty nullable) = elements >>= λ vs. ok (list ty vs)
  cell_ref a i elements large_utf8_type = err unsupported
  cell_ref a i elements large_binary_type = err unsupported

  -- the values of a list, each as its own value; `read` is the call for one cell
  abbrev pub cells_ref : (ℕ → Result Value ArrayError) → ℕ → ℕ → Result Values ArrayError
  cells_ref read zero i = ok nil
  cells_ref read (suc n) i =
      read i >>= λ v. cells_ref read n (suc i) >>= λ vs. ok (cons (to_owned v) vs)

  -- `from_array_ref`. Lists within lists are as deep as the type of the array is: that depth is enough
  -- fuel, of which one is for the cell itself.
  unfoldable pub from_array_ref : ℕ → A → ℕ → Result Value ArrayError
  unfolding to_owned
  from_array_ref zero a i = err unsupported
  from_array_ref (suc fuel) a i =
      let inner = arrow.list_at a i in
      let elements = cells_ref (from_array_ref fuel inner) (arrow.len inner) 0 in
      if leb (arrow.len a) i
      then err out_of_bounds
      else if arrow.is_null_at a i
      then ok null
      else cell_ref a i elements (arrow.array_type a)
