-- ===== src/Value/Examples.antt =====
-- The theorems of values at concrete ones.
use tonbo.Prelude.{◌≡◌, refl, arith, true, false, none, [], ◌∷◌}
use tonbo.Prelude.Result.{ok}
use tonbo.Prelude.Integers.{pos, negsuc, compare_ℤ, is_equal}
use tonbo.Codec.LittleEndian.{number, signed, bools, texts}
use tonbo.Value.Types.{data_type}
use tonbo.Value.Time.{cmp_time, instant, cmp_time-instant}
use tonbo.Value.Order.{cmp_value, eq_value, Agrees, eq_value-cmp_value, cmp_value_panics}
use tonbo.Value.Borrowed.{to_owned, Arrays, from_array_ref}
use tonbo.Value.Borrowed.Laws.{
  OfType, to_owned-eq_value, from_array_ref-OfType, from_array_ref-no_type,
}
use tonbo.Value.Encoding.{Scalars}
use tonbo.Value.{timestamp_type, time64_type, utf8_type}
use tonbo.Value.{second, millisecond, nanosecond, DataType, Value, nil, cons}
use tonbo.Value.Value.{string, time32, time64, timestamp, list}

abbrev scalars : Scalars
scalars = record {
  u8 = number 1 8 (λ n h. omega arith);
  u16 = number 2 16 (λ n h. omega arith);
  u32 = number 4 32 (λ n h. omega arith);
  u64 = number 8 64 (λ n h. omega arith);
  i8 = signed 1 7 refl;
  i16 = signed 2 15 refl;
  i32 = signed 4 31 refl;
  i64 = signed 8 63 refl;
  f32 = number 4 32 (λ n h. omega arith);
  f64 = number 8 64 (λ n h. omega arith);
  bool = bools;
  text = texts;
  binary_of = texts;
}

-- a second and a thousand milliseconds
cmp_time-instant_example :
    cmp_time (pos 1) second (pos 1000) millisecond
    ≡ compare_ℤ (instant (pos 1) second) (instant (pos 1000) millisecond)
cmp_time-instant_example = cmp_time-instant (pos 1) (pos 1000) second millisecond

abbrev names : Value
names = list utf8_type (cons (string (97 ∷ [])) (cons (string (98 ∷ [])) nil))

eq_value-cmp_value_example : Agrees (cmp_value names names) (eq_value names names)
eq_value-cmp_value_example = eq_value-cmp_value names names

cmp_value_panics_example :
    (cmp_value (time32 (pos 1) second) (time32 (pos 1) second) ≡ none)
    × (cmp_value (time64 (pos 1) second) (time64 (pos 1) second) ≡ none)
    × (eq_value (time32 (pos 1) second) (time32 (pos 1) second)
        ≡ is_equal (compare_ℤ (instant (pos 1) second) (instant (pos 1) second)))
    × (eq_value (time64 (pos 1) second) (time64 (pos 1) second)
        ≡ is_equal (compare_ℤ (instant (pos 1) second) (instant (pos 1) second)))
cmp_value_panics_example = cmp_value_panics (pos 1) (pos 1) second second

to_owned-eq_value_example : eq_value (to_owned names) names ≡ false
to_owned-eq_value_example =
    to_owned-eq_value utf8_type (cons (string (97 ∷ [])) (cons (string (98 ∷ [])) nil))

-- an array of one cell, known by its type
abbrev one_cell : Arrays DataType
one_cell = record {
  len = λ a. 1;
  array_type = λ a. a;
  is_null_at = λ a i. false;
  bool_at = λ a i. true;
  int_at = λ a i. pos 5;
  number_at = λ a i. 6;
  bytes_at = λ a i. 7 ∷ [];
  list_at = λ a i. a;
}

from_array_ref-OfType_example :
    OfType one_cell
      (timestamp_type second none)
      (from_array_ref one_cell 1 (timestamp_type second none) 0)
from_array_ref-OfType_example =
    from_array_ref-OfType one_cell 0 (timestamp_type second none) 0 (omega arith) refl tt

read_nanosecond :
    from_array_ref one_cell 1 (time64_type nanosecond) 0 ≡ ok (time64 (pos 5) millisecond)
unfolding from_array_ref
read_nanosecond = refl

from_array_ref-no_type_example : data_type (time64 (pos 5) millisecond) ≡ none
from_array_ref-no_type_example =
    from_array_ref-no_type one_cell 0 (time64_type nanosecond) 0 nanosecond
      (time64 (pos 5) millisecond) (omega arith) refl refl read_nanosecond

abbrev stamp : Value
stamp = timestamp (negsuc 2) millisecond
