-- ===== src/Value/Order.antt =====
-- The order and the equality of values: `Ord` and `PartialEq`, the same in mod.rs and value_ref.rs.
use tonbo.Prelude.{
  ℕ, ◌-◌, ◌^◌, ◌≡◌, refl, ap, ◌∙◌, arith, Bool, true, false, ◌&&◌, ◌==◌, compare, Ordering, lt, eq,
  gt, Option, none, some, [], ◌∷◌, if◌then◌else◌, ltb,
}
use tonbo.Prelude.Integers.{ℤ, pos, negsuc, compare_ℤ, equal_ℤ, is_equal}
use tonbo.Key.{then_by}
use tonbo.Value.Types.{same_type}
use tonbo.Value.Time.{cmp_time, eq_time, instant, cmp_time-instant, eq_time-cmp_time}
use tonbo.Value.{Text, TimeUnit, Value, Values, nil, cons}
use tonbo.Value.Value.{
  null, boolean, int8, int16, int32, int64, uint8, uint16, uint32, uint64, float32, float64, string,
  binary, fixed_size_binary, date32, date64, time32, time64, timestamp, list,
}

-- `false < true`
abbrev pub cmp_bool : Bool → Bool → Ordering
cmp_bool false true = lt
cmp_bool true false = gt
cmp_bool _ _ = eq

-- strings and binaries, byte by byte
abbrev pub cmp_text : Text → Text → Ordering
cmp_text [] [] = eq
cmp_text [] (b ∷ bs) = lt
cmp_text (a ∷ as') [] = gt
cmp_text (a ∷ as') (b ∷ bs) = then_by (compare a b) (cmp_text as' bs)

-- `total_cmp`, of the bits of floats of a width: those with the sign bit are below the others, and
-- their order is reversed
abbrev pub float_key : (half : ℕ) → ℕ → ℤ
float_key half bits = if ltb bits half then pos bits else negsuc (bits - half)

abbrev pub total_cmp : (half : ℕ) → ℕ → ℕ → Ordering
total_cmp half a b = compare_ℤ (float_key half a) (float_key half b)

-- the order of lists, of which a comparison of elements can panic
abbrev pub then_items : Option Ordering → Option Ordering → Option Ordering
then_items none rest = none
then_items (some eq) rest = rest
then_items (some o) rest = some o

unfoldable mutual
  pub cmp_value : Value → Value → Option Ordering
  cmp_value null null = some eq
  cmp_value null _ = some lt
  cmp_value _ null = some gt
  cmp_value (boolean a) (boolean b) = some (cmp_bool a b)
  cmp_value (int8 a) (int8 b) = some (compare_ℤ a b)
  cmp_value (int16 a) (int16 b) = some (compare_ℤ a b)
  cmp_value (int32 a) (int32 b) = some (compare_ℤ a b)
  cmp_value (int64 a) (int64 b) = some (compare_ℤ a b)
  cmp_value (uint8 a) (uint8 b) = some (compare a b)
  cmp_value (uint16 a) (uint16 b) = some (compare a b)
  cmp_value (uint32 a) (uint32 b) = some (compare a b)
  cmp_value (uint64 a) (uint64 b) = some (compare a b)
  cmp_value (float32 a) (float32 b) = some (total_cmp (2 ^ 31) a b)
  cmp_value (float64 a) (float64 b) = some (total_cmp (2 ^ 63) a b)
  cmp_value (string a) (string b) = some (cmp_text a b)
  cmp_value (binary a) (binary b) = some (cmp_text a b)
  cmp_value (fixed_size_binary a v) (fixed_size_binary b w) = some (cmp_text a b)
  cmp_value (date32 a) (date32 b) = some (compare_ℤ a b)
  cmp_value (date64 a) (date64 b) = some (compare_ℤ a b)
  cmp_value (timestamp a u) (timestamp b w) = some (cmp_time a u b w)
  cmp_value (list s a) (list t b) = if same_type s t then cmp_values a b else none
  cmp_value _ _ = none

  pub cmp_values : Values → Values → Option Ordering
  cmp_values nil nil = some eq
  cmp_values nil (cons b bs) = some lt
  cmp_values (cons a as') nil = some gt
  cmp_values (cons a as') (cons b bs) = then_items (cmp_value a b) (cmp_values as' bs)

unfoldable mutual
  pub eq_value : Value → Value → Bool
  eq_value null null = true
  eq_value (boolean a) (boolean b) = is_equal (cmp_bool a b)
  eq_value (int8 a) (int8 b) = equal_ℤ a b
  eq_value (int16 a) (int16 b) = equal_ℤ a b
  eq_value (int32 a) (int32 b) = equal_ℤ a b
  eq_value (int64 a) (int64 b) = equal_ℤ a b
  eq_value (uint8 a) (uint8 b) = a == b
  eq_value (uint16 a) (uint16 b) = a == b
  eq_value (uint32 a) (uint32 b) = a == b
  eq_value (uint64 a) (uint64 b) = a == b
  eq_value (float32 a) (float32 b) = a == b
  eq_value (float64 a) (float64 b) = a == b
  eq_value (string a) (string b) = is_equal (cmp_text a b)
  eq_value (binary a) (binary b) = is_equal (cmp_text a b)
  eq_value (fixed_size_binary a v) (fixed_size_binary b w) = is_equal (cmp_text a b)
  eq_value (date32 a) (date32 b) = equal_ℤ a b
  eq_value (date64 a) (date64 b) = equal_ℤ a b
  eq_value (timestamp a u) (timestamp b w) = eq_time a u b w
  eq_value (time32 a u) (time32 b w) = eq_time a u b w
  eq_value (time64 a u) (time64 b w) = eq_time a u b w
  eq_value (list s a) (list t b) = same_type s t && eq_values a b
  eq_value _ _ = false

  pub eq_values : Values → Values → Bool
  eq_values nil nil = true
  eq_values (cons a as') (cons b bs) = eq_value a b && eq_values as' bs
  eq_values _ _ = false

-- what `==` has to say where a comparison gives an order
abbrev pub Agrees : Option Ordering → Bool → Type 0
Agrees none b = Unit
Agrees (some o) b = b ≡ is_equal o

equal-total_cmp : (half a b : ℕ) → (a == b) ≡ is_equal (total_cmp half a b)
equal-total_cmp half a b = ground arith

equal-compare : (a b : ℕ) → (a == b) ≡ is_equal (compare a b)
equal-compare a b = ground arith

Agrees-then_items :
    (o p : Option Ordering) (b c : Bool)
    → Agrees o b
    → Agrees p c
    → Agrees (then_items o p) (b && c)
Agrees-then_items none p b c h l = tt
Agrees-then_items (some lt) p b c h l = rw h refl
Agrees-then_items (some gt) p b c h l = rw h refl
Agrees-then_items (some eq) none b c h l = tt
Agrees-then_items (some eq) (some o) b c h l = rw h l

Agrees-list :
    (c : Bool) (o : Option Ordering) (b : Bool)
    → Agrees o b
    → Agrees (if c then o else none) (c && b)
Agrees-list true o b h = h
Agrees-list false o b h = tt

mutual
  unfolding cmp_value eq_value

  eq_value-Agrees : (a b : Value) → Agrees (cmp_value a b) (eq_value a b)
  eq_value-Agrees (boolean a) (boolean b) = refl
  eq_value-Agrees (uint8 a) (uint8 b) = equal-compare a b
  eq_value-Agrees (uint16 a) (uint16 b) = equal-compare a b
  eq_value-Agrees (uint32 a) (uint32 b) = equal-compare a b
  eq_value-Agrees (uint64 a) (uint64 b) = equal-compare a b
  eq_value-Agrees (float32 a) (float32 b) = equal-total_cmp (2 ^ 31) a b
  eq_value-Agrees (float64 a) (float64 b) = equal-total_cmp (2 ^ 63) a b
  eq_value-Agrees (timestamp a u) (timestamp b w) = eq_time-cmp_time a b u w
  eq_value-Agrees (list s a) (list t b) =
      Agrees-list (same_type s t) (cmp_values a b) (eq_values a b) (eq_values-Agrees a b)
  eq_value-Agrees (int8 a) (int8 b) = refl
  eq_value-Agrees (int16 a) (int16 b) = refl
  eq_value-Agrees (int32 a) (int32 b) = refl
  eq_value-Agrees (int64 a) (int64 b) = refl
  eq_value-Agrees (string a) (string b) = refl
  eq_value-Agrees (binary a) (binary b) = refl
  eq_value-Agrees (fixed_size_binary a v) (fixed_size_binary b w) = refl
  eq_value-Agrees (date32 a) (date32 b) = refl
  eq_value-Agrees (date64 a) (date64 b) = refl
  eq_value-Agrees null null = refl
  eq_value-Agrees null _ = refl
  eq_value-Agrees _ null = refl
  eq_value-Agrees _ _ = tt

  eq_values-Agrees : (a b : Values) → Agrees (cmp_values a b) (eq_values a b)
  eq_values-Agrees nil nil = refl
  eq_values-Agrees nil (cons b bs) = refl
  eq_values-Agrees (cons a as') nil = refl
  eq_values-Agrees (cons a as') (cons b bs) =
      Agrees-then_items (cmp_value a b) (cmp_values as' bs) (eq_value a b) (eq_values as' bs)
        (eq_value-Agrees a b) (eq_values-Agrees as' bs)

-- Where a comparison of two values does not panic, they are equal by `==` exactly if the comparison
-- says so.
pub eq_value-cmp_value : (a b : Value) → Agrees (cmp_value a b) (eq_value a b)
eq_value-cmp_value a b = eq_value-Agrees a b

-- Times of 32 and of 64 bits cannot be compared: the comparison panics, though `==` tells whether they
-- are the same instant, as it does for timestamps.
pub cmp_value_panics :
    (a b : ℤ) (u w : TimeUnit)
    → (cmp_value (time32 a u) (time32 b w) ≡ none)
      × (cmp_value (time64 a u) (time64 b w) ≡ none)
      × (eq_value (time32 a u) (time32 b w) ≡ is_equal (compare_ℤ (instant a u) (instant b w)))
      × (eq_value (time64 a u) (time64 b w) ≡ is_equal (compare_ℤ (instant a u) (instant b w)))
unfolding cmp_value eq_value
cmp_value_panics a b u w =
    let same = eq_time-cmp_time a b u w ∙ ap is_equal (cmp_time-instant a b u w) in
    (refl, refl, same, same)
