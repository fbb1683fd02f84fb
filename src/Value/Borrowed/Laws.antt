-- ===== src/Value/Borrowed/Laws.antt =====
-- What a value that is read from an array, or borrowed and owned again, has become.
use tonbo.Prelude.{
  ℕ, suc, ◌%◌, ◌^◌, ◌<◌, ◌≡◌, refl, ap, sym, ◌∙◌, arith, Bool, true, false, none, some, leb,
}
use tonbo.Prelude.Result.{Result, ok, ok-injective}
use tonbo.Prelude.Integers.{ℤ, pos, negsuc}
use tonbo.Value.Types.{item, data_type, same_type, same_type-eq, as_i32}
use tonbo.Value.Order.{eq_value}
use tonbo.Value.Borrowed.{to_owned, Arrays, ArrayError, cell_ref, from_array_ref, time64_ref}
use tonbo.Value.{
  large_utf8_type, large_binary_type, timestamp_type, time32_type, time64_type,
  fixed_size_binary_type, list_type,
}
use tonbo.Value.{TimeUnit, second, millisecond, microsecond, nanosecond, DataType, Value, Values}
use tonbo.Value.Value.{list}

abbrev depth : DataType → ℕ
depth (list_type name ty nullable) = suc (depth ty)
depth _ = 0

list_differs : (ty : DataType) → list_type item ty false ≡ ty → ⊥
list_differs ty p = absurd (omega (arith, ap depth p))

false_of_not : (b : Bool) → (b ≡ true → ⊥) → b ≡ false
false_of_not true h = elim (h refl) [ ]
false_of_not false h = refl

-- A list that is borrowed and owned again is not equal to what it was: its type is that of a list of
-- lists.
pub to_owned-eq_value :
    (ty : DataType) (vs : Values) → eq_value (to_owned (list ty vs)) (list ty vs) ≡ false
unfolding to_owned eq_value
to_owned-eq_value ty vs =
    rw
      (false_of_not (same_type (list_type item ty false) ty)
        (λ h. list_differs ty (same_type-eq (list_type item ty false) ty h)))
      refl

-- the types of arrays whose cells keep them
abbrev pub KeepsType : DataType → Type 0
KeepsType large_utf8_type = ⊥
KeepsType large_binary_type = ⊥
KeepsType (time32_type microsecond) = ⊥
KeepsType (time32_type nanosecond) = ⊥
KeepsType (time64_type unit) = ⊥
KeepsType (timestamp_type unit (some timezone)) = ⊥
KeepsType (fixed_size_binary_type (pos w)) = w < 2 ^ 31
KeepsType (fixed_size_binary_type (negsuc w)) = ⊥
KeepsType (list_type name ty nullable) = ⊥
KeepsType _ = Unit

width_kept : (w : ℕ) → w < 2 ^ 31 → as_i32 (w % 2 ^ 32) ≡ pos w
width_kept w h = ground arith

module _ {ℓ} {A : Type ℓ} (arrow : Arrays A) where
  -- a value of the type
  abbrev pub OfType : DataType → Result Value ArrayError → Type 0
  OfType ty r = (v : Value) × (r ≡ ok v) × (data_type v ≡ some ty)

  cell_ref-OfType :
      (a : A) (i : ℕ) (elements : Result Values ArrayError) (ty : DataType)
      → KeepsType ty
      → OfType ty (cell_ref arrow a i elements ty)
  unfolding data_type
  cell_ref-OfType a i elements large_utf8_type h = elim h [ ]
  cell_ref-OfType a i elements large_binary_type h = elim h [ ]
  cell_ref-OfType a i elements (time32_type second) h = (_, refl, refl)
  cell_ref-OfType a i elements (time32_type millisecond) h = (_, refl, refl)
  cell_ref-OfType a i elements (time32_type microsecond) h = elim h [ ]
  cell_ref-OfType a i elements (time32_type nanosecond) h = elim h [ ]
  cell_ref-OfType a i elements (time64_type unit) h = elim h [ ]
  cell_ref-OfType a i elements (timestamp_type unit none) h = (_, refl, refl)
  cell_ref-OfType a i elements (timestamp_type unit (some timezone)) h = elim h [ ]
  cell_ref-OfType a i elements (fixed_size_binary_type (pos w)) h =
      (_, refl, ap (λ t. some (fixed_size_binary_type t)) (width_kept w h))
  cell_ref-OfType a i elements (fixed_size_binary_type (negsuc w)) h = elim h [ ]
  cell_ref-OfType a i elements (list_type name ty nullable) h = elim h [ ]
  cell_ref-OfType a i elements _ h = (_, refl, refl)

  -- A cell that is there and not null is read as a value of the type of the array, for all types but
  -- the large ones, those of 64-bit times, of timestamps with a timezone and of lists, and those
  -- with a unit or a width that arrow does not have.
  pub from_array_ref-OfType :
      (fuel : ℕ) (a : A) (i : ℕ)
      → i < arrow.len a
      → arrow.is_null_at a i ≡ false
      → KeepsType (arrow.array_type a)
      → OfType (arrow.array_type a) (from_array_ref arrow (suc fuel) a i)
  unfolding from_array_ref
  from_array_ref-OfType fuel a i bound here_is h =
      let within : leb (arrow.len a) i ≡ false = ground arith in
      rw (within, here_is) (cell_ref-OfType a i _ (arrow.array_type a) h)

  time64_ref-no_type :
      (x : ℤ) (unit : TimeUnit) (v : Value) → time64_ref x unit ≡ ok v → data_type v ≡ none
  unfolding data_type
  time64_ref-no_type x second v h = cc
  time64_ref-no_type x millisecond v h = cc
  time64_ref-no_type x microsecond v h = ap data_type (sym (ok-injective _ v h))
  time64_ref-no_type x nanosecond v h = ap data_type (sym (ok-injective _ v h))

  -- No value that is read from an array of 64-bit times, of a cell that is not null, has a type: its
  -- unit is one that such times do not have, and `data_type` panics.
  pub from_array_ref-no_type :
      (fuel : ℕ) (a : A) (i : ℕ) (unit : TimeUnit) (v : Value)
      → i < arrow.len a
      → arrow.is_null_at a i ≡ false
      → arrow.array_type a ≡ time64_type unit
      → from_array_ref arrow (suc fuel) a i ≡ ok v
      → data_type v ≡ none
  unfolding from_array_ref
  from_array_ref-no_type fuel a i unit v bound here_is ty h =
      let within : leb (arrow.len a) i ≡ false = ground arith in
      let read : from_array_ref arrow (suc fuel) a i ≡ time64_ref (arrow.int_at a i) unit =
        rw (within, here_is, ty) refl in
      time64_ref-no_type (arrow.int_at a i) unit v (sym read ∙ h)
