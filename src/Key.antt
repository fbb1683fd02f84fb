-- ===== src/Key.antt =====
-- src/record/key/mod.rs: `trait Key`, of which the engine uses the total order `Ord`.
-- The other supertraits (`Encode`, `Decode`) stand in `Codec`; `Hash`, `Clone`, `Send`, `Sync`,
-- `Debug`, `as_key_ref`, `to_key` and `to_arrow_datums` leave no trace in the model.
pub mod Order
pub mod Then
use tonbo.Prelude.{◌≡◌, Bool, true, false, Ordering, lt, eq, gt}

-- `Ordering::reverse`
abbrev pub reverse : Ordering → Ordering
reverse lt = gt
reverse eq = eq
reverse gt = lt

-- `Ordering::then` and `then_with`
abbrev pub then_by : Ordering → Ordering → Ordering
then_by eq second = second
then_by first _ = first

-- What the trait `Ord` demands of `cmp`; its `==` is read as `≡`.
pub record IsTotal {ℓ} {K : Type ℓ} (cmp : K → K → Ordering) : Type ℓ where
  pub cmp_self : (a : K) → cmp a a ≡ eq
  pub eq_of_cmp : (a b : K) → cmp a b ≡ eq → a ≡ b
  pub cmp_swap : (a b : K) → cmp b a ≡ reverse (cmp a b)
  pub cmp_trans : (a b c : K) → cmp a b ≡ lt → cmp b c ≡ lt → cmp a c ≡ lt

pub record Key {ℓ} (K : Type ℓ) : Type ℓ where
  pub cmp : K → K → Ordering
  pub total : IsTotal cmp
  pub open total use *

abbrev pub is_lt : Ordering → Bool
is_lt lt = true
is_lt _ = false

abbrev pub is_le : Ordering → Bool
is_le gt = false
is_le _ = true

abbrev pub is_eq : Ordering → Bool
is_eq eq = true
is_eq _ = false

-- the operators `<`, `<=` and `==` of Rust, and the first two as relations
module _ {ℓ} {K : Type ℓ} ⦃k : Key K⦄ where
  infix 50 ◌<?◌ ◌≤?◌ ◌=?◌ ◌≺◌ ◌≼◌
  abbrev pub ◌<?◌ : K → K → Bool
  a <? b = is_lt (k.cmp a b)

  abbrev pub ◌≤?◌ : K → K → Bool
  a ≤? b = is_le (k.cmp a b)

  abbrev pub ◌=?◌ : K → K → Bool
  a =? b = is_eq (k.cmp a b)

  abbrev pub ◌≺◌ : K → K → Type 0
  a ≺ b = k.cmp a b ≡ lt

  abbrev pub ◌≼◌ : K → K → Type 0
  a ≼ b = is_le (k.cmp a b) ≡ true
