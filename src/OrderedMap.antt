-- ===== src/OrderedMap.antt =====
-- The ordered maps that the engine keeps its data in: `crossbeam_skiplist::SkipMap` in
-- src/inmem/mutable.rs, an argument of the model, and the standard library's `BTreeMap`. Of a map
-- the engine uses its insertion, which replaces the value of a key, and its ranges in order.
pub mod Ranges
pub mod Lookup
pub mod Tree
use tonbo.Prelude.{
  Bool, true, false, ◌&&◌, Option, none, some, List, [], ◌∷◌, ◌≡◌, ◌≢◌, ◌⊎◌, In, Sorted,
}
use tonbo.Key.{Key, ◌<?◌, ◌≤?◌, ◌≺◌}
use tonbo.Scope.{Bound, included, excluded, unbounded}

module _ {ℓ} {K : Type ℓ} ⦃k : Key K⦄ where
  -- `RangeBounds::contains`, in its two halves
  abbrev pub starts_by : Bound K → K → Bool
  starts_by (included lo) a = lo ≤? a
  starts_by (excluded lo) a = lo <? a
  starts_by unbounded a = true

  abbrev pub ends_after : Bound K → K → Bool
  ends_after (included hi) a = a ≤? hi
  ends_after (excluded hi) a = a <? hi
  ends_after unbounded a = true

  abbrev pub is_within : Bound K → Bound K → K → Bool
  is_within lo hi a = starts_by lo a && ends_after hi a

module _ {ℓ κ} {K : Type ℓ} {V : Type κ} ⦃k : Key K⦄ where
  abbrev pub Before : K × V → K × V → Type 0
  Before a b = a.0 ≺ b.0

  abbrev pub keep : Bool → K × V → List (K × V) → List (K × V)
  keep true e rest = e ∷ rest
  keep false e rest = rest

  unfoldable pub select : Bound K → Bound K → List (K × V) → List (K × V)
  select lo hi [] = []
  select lo hi (e ∷ es) = keep (is_within lo hi e.0) e (select lo hi es)

-- `range().next()`
abbrev pub first {ℓ} : {A : Type ℓ} → List A → Option A
first [] = none
first (x ∷ xs) = some x

-- what the engine relies on, of the entries that a map holds in the order of their keys
pub record OrderedMap {ℓ κ μ} (K : Type ℓ) (V : Type κ) (M : Type μ) ⦃k : Key K⦄
    : Type (ℓ ⊔ κ ⊔ μ) where
  pub entries : M → List (K × V)
  pub empty : M
  pub insert : K → V → M → M
  pub range : Bound K → Bound K → M → List (K × V)
  pub entries_sorted : (m : M) → Sorted Before (entries m)
  pub entries-empty : entries empty ≡ []
  pub range-select : (lo hi : Bound K) (m : M) → range lo hi m ≡ select lo hi (entries m)
  pub insert_new : (a : K) (v : V) (m : M) → In (a, v) (entries (insert a v m))
  pub insert_keeps :
      (a : K) (v : V) (m : M) (e : K × V)
      → In e (entries m)
      → e.0 ≢ a
      → In e (entries (insert a v m))
  pub insert_only :
      (a : K) (v : V) (m : M) (e : K × V)
      → In e (entries (insert a v m))
      → (e ≡ (a, v)) ⊎ (In e (entries m) × (e.0 ≢ a))

-- Where `BTreeMap::range` panics, as it documents: the start is after the end, or both are excluded and
-- equal. The range of a skip map is then empty.
module _ {ℓ} {K : Type ℓ} ⦃k : Key K⦄ where
  abbrev pub range_panics : Bound K → Bound K → Bool
  range_panics (excluded lo) (excluded hi) = hi ≤? lo
  range_panics (excluded lo) (included hi) = hi <? lo
  range_panics (included lo) (excluded hi) = hi <? lo
  range_panics (included lo) (included hi) = hi <? lo
  range_panics unbounded hi = false
  range_panics (included lo) unbounded = false
  range_panics (excluded lo) unbounded = false

-- `BTreeMap::get`, with the key that is found
module _ {ℓ κ μ} {K : Type ℓ} {V : Type κ} {M : Type μ} ⦃k : Key K⦄ (map : OrderedMap K V M) where
  unfoldable pub lookup : K → M → Option (K × V)
  lookup key m = first (map.range (included key) (included key) m)
