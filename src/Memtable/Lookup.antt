-- ===== src/Memtable/Lookup.antt =====
-- `MutableMemTable::get` finds the newest version up to a timestamp.
use tonbo.Prelude.{
  ℕ, ◌≤◌, ◌<◌, ◌≡◌, true, Option, none, some, List, arith, In, Ordering, compare, sym, ◌∙◌, inl,
  inr, ◌⊎◌,
}
use tonbo.Key.{Key, then_by, is_le}
use tonbo.Key.Order.{≼_antisym, cmp_of_eq}
use tonbo.Timestamp.{Timestamp, Ts, ts_key, new, epoch, cmp}
use tonbo.Scope.{included}
use tonbo.OrderedMap.{OrderedMap, is_within}
use tonbo.OrderedMap.Ranges.{FirstIs, select-FirstIs}
use tonbo.Memtable.{get}

module _ {ℓ κ} {K : Type ℓ} {V : Type κ} where
  -- the newest version of a key up to a timestamp among the entries of a map
  abbrev pub IsNewest : K → Timestamp → List (Ts K × V) → Option (Ts K × V) → Type (ℓ ⊔ κ)
  IsNewest key ts es none = (e : Ts K × V) → In e es → e.0.value ≡ key → ts < e.0.ts
  IsNewest key ts es (some a) =
      In a es
      × (a.0.value ≡ key)
      × a.0.ts ≤ ts
      × ((e : Ts K × V) → In e es → e.0.value ≡ key → e.0.ts ≤ ts → e.0.ts ≤ a.0.ts)

le_or_gt : (a b : ℕ) → (a ≤ b) ⊎ (b < a)
le_or_gt a b = omega arith

le_of_then : (o p : Ordering) → is_le (then_by o p) ≡ true → is_le o ≡ true
le_of_then o p h = ground arith

module _ {ℓ} {K : Type ℓ} ⦃k : Key K⦄ where
  -- the order of the versions of one key
  version_le : (a b : Ts K) → a.value ≡ b.value → b.ts ≤ a.ts → is_le (cmp a b) ≡ true
  version_le a b p h = let q = cmp_of_eq a.value b.value p in ground arith

  ts_of_version_le : (a b : Ts K) → a.value ≡ b.value → is_le (cmp a b) ≡ true → b.ts ≤ a.ts
  ts_of_version_le a b p h = let q = cmp_of_eq a.value b.value p in ground arith

  pub within_of :
      (key : K) (ts : Timestamp) (a : Ts K)
      → a.value ≡ key
      → a.ts ≤ ts
      → is_within (included (new key ts)) (included (new key epoch)) a ≡ true
  within_of key ts a p h =
      rw (version_le (new key ts) a (sym p) h) (version_le a (new key epoch) p (omega arith))

  pub of_within :
      (key : K) (ts : Timestamp) (a : Ts K)
      → is_within (included (new key ts)) (included (new key epoch)) a ≡ true
      → (a.value ≡ key) × a.ts ≤ ts
  of_within key ts a w =
      let lo : is_le (cmp (new key ts) a) ≡ true = ground arith in
      let hi : is_le (cmp a (new key epoch)) ≡ true = ground arith in
      let p =
        ≼_antisym a.value key (le_of_then _ (compare epoch a.ts) hi)
          (le_of_then _ (compare a.ts ts) lo) in
      (p, ts_of_version_le (new key ts) a (sym p) lo)

  IsNewest-of_first {κ} :
      {V : Type κ} (key : K) (ts : Timestamp) (es : List (Ts K × V)) (r : Option (Ts K × V))
      → FirstIs (included (new key ts)) (included (new key epoch)) es r
      → IsNewest key ts es r
  IsNewest-of_first key ts es none h = λ e m p. elim (le_or_gt e.0.ts ts) [
    | inl l ↦ elim (h e m (within_of key ts e.0 p l)) [ ]
    | inr g ↦ g
  ]
  IsNewest-of_first key ts es (some a) h =
      let w = of_within key ts a.0 h.1 in
      (
        h.0,
        w.0,
        w.1,
        λ e m p l. ts_of_version_le a.0 e.0 (w.0 ∙ sym p) (h.2 e m (within_of key ts e.0 p l)),
      )

  -- What `get` returns is the newest version of the key up to the timestamp, with its value, among
  -- the entries of the table; where it returns none, all versions of the key are after the timestamp.
  pub get-IsNewest {κ μ} :
      {V : Type κ} {M : Type μ} (map : OrderedMap (Ts K) V M) (key : K) (ts : Timestamp) (m : M)
      → IsNewest key ts (map.entries m) (get map key ts m)
  unfolding get
  get-IsNewest map key ts m =
      rw (map.range-select (included (new key ts)) (included (new key epoch)) m) (
        IsNewest-of_first key ts (map.entries m) _ (
          select-FirstIs (included (new key ts)) (included (new key epoch)) (map.entries m)
            (map.entries_sorted m)))
