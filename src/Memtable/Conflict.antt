-- ===== src/Memtable/Conflict.antt =====
-- `MutableMemTable::check_conflict` finds the versions after a snapshot.
use tonbo.Prelude.{
  ◌<◌, ◌≡◌, ◌↔◌, refl, true, Option, none, some, List, arith, In, Ordering, compare, sym,
}
use tonbo.Key.{Key, then_by, is_le, is_lt}
use tonbo.Key.Order.{≼_antisym, cmp_of_eq}
use tonbo.Timestamp.{Timestamp, Ts, ts_key, new, max_timestamp, cmp}
use tonbo.Scope.{excluded}
use tonbo.OrderedMap.{OrderedMap, is_within}
use tonbo.OrderedMap.Ranges.{FirstIs, select-FirstIs}
use tonbo.Memtable.{check_conflict, is_some}

le_of_lt_then : (o p : Ordering) → is_lt (then_by o p) ≡ true → is_le o ≡ true
le_of_lt_then o p h = ground arith

module _ {ℓ} {K : Type ℓ} where
  -- a version of the key after the timestamp, and before the last timestamp there is
  abbrev pub IsNewer {κ} : {V : Type κ} → K → Timestamp → Ts K × V → Type ℓ
  IsNewer key ts e = (e.0.value ≡ key) × ts < e.0.ts × e.0.ts < max_timestamp

module _ {ℓ} {K : Type ℓ} ⦃k : Key K⦄ where
  version_lt : (a b : Ts K) → a.value ≡ b.value → b.ts < a.ts → is_lt (cmp a b) ≡ true
  version_lt a b p h = let q = cmp_of_eq a.value b.value p in ground arith

  ts_of_version_lt : (a b : Ts K) → a.value ≡ b.value → is_lt (cmp a b) ≡ true → b.ts < a.ts
  ts_of_version_lt a b p h = let q = cmp_of_eq a.value b.value p in ground arith

  between_of :
      (key : K) (ts : Timestamp) (a : Ts K)
      → a.value ≡ key
      → ts < a.ts
      → a.ts < max_timestamp
      → is_within (excluded (new key max_timestamp)) (excluded (new key ts)) a ≡ true
  between_of key ts a p h l =
      rw (version_lt (new key max_timestamp) a (sym p) l) (version_lt a (new key ts) p h)

  of_between :
      (key : K) (ts : Timestamp) (a : Ts K)
      → is_within (excluded (new key max_timestamp)) (excluded (new key ts)) a ≡ true
      → (a.value ≡ key) × ts < a.ts × a.ts < max_timestamp
  of_between key ts a w =
      let lo : is_lt (cmp (new key max_timestamp) a) ≡ true = ground arith in
      let hi : is_lt (cmp a (new key ts)) ≡ true = ground arith in
      let p =
        ≼_antisym a.value key (le_of_lt_then _ (compare ts a.ts) hi)
          (le_of_lt_then _ (compare a.ts max_timestamp) lo) in
      (
        p,
        ts_of_version_lt a (new key ts) p hi,
        ts_of_version_lt (new key max_timestamp) a (sym p) lo,
      )

  some-IsNewer {κ} :
      {V : Type κ} (key : K) (ts : Timestamp) (es : List (Ts K × V)) (r : Option (Ts K × V))
      → FirstIs (excluded (new key max_timestamp)) (excluded (new key ts)) es r
      → (is_some r ≡ true) ↔ ((e : Ts K × V) × In e es × IsNewer key ts e)
  some-IsNewer key ts es none h =
      (λ c. cc, λ w. elim (h w.0 w.1 (between_of key ts w.0.0 w.2.0 w.2.1 w.2.2)) [ ])
  some-IsNewer key ts es (some a) h = (λ c. (a, h.0, of_between key ts a.0 h.1), λ w. refl)

  -- A conflict is found exactly if the table holds a version of the key that was written after the
  -- timestamp, the last timestamp there is excepted.
  pub check_conflict-IsNewer {κ μ} :
      {V : Type κ} {M : Type μ} (map : OrderedMap (Ts K) V M) (key : K) (ts : Timestamp) (m : M)
      → (check_conflict map key ts m ≡ true)
        ↔ ((e : Ts K × V) × In e (map.entries m) × IsNewer key ts e)
  unfolding check_conflict
  check_conflict-IsNewer map key ts m =
      rw (map.range-select (excluded (new key max_timestamp)) (excluded (new key ts)) m) (
        some-IsNewer key ts (map.entries m) _ (
          select-FirstIs (excluded (new key max_timestamp)) (excluded (new key ts)) (map.entries m)
            (map.entries_sorted m)))
