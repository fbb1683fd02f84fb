-- ===== src/Storage.antt =====
-- src/lib.rs: `DbStorage`, the tables in memory from the newest to the oldest, and src/snapshot.rs:
-- `Snapshot::get`. The projection of a read is left out.
pub mod Layers
pub mod Freeze
mod Examples
use tonbo.Prelude.{
  ℕ, Bool, true, false, ◌||◌, Option, none, some, List, [], ◌∷◌, get_elem?, rev, map, if◌then◌else◌,
}
use tonbo.Prelude.Result.{Result, ok, err}
use tonbo.Key.{Key}
use tonbo.Timestamp.{Timestamp, Ts, ts_key, new, max_timestamp}
use tonbo.Scope.{Scope, FileId, Bound, excluded}
use tonbo.Stream.{Order}
use tonbo.Version.{Version, query}
use tonbo.OrderedMap.{OrderedMap, range_panics}
use tonbo.Memtable.{MutableMemTable, get, scan, check_conflict, lower_bound, upper_bound}

-- `index` maps the versions to the rows of `rows`; `N` is a `BTreeMap`.
pub record ImmutableMemTable {ℓ κ} (R : Type ℓ) (N : Type κ) : Type (ℓ ⊔ κ) where
  pub rows : List (Option R)
  pub index : N

pub record DbStorage {ℓ κ μ ν} (R : Type ℓ) (M : Type κ) (N : Type μ) (W : Type ν)
    : Type (ℓ ⊔ κ ⊔ μ ⊔ ν) where
  pub mutable : MutableMemTable M W
  pub immutables : List (Option FileId × ImmutableMemTable R N)

-- the value of a row; the index has no row that is not there
abbrev pub row {ℓ} : {R : Type ℓ} → Option (Option R) → Option R
row none = none
row (some v) = v

-- the version and its value
abbrev pub with_row {ℓ κ} : {K : Type ℓ} {R : Type κ} → List (Option R) → Ts K × ℕ → Ts K × Option R
with_row rows e = (e.0, row (get_elem? rows e.1))

abbrev pub with_rows {ℓ κ} :
    {K : Type ℓ} {R : Type κ} → List (Option R) → Option (Ts K × ℕ) → Option (Ts K × Option R)
with_rows rows none = none
with_rows rows (some e) = some (with_row rows e)

-- an early return of what was found
abbrev pub or_else {ℓ} : {A : Type ℓ} → Option A → Option A → Option A
or_else (some a) b = some a
or_else none b = b

abbrev pub or_query {ℓ κ} :
    {A : Type ℓ} {X : Type κ} → Option A → Result (Option A) X → Result (Option A) X
or_query (some a) r = ok (some a)
or_query none r = r

module _ {ℓ κ μ} {K : Type ℓ} {R : Type κ} {N : Type μ} ⦃k : Key K⦄
    (rows_map : OrderedMap (Ts K) ℕ N) where
  -- `ImmutableMemTable::scan`, with the values of its rows; there is no result where the range panics
  unfoldable pub immutable_scan :
      Bound K
      → Bound K
      → Timestamp
      → Option Order
      → ImmutableMemTable R N
      → Option (List (Ts K × Option R))
  immutable_scan lo hi ts order t =
      let found = map (with_row t.rows) (scan rows_map lo hi ts order t.index) in
      if range_panics (lower_bound ts lo) (upper_bound ts hi) then none else some found

  -- `ImmutableMemTable::check_conflict`, and no result where the range panics
  unfoldable pub immutable_conflict : K → Timestamp → ImmutableMemTable R N → Option Bool
  immutable_conflict key ts t =
      let found = check_conflict rows_map key ts t.index in
      if range_panics (excluded (new key max_timestamp)) (excluded (new key ts))
      then none
      else some found

  -- `ImmutableMemTable::get`: the first entry of a scan of the one key, whose range does not panic
  abbrev pub immutable_get : K → Timestamp → ImmutableMemTable R N → Option (Ts K × Option R)
  immutable_get key ts t = with_rows t.rows (get rows_map key ts t.index)

  -- the loop over the immutable tables, from the one that the iterator yields first
  abbrev pub immutables_get :
      K → Timestamp → List (Option FileId × ImmutableMemTable R N) → Option (Ts K × Option R)
  immutables_get key ts [] = none
  immutables_get key ts (t ∷ ts') = or_else (immutable_get key ts t.1) (immutables_get key ts ts')

  -- before the last timestamp, at which the range of an immutable table panics
  abbrev pub any_conflict : K → Timestamp → List (Option FileId × ImmutableMemTable R N) → Bool
  any_conflict key ts [] = false
  any_conflict key ts (t ∷ ts') =
      check_conflict rows_map key ts t.1.index || any_conflict key ts ts'

module _ {ℓ κ μ ν ξ} {K : Type ℓ} {R : Type κ} {M : Type μ} {N : Type ν} {W : Type ξ} ⦃k : Key K⦄
    (map : OrderedMap (Ts K) (Option R) M) (rows_map : OrderedMap (Ts K) ℕ N) where
  -- what is found in memory
  abbrev pub memory_get : K → Timestamp → DbStorage R M N W → Option (Ts K × Option R)
  memory_get key ts s =
      or_else (get map key ts s.mutable.data_map)
        (immutables_get rows_map key ts (rev s.immutables))

  -- `DbStorage::check_conflict`
  abbrev pub storage_conflict : K → Timestamp → DbStorage R M N W → Bool
  storage_conflict key ts s =
      check_conflict map key ts s.mutable.data_map
      || any_conflict rows_map key ts (rev s.immutables)

  -- `DbStorage::get`
  unfoldable pub storage_get {χ} :
      {X : Type χ}
      → (ℕ → FileId → Ts K → Result (Option (Ts K × Option R)) X)
      → Version K
      → K
      → Timestamp
      → DbStorage R M N W
      → Result (Option (Ts K × Option R)) X
  storage_get table_query v key ts s =
      or_query (memory_get key ts s) (query table_query (new key ts) v.level_slice)

-- the `and_then` of `Snapshot::get`: a removed key has no record
abbrev pub not_removed {ℓ κ} :
    {K : Type ℓ} {R : Type κ} → Option (Ts K × Option R) → Option (Ts K × R)
not_removed none = none
not_removed (some (t, none)) = none
not_removed (some (t, some v)) = some (t, v)

abbrev pub map_ok {ℓ κ μ} :
    {A : Type ℓ} {B : Type κ} {X : Type μ} → (A → B) → Result A X → Result B X
map_ok f (ok a) = ok (f a)
map_ok f (err x) = err x

module _ {ℓ κ μ ν ξ χ} {K : Type ℓ} {R : Type κ} {M : Type μ} {N : Type ν} {W : Type ξ} {X : Type χ}
    ⦃k : Key K⦄ (map : OrderedMap (Ts K) (Option R) M) (rows_map : OrderedMap (Ts K) ℕ N)
    (table_query : ℕ → FileId → Ts K → Result (Option (Ts K × Option R)) X) where
  -- `Snapshot::get`, of a snapshot of the timestamp
  unfoldable pub snapshot_get :
      Version K → K → Timestamp → DbStorage R M N W → Result (Option (Ts K × R)) X
  unfolding storage_get
  snapshot_get v key ts s = map_ok not_removed (storage_get map rows_map table_query v key ts s)
