-- ===== src/Memtable.antt =====
-- src/inmem/mutable.rs and src/inmem/immutable.rs: the tables in memory, and src/trigger.rs.
-- The skip map of the mutable table and the file of its log are arguments. A record reads its own
-- key by `key_of`, and `size_of` is the sum of the sizes that the trigger reads. Projections and the
-- Arrow columns are left out: an immutable table holds its values in the order of its rows.
pub mod Lookup
pub mod Conflict
pub mod Writes
use tonbo.Prelude.{
  ◌^◌, ℕ, zero, suc, ◌+◌, ◌%◌, Bool, true, false, Option, none, some, List, [], ◌∷◌, ◌++◌, leb,
  length, get_elem?, rev,
}
use tonbo.Prelude.Result.{Result, ok, err, ◌>>=◌}
use tonbo.Key.{Key}
use tonbo.Timestamp.{Timestamp, Ts, ts_key, new, epoch, max_timestamp}
use tonbo.Scope.{Bound, included, excluded, unbounded, FileId}
use tonbo.Stream.{Order, asc, desc}
use tonbo.OrderedMap.{OrderedMap, first}

-- src/wal/log.rs
pub data LogType : Type 0 where
  full first_part middle last_part : LogType

pub record Log {ℓ κ} (K : Type ℓ) (R : Type κ) : Type (ℓ ⊔ κ) where
  pub key : Ts K
  pub value : Option R
  pub log_type : Option LogType

pub data WriteResult : Type 0 where
  continue need_compaction : WriteResult

abbrev pub needs_compaction : WriteResult → Bool
needs_compaction need_compaction = true
needs_compaction continue = false

pub data TriggerType : Type 0 where
  size_of_mem length_of : (threshold : ℕ) → TriggerType

-- `check_if_exceed`, with the atomic counter; `size` is the size of the item and of its key
unfoldable pub check_if_exceed : TriggerType → (size : ℕ) → (counter : ℕ) → Bool × ℕ
check_if_exceed (size_of_mem threshold) size counter =
    (leb threshold ((counter + size) % 2 ^ 64), (counter + size) % 2 ^ 64)
check_if_exceed (length_of threshold) size counter =
    (leb threshold ((counter + 1) % 2 ^ 64), (counter + 1) % 2 ^ 64)

abbrev pub write_result : Bool → WriteResult
write_result true = need_compaction
write_result false = continue

abbrev pub is_some {ℓ} : {A : Type ℓ} → Option A → Bool
is_some none = false
is_some (some a) = true

-- `M` is the skip map, `W` the log file
pub record MutableMemTable {ℓ κ} (M : Type ℓ) (W : Type κ) : Type (ℓ ⊔ κ) where
  pub data_map : M
  pub wal : Option W
  -- the counter that the trigger shares with the storage
  pub counter : ℕ

-- the bounds of a scan, over versions
module _ {ℓ} {K : Type ℓ} where
  abbrev pub lower_bound : Timestamp → Bound K → Bound (Ts K)
  lower_bound ts (included key) = included (new key ts)
  lower_bound ts (excluded key) = excluded (new key epoch)
  lower_bound ts unbounded = unbounded

  abbrev pub upper_bound : Timestamp → Bound K → Bound (Ts K)
  upper_bound ts (included key) = included (new key epoch)
  upper_bound ts (excluded key) = excluded (new key ts)
  upper_bound ts unbounded = unbounded

abbrev pub directed {ℓ} : {A : Type ℓ} → Option Order → List A → List A
directed (some desc) es = rev es
directed _ es = es

module _ {ℓ κ μ} {K : Type ℓ} {V : Type κ} {M : Type μ} ⦃k : Key K⦄
    (map : OrderedMap (Ts K) V M) where
  unfoldable pub get : K → Timestamp → M → Option (Ts K × V)
  get key ts m = first (map.range (included (new key ts)) (included (new key epoch)) m)

  unfoldable pub scan : Bound K → Bound K → Timestamp → Option Order → M → List (Ts K × V)
  scan lo hi ts order m = directed order (map.range (lower_bound ts lo) (upper_bound ts hi) m)

  unfoldable pub check_conflict : K → Timestamp → M → Bool
  check_conflict key ts m =
      is_some (first (map.range (excluded (new key max_timestamp)) (excluded (new key ts)) m))

module _ {ℓ κ μ ξ} {K : Type ℓ} {R : Type κ} {W : Type μ} {X : Type ξ}
    (write : Log K R → W → Result W X) where
  -- what the log is after an entry that has a log type
  abbrev pub log_entry : Log K R → Option W → Result (Option W) X
  log_entry entry none = ok none
  log_entry entry (some w) = elim entry.log_type [
    | none ↦ ok (some w)
    | some t ↦ write entry w >>= λ w'. ok (some w')
  ]

module _ {ℓ} {R : Type ℓ} (trigger : TriggerType) (size_of : R → ℕ) where
  -- only a value is counted, not a removal
  abbrev pub checked : Option R → ℕ → Bool × ℕ
  checked none counter = (false, counter)
  checked (some v) counter = check_if_exceed trigger (size_of v) counter

module _ {ℓ κ μ ν ξ} {K : Type ℓ} {R : Type κ} {M : Type μ} {W : Type ν} {X : Type ξ} ⦃k : Key K⦄
    (map : OrderedMap (Ts K) (Option R) M) (write : Log K R → W → Result W X)
    (trigger : TriggerType) (size_of : R → ℕ) where
  -- the insertion, and what the trigger says of it
  abbrev pub after_log :
      K
      → Timestamp
      → Option R
      → MutableMemTable M W
      → Result (Option W) X
      → Result (WriteResult × MutableMemTable M W) X
  after_log key ts value t (err x) = err x
  after_log key ts value t (ok w) =
      let c = checked trigger size_of value t.counter in
      ok (
        write_result c.0,
        record { data_map = map.insert (new key ts) value t.data_map; wal = w; counter = c.1 },
      )

  unfoldable pub append :
      Option LogType
      → K
      → Timestamp
      → Option R
      → MutableMemTable M W
      → Result (WriteResult × MutableMemTable M W) X
  append log_type key ts value t =
      after_log key ts value t
        (log_entry write (record { key = new key ts; value = value; log_type = log_type }) t.wal)
