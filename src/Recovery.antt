-- ===== src/Recovery.antt =====
-- src/lib.rs: `DbStorage::new`, the replay of the write-ahead logs. The files are read by the caller:
-- a log is the list of its records, in the order of the files. `transaction_map` is a hash map from
-- timestamps to the writes of a transaction that is not complete, of which it has one entry each.
pub mod Frames
mod Examples
use tonbo.Prelude.{
  ℕ, ◌==◌, Bool, true, false, Option, none, some, List, [], ◌∷◌, ◌++◌, if◌then◌else◌,
}
use tonbo.Prelude.Result.{Result, ok, err, ◌>>=◌}
use tonbo.Key.{Key}
use tonbo.Timestamp.{Timestamp, Ts, ts_key}
use tonbo.OrderedMap.{OrderedMap}
use tonbo.Version.{Version, increase_ts}
use tonbo.Memtable.{
  LogType, full, first_part, middle, last_part, Log, WriteResult, continue, TriggerType,
  MutableMemTable, append,
}

module _ {ℓ} {A : Type ℓ} where
  abbrev pub remove_entry : ℕ → List (ℕ × List A) → List (ℕ × List A)
  remove_entry ts [] = []
  remove_entry ts (e ∷ es) = if e.0 == ts then es else e ∷ remove_entry ts es

  abbrev pub insert_entry : ℕ → List A → List (ℕ × List A) → List (ℕ × List A)
  insert_entry ts v es = (ts, v) ∷ remove_entry ts es

  abbrev pub find_entry : ℕ → List (ℕ × List A) → Option (List A)
  find_entry ts [] = none
  find_entry ts (e ∷ es) = if e.0 == ts then some e.1 else find_entry ts es

  -- `get_mut(&ts).unwrap().push(a)`
  abbrev pub push_entry : ℕ → A → List (ℕ × List A) → List (ℕ × List A)
  push_entry ts a [] = []
  push_entry ts a (e ∷ es) = if e.0 == ts then (e.0, e.1 ++ a ∷ []) ∷ es else e ∷ push_entry ts a es

-- `panics` is the `unwrap` of what is not there.
pub data Stop {ℓ} (X : Type ℓ) : Type ℓ where
  panics : Stop X
  fails : X → Stop X

abbrev pub or_panic {ℓ κ} : {A : Type ℓ} {X : Type κ} → Option A → Result A (Stop X)
or_panic (some a) = ok a
or_panic none = err panics

abbrev pub or_fail {ℓ κ} : {A : Type ℓ} {X : Type κ} → Result A X → Result A (Stop X)
or_fail (ok a) = ok a
or_fail (err x) = err (fails x)

-- `V` is the version, whose counter gives the timestamps
pub record Recovering {ℓ κ μ} (T : Type ℓ) (E : Type κ) (V : Type μ) : Type (ℓ ⊔ κ ⊔ μ) where
  pub table : T
  pub transaction_map : List (ℕ × List E)
  pub version : V

module _ {ℓ κ μ ξ χ} {K : Type ℓ} {R : Type κ} {M : Type μ} {W : Type ξ} {X : Type χ} ⦃k : Key K⦄
    (skip_map : OrderedMap (Ts K) (Option R) M) (write : Log K R → W → Result W X)
    (trigger : TriggerType) (size_of : R → ℕ) where
  -- `recover_append`
  unfoldable pub recover_append :
      K × Option R → Timestamp → MutableMemTable M W → Result (WriteResult × MutableMemTable M W) X
  unfolding append
  recover_append e ts t = append skip_map write trigger size_of none e.0 ts e.1 t

  unfoldable pub recover_each :
      WriteResult
      → List (K × Option R)
      → Timestamp
      → MutableMemTable M W
      → Result (WriteResult × MutableMemTable M W) X
  unfolding recover_append
  recover_each last [] ts t = ok (last, t)
  recover_each last (e ∷ es) ts t = recover_append e ts t >>= λ r. recover_each r.0 es ts r.1

  -- all writes of a transaction, with one new timestamp
  unfoldable pub recover_batch :
      List (K × Option R)
      → Recovering (MutableMemTable M W) (K × Option R) (Version K)
      → Result (WriteResult × Recovering (MutableMemTable M W) (K × Option R) (Version K)) (Stop X)
  unfolding recover_each increase_ts
  recover_batch es s =
      let (ts, v) = increase_ts s.version in
      or_fail (recover_each continue es ts s.table) >>= λ r.
      ok (r.0, record s { table = r.1; version = v })

  -- the `match` on the log type
  unfoldable pub recover_as :
      LogType
      → Timestamp
      → K × Option R
      → Recovering (MutableMemTable M W) (K × Option R) (Version K)
      → Result (WriteResult × Recovering (MutableMemTable M W) (K × Option R) (Version K)) (Stop X)
  unfolding recover_batch
  recover_as full ts e s = recover_batch (e ∷ []) s
  recover_as first_part ts e s =
      ok (continue, record s { transaction_map = insert_entry ts (e ∷ []) s.transaction_map })
  recover_as middle ts e s = or_panic (find_entry ts s.transaction_map) >>= λ es.
      ok (continue, record s { transaction_map = push_entry ts e s.transaction_map })
  recover_as last_part ts e s = or_panic (find_entry ts s.transaction_map) >>= λ es.
      recover_batch (es ++ e ∷ [])
        (record s { transaction_map = remove_entry ts s.transaction_map })

  -- One record of a log. The answer tells if the memory is to be frozen.
  unfoldable pub recover_log :
      Log K R
      → Recovering (MutableMemTable M W) (K × Option R) (Version K)
      → Result (WriteResult × Recovering (MutableMemTable M W) (K × Option R) (Version K)) (Stop X)
  unfolding recover_as
  recover_log log s =
      or_panic log.log_type >>= λ t. recover_as t log.key.ts (log.key.value, log.value) s

  -- the records of the logs
  unfoldable pub recover_logs :
      List (Log K R)
      → Recovering (MutableMemTable M W) (K × Option R) (Version K)
      → Result (Recovering (MutableMemTable M W) (K × Option R) (Version K)) (Stop X)
  unfolding recover_log
  recover_logs [] s = ok s
  recover_logs (log ∷ logs) s = recover_log log s >>= λ r. recover_logs logs r.1
