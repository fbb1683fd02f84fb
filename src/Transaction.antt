-- ===== src/Transaction.antt =====
-- src/transaction.rs: `Transaction`, its local map of writes and `commit`.
-- The locks that `commit` takes on the keys make it one step here. `local` is the content of the
-- local `BTreeMap`; scans are merged by `Stream.Merge`.
pub mod Commit
pub mod Local
pub mod Refusal
mod Examples
use tonbo.Prelude.{
  ℕ, ◌-◌, Bool, true, false, Option, none, some, List, [], ◌∷◌, ◌++◌, length, take, drop, map,
  if◌then◌else◌,
}
use tonbo.Prelude.Result.{Result, ok, err}
use tonbo.Key.{Key}
use tonbo.Timestamp.{Timestamp, Ts, ts_key}
use tonbo.Scope.{FileId}
use tonbo.Version.{Version, increase_ts}
use tonbo.OrderedMap.{OrderedMap, lookup}
use tonbo.OrderedMap.Tree.{Tree, b_tree_map}
use tonbo.Memtable.{
  LogType, full, first_part, middle, last_part, Log, WriteResult, continue, needs_compaction,
  TriggerType, MutableMemTable, append,
}
use tonbo.Storage.{DbStorage, storage_conflict, snapshot_get}

pub data CommitError {ℓ κ} (K : Type ℓ) (X : Type κ) : Type (ℓ ⊔ κ) where
  write_conflict : K → CommitError K X
  database : X → CommitError K X

abbrev pub with_type {ℓ} : {A : Type ℓ} → LogType → List A → List (LogType × A)
with_type t [] = []
with_type t (a ∷ l) = (t, a) ∷ with_type t l

-- `iter.next()`
abbrev pub one {ℓ} : {A : Type ℓ} → List A → List A
one [] = []
one (a ∷ l) = a ∷ []

-- the log types of the writes of a commit, by the number of the writes
unfoldable pub framed {ℓ} : {A : Type ℓ} → List A → List (LogType × A)
framed [] = []
framed (a ∷ []) = (full, a) ∷ []
framed (a ∷ b ∷ l) =
    let rest = b ∷ l in
    let len = length (a ∷ b ∷ l) in
    (first_part, a) ∷ with_type middle (take (len - 2) rest)
    ++ with_type last_part (one (drop (len - 2) rest))

module _ {ℓ κ} {K : Type ℓ} {R : Type κ} ⦃k : Key K⦄ where
  -- `entry`: `insert` gives a record, `remove` none
  abbrev pub entry : K → Option R → Tree K (Option R) → Tree K (Option R)
  entry key value local = b_tree_map.insert key value local

-- A local write answers, also if it is a removal; what it does not, the snapshot answers.
abbrev pub or_snapshot {ℓ κ μ} :
    {K : Type ℓ} {R : Type κ} {X : Type μ}
    → Option (K × Option R)
    → Result (Option (Ts K × R)) X
    → Result (Option R) X
or_snapshot (some w) r = ok w.1
or_snapshot none (ok none) = ok none
or_snapshot none (ok (some e)) = ok (some e.1)
or_snapshot none (err x) = err x

module _ {ℓ κ μ ν ξ χ} {K : Type ℓ} {R : Type κ} {M : Type μ} {N : Type ν} {W : Type ξ} {X : Type χ}
    ⦃k : Key K⦄ (skip_map : OrderedMap (Ts K) (Option R) M) (rows_map : OrderedMap (Ts K) ℕ N)
    (table_query : ℕ → FileId → Ts K → Result (Option (Ts K × Option R)) X) where
  -- `Transaction::get`, of a transaction whose snapshot has the timestamp
  unfoldable pub transaction_get :
      Tree K (Option R) → Timestamp → Version K → DbStorage R M N W → K → Result (Option R) X
  unfolding snapshot_get
  transaction_get local ts v s key =
      or_snapshot (lookup b_tree_map key local)
        (snapshot_get skip_map rows_map table_query v key ts s)

-- what is left of the storage and the version, and the answer
pub record Committed {ℓ κ μ} (S : Type ℓ) (V : Type κ) (A : Type μ) : Type (ℓ ⊔ κ ⊔ μ) where
  pub storage : S
  pub version : V
  pub answer : A

-- `?` after an append
abbrev pub after_append {ℓ κ} :
    {T : Type ℓ} {X : Type κ}
    → T
    → (WriteResult → T → T × Result WriteResult X)
    → Result (WriteResult × T) X
    → T × Result WriteResult X
after_append t next (ok (r, t')) = next r t'
after_append t next (err x) = (t, err x)

abbrev pub answer_of {ℓ κ} :
    {K : Type ℓ} {X : Type κ} → Result WriteResult X → Result Bool (CommitError K X)
answer_of (ok r) = ok (needs_compaction r)
answer_of (err x) = err (database x)

-- the early return of `commit`
abbrev pub unless_conflict {ℓ κ μ ν ξ} :
    {S : Type ℓ} {V : Type κ} {A : Type μ} {K : Type ν} {X : Type ξ}
    → Option K
    → S
    → V
    → Committed S V (Result A (CommitError K X))
    → Committed S V (Result A (CommitError K X))
unless_conflict (some key) s v c = record {
  storage = s;
  version = v;
  answer = err (write_conflict key);
}
unless_conflict none s v c = c

module _ {ℓ κ μ ν ξ} {K : Type ℓ} {R : Type κ} {M : Type μ} {N : Type ν} {W : Type ξ} ⦃k : Key K⦄
    (skip_map : OrderedMap (Ts K) (Option R) M) (rows_map : OrderedMap (Ts K) ℕ N) where
  -- the first key, in the order of the local map, that was written after the snapshot
  unfoldable pub find_conflict : Timestamp → DbStorage R M N W → List (K × Option R) → Option K
  find_conflict ts s [] = none
  find_conflict ts s (e ∷ es) =
      if storage_conflict skip_map rows_map e.0 ts s then some e.0 else find_conflict ts s es

module _ {ℓ κ μ ξ χ} {K : Type ℓ} {R : Type κ} {M : Type μ} {W : Type ξ} {X : Type χ} ⦃k : Key K⦄
    (skip_map : OrderedMap (Ts K) (Option R) M) (write : Log K R → W → Result W X)
    (trigger : TriggerType) (size_of : R → ℕ) where
  -- The appends of a commit, up to the first that fails; the answer is that of the last one.
  unfoldable pub append_all :
      WriteResult
      → List (LogType × (K × Option R))
      → Timestamp
      → MutableMemTable M W
      → MutableMemTable M W × Result WriteResult X
  append_all last [] ts t = (t, ok last)
  append_all last (e ∷ es) ts t =
      after_append t (λ r t'. append_all r es ts t')
        (append skip_map write trigger size_of (some e.0) e.1.0 ts e.1.1 t)

  module _ {ν} {N : Type ν} (rows_map : OrderedMap (Ts K) ℕ N) where
    -- the appends of all writes, with one new timestamp
    unfoldable pub commit_writes :
        List (K × Option R)
        → DbStorage R M N W
        → Version K
        → Committed (DbStorage R M N W) (Version K) (Result Bool (CommitError K X))
    unfolding append_all framed increase_ts
    commit_writes [] s v = record { storage = s; version = v; answer = ok false }
    commit_writes (e ∷ es) s v =
        let (new_ts, v') = increase_ts v in
        let r = append_all continue (framed (e ∷ es)) new_ts s.mutable in
        record { storage = record s { mutable = r.0 }; version = v'; answer = answer_of r.1 }

    -- The answer tells if the memory is to be frozen.
    unfoldable pub commit :
        Timestamp
        → List (K × Option R)
        → DbStorage R M N W
        → Version K
        → Committed (DbStorage R M N W) (Version K) (Result Bool (CommitError K X))
    unfolding find_conflict commit_writes
    commit ts writes s v =
        unless_conflict (find_conflict skip_map rows_map ts s writes) s v (commit_writes writes s v)
