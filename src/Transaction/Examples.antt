-- ===== src/Transaction/Examples.antt =====
-- A commit on an empty memory, and the theorems of transactions at it.
use tonbo.Prelude.{ℕ, ◌<◌, ◌≡◌, refl, Bool, true, Option, none, some, List, [], ◌∷◌, arith}
use tonbo.Prelude.In.{here, there}
use tonbo.Prelude.Result.{Result, ok}
use tonbo.Key.Order.{nat_key}
use tonbo.Timestamp.{Ts, ts_key, new}
use tonbo.Scope.{FileId}
use tonbo.Version.{Version, increase_ts}
use tonbo.OrderedMap.{select}
use tonbo.OrderedMap.Tree.{Tree, b_tree_map}
use tonbo.Memtable.{Log, length_of, check_if_exceed, append, get, check_conflict}
use tonbo.Storage.{DbStorage, snapshot_get, map_ok}
use tonbo.Transaction.{
  entry, transaction_get, CommitError, Committed, find_conflict, framed, append_all, commit_writes,
  commit,
}
use tonbo.Transaction.Local.{
  local_of, last_write, value_of, write_or, transaction_get-entry, transaction_get-writes,
}
use tonbo.Transaction.Commit.{commit_reads_new, commit_reads_old}
use tonbo.Transaction.Refusal.{Decides, commit-Decides}

abbrev Table : Type 0
Table = Tree (Ts ℕ) (Option ℕ)

abbrev Rows : Type 0
Rows = Tree (Ts ℕ) ℕ

-- the log keeps the records
abbrev keep_log : Log ℕ ℕ → List (Log ℕ ℕ) → Result (List (Log ℕ ℕ)) ℕ
keep_log log w = ok (log ∷ w)

abbrev unit_size : ℕ → ℕ
unit_size v = 1

abbrev no_rows : Table
no_rows = record { list = []; sorted = tt }

abbrev no_writes : Tree ℕ (Option ℕ)
no_writes = record { list = []; sorted = tt }

abbrev empty_memory : DbStorage ℕ Table Rows (List (Log ℕ ℕ))
empty_memory = record {
  mutable = record { data_map = no_rows; wal = some []; counter = 0 };
  immutables = [];
}

abbrev no_tables : Version ℕ
no_tables = record { ts = 0; level_slice = []; timestamp = 7; log_length = 0 }

abbrev no_files : ℕ → FileId → Ts ℕ → Result (Option (Ts ℕ × Option ℕ)) ℕ
no_files i gen key = ok none

abbrev writes : List (ℕ × Option ℕ)
writes = (5, some 50) ∷ (6, none) ∷ (9, some 90) ∷ []

abbrev committed :
    Committed (DbStorage ℕ Table Rows (List (Log ℕ ℕ))) (Version ℕ) (Result Bool (CommitError ℕ ℕ))
committed =
    commit b_tree_map keep_log (length_of 2) unit_size b_tree_map 7 writes empty_memory no_tables

two_values : committed.answer ≡ ok true
unfolding commit commit_writes find_conflict append_all framed append increase_ts b_tree_map
    check_conflict select check_if_exceed
two_values = refl

commit_reads_new_example :
    get b_tree_map 6 (increase_ts no_tables).0 committed.storage.mutable.data_map
    ≡ some (new 6 (increase_ts no_tables).0, none)
commit_reads_new_example =
    commit_reads_new b_tree_map keep_log (length_of 2) unit_size b_tree_map 7 writes empty_memory
      no_tables true (6, none) ((refl, (refl, tt)), ((refl, tt), (tt, tt))) two_values
      (there (here refl))

seven_before : 7 < (increase_ts no_tables).0
unfolding increase_ts
seven_before = omega arith

commit_reads_old_example :
    get b_tree_map 5 7 committed.storage.mutable.data_map ≡ get b_tree_map 5 7 no_rows
commit_reads_old_example =
    commit_reads_old b_tree_map keep_log (length_of 2) unit_size b_tree_map 7 writes empty_memory
      no_tables true 5 7 two_values seven_before

commit-Decides_example :
    Decides b_tree_map b_tree_map keep_log
      (length_of 2)
      unit_size
      7
      writes
      empty_memory
      no_tables
      committed
commit-Decides_example =
    commit-Decides b_tree_map b_tree_map keep_log (length_of 2) unit_size 7 writes empty_memory
      no_tables

transaction_get-entry_example :
    transaction_get b_tree_map b_tree_map no_files
      (entry 5 (some 50) no_writes)
      7
      no_tables
      empty_memory
      5
    ≡ ok (some 50)
transaction_get-entry_example =
    transaction_get-entry b_tree_map b_tree_map no_files no_writes 5 (some 50) 7 no_tables
      empty_memory

-- 5 was written, and then removed
abbrev local_writes : List (ℕ × Option ℕ)
local_writes = (5, none) ∷ (6, some 60) ∷ (5, some 50) ∷ []

transaction_get-writes_example :
    transaction_get b_tree_map b_tree_map no_files
      (local_of local_writes)
      7
      no_tables
      empty_memory
      5
    ≡ write_or
        (last_write 5 local_writes)
        (map_ok value_of (snapshot_get b_tree_map b_tree_map no_files no_tables 5 7 empty_memory))
transaction_get-writes_example =
    transaction_get-writes b_tree_map b_tree_map no_files local_writes 5 7 no_tables empty_memory

removed_last : last_write 5 local_writes ≡ some none
unfolding last_write
removed_last = refl
