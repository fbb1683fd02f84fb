-- ===== src/Recovery/Examples.antt =====
-- The replay of a log, and its theorems at it.
use tonbo.Prelude.{ℕ, ◌<◌, ◌≡◌, refl, Option, none, some, List, [], ◌∷◌, arith, length, take}
use tonbo.Prelude.Result.{Result, ok}
use tonbo.Key.Order.{nat_key}
use tonbo.Timestamp.{Ts, ts_key}
use tonbo.Version.{Version}
use tonbo.OrderedMap.Tree.{Tree, b_tree_map}
use tonbo.Memtable.{Log, length_of, MutableMemTable}
use tonbo.Transaction.{framed}
use tonbo.Recovery.{Recovering, recover_logs}
use tonbo.Recovery.Frames.{logs_of, Unwritten, recover_logs-Unwritten}

abbrev Table : Type 0
Table = Tree (Ts ℕ) (Option ℕ)

abbrev keep_log : Log ℕ ℕ → List (Log ℕ ℕ) → Result (List (Log ℕ ℕ)) ℕ
keep_log log w = ok (log ∷ w)

abbrev unit_size : ℕ → ℕ
unit_size v = 1

abbrev fresh : Recovering (MutableMemTable Table (List (Log ℕ ℕ))) (ℕ × Option ℕ) (Version ℕ)
fresh = record {
  table = record { data_map = record { list = []; sorted = tt }; wal = some []; counter = 0 };
  transaction_map = [];
  version = record { ts = 0; level_slice = []; timestamp = 7; log_length = 0 };
}

abbrev others : List (ℕ × Option ℕ)
others = (6, none) ∷ (9, some 90) ∷ []

three_frames : length (framed ((5, some 50) ∷ others)) ≡ 3
unfolding framed
three_frames = refl

two_of_three : 2 < length (framed ((5, some 50) ∷ others))
two_of_three = omega (arith, three_frames)

recover_logs-Unwritten_example : Unwritten b_tree_map keep_log (length_of 2) unit_size fresh (
    recover_logs b_tree_map keep_log
      (length_of 2)
      unit_size
      (logs_of 3 (take 2 (framed ((5, some 50) ∷ others))))
      fresh)
recover_logs-Unwritten_example =
    recover_logs-Unwritten b_tree_map keep_log (length_of 2) unit_size 2 3 (5, some 50) others fresh
      two_of_three
