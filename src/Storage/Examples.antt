-- ===== src/Storage/Examples.antt =====
-- Reads and commits of a small storage, and the theorems of the memory at it.
use tonbo.Prelude.{
  ℕ, ◌<◌, ◌≡◌, ◌≤◌, refl, false, length, Option, none, some, List, [], ◌∷◌, arith, In,
}
use tonbo.Prelude.In.{here, there}
use tonbo.Prelude.Member.{In-nil}
use tonbo.Prelude.Result.{Result, ok}
use tonbo.Key.Order.{nat_key}
use tonbo.Timestamp.{Ts, ts_key, new}
use tonbo.Scope.{FileId, included, excluded}
use tonbo.Version.{Version, query}
use tonbo.OrderedMap.{select, range_panics}
use tonbo.OrderedMap.Tree.{Tree, b_tree_map, insert_entry}
use tonbo.Stream.{desc}
use tonbo.Memtable.{get, scan, check_conflict}
use tonbo.Storage.{DbStorage, storage_get, immutable_get, immutable_scan, immutable_conflict}
use tonbo.Storage.Freeze.{fill_index, freeze, freeze_reads}
use tonbo.Storage.Layers.{IsLayered, Answers, storage_get-Answers}

abbrev Table : Type 0
Table = Tree (Ts ℕ) (Option ℕ)

abbrev Rows : Type 0
Rows = Tree (Ts ℕ) ℕ

-- the key 5 was written at 3 and removed at 7
abbrev newest : Table
newest = record { list = (new 5 7, none) ∷ []; sorted = (tt, tt) }

abbrev older : Rows
older = record { list = (new 5 3, 0) ∷ []; sorted = (tt, tt) }

abbrev small : DbStorage ℕ Table Rows (List ℕ)
small = record {
  mutable = record { data_map = newest; wal = none; counter = 0 };
  immutables = (none, record { rows = some 50 ∷ []; index = older }) ∷ [];
}

abbrev no_tables : Version ℕ
no_tables = record { ts = 0; level_slice = []; timestamp = 7; log_length = 0 }

abbrev no_files : ℕ → FileId → Ts ℕ → Result (Option (Ts ℕ × Option ℕ)) ℕ
no_files i gen key = ok none

read_before :
    storage_get b_tree_map b_tree_map no_files no_tables 5 6 small ≡ ok (some (new 5 3, some 50))
unfolding storage_get get b_tree_map select
read_before = refl

above_rest :
    (e f : Ts ℕ × Option ℕ)
    → In e ((new 5 7, none) ∷ [])
    → In f ((new 5 3, some 50) ∷ [])
    → e.0.value ≡ f.0.value
    → f.0.ts < e.0.ts
above_rest e f (here p) (here q) r = rw (p, q) (omega arith)
above_rest e f (here p) (there m) r = In-nil m
above_rest e f (there m) n r = In-nil m

small-IsLayered : IsLayered b_tree_map b_tree_map small
unfolding b_tree_map
small-IsLayered = record {
  mutable_above = above_rest;
  immutables_above = (λ e f m n r. In-nil n, tt);
}

storage_get-Answers_example :
    Answers b_tree_map b_tree_map 5 6 small
      (query no_files (new 5 6) [])
      (storage_get b_tree_map b_tree_map no_files no_tables 5 6 small)
storage_get-Answers_example =
    storage_get-Answers b_tree_map b_tree_map no_files no_tables 5 6 small small-IsLayered

-- two versions of the key 5 and one of 6, in a mutable table
abbrev filled : Table
filled = record {
  list = (new 5 7, none) ∷ (new 5 3, some 50) ∷ (new 6 4, some 60) ∷ [];
  sorted = ((refl, (refl, tt)), ((refl, tt), (tt, tt)));
}

three_entries : (0 < length filled.list) × (length filled.list ≤ 4294967296)
three_entries = (omega arith, omega arith)

freeze_reads_example :
    (immutable_get b_tree_map 5 6 (freeze filled.list) ≡ get b_tree_map 5 6 filled)
    × (range_panics {K = Ts ℕ} (included (new 5 6)) (included (new 5 0)) ≡ false)
    × (immutable_scan b_tree_map (included 5) (excluded 7) 6 (some desc) (freeze filled.list)
        ≡ some (scan b_tree_map (included 5) (excluded 7) 6 (some desc) filled))
    × (immutable_conflict b_tree_map 5 6 (freeze filled.list)
        ≡ some (check_conflict b_tree_map 5 6 filled))
unfolding b_tree_map
freeze_reads_example =
    freeze_reads b_tree_map filled 5 6 (included 5) (excluded 7) (some desc) three_entries.0
      three_entries.1

-- a scan from 7 to 5, and a check of a conflict at the last timestamp
inverted_panics :
    (immutable_scan b_tree_map (included 7) (included 5) 6 none (freeze filled.list) ≡ none)
    × (immutable_conflict b_tree_map 5 4294967295 (freeze filled.list) ≡ none)
unfolding immutable_scan immutable_conflict
inverted_panics = (refl, refl)

reads_frozen : immutable_get b_tree_map 5 6 (freeze filled.list) ≡ some (new 5 3, some 50)
unfolding get b_tree_map select freeze fill_index insert_entry
reads_frozen = refl
