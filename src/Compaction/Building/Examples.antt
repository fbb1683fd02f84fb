-- ===== src/Compaction/Building/Examples.antt =====
-- Tests of the building of tables, and its theorems at concrete rows.
use tonbo.Prelude.{
  ℕ, suc, ◌≡◌, refl, none, some, List, [], ◌∷◌, ◌++◌, map, length, arith, In, All, true, Option,
}
use tonbo.Prelude.In.{here, there}
use tonbo.Prelude.Result.{Result, ok}
use tonbo.Key.Order.{nat_key}
use tonbo.Scope.{Scope, FileId, contains}
use tonbo.Stream.{Entry}
use tonbo.Stream.Merge.{from_vec, collect}
use tonbo.Stream.Merge.Heap.{Before}
use tonbo.Version.Edit.{VersionEdit, add}
use tonbo.Version.Search.{IsDisjoint}
use tonbo.Compaction.{CompactionError}
use tonbo.Compaction.Building.{
  build_tables, build_loop, build_table, minor_compaction, batch_wals, or_no_ids, unless_empty,
  merged_rows, build_single,
}
use tonbo.Compaction.Building.Tables.{concat, IsCons, write_tables, build_tables-Divides}
use tonbo.Compaction.Building.Ranges.{scopes_of, build_tables-IsDisjoint}
use tonbo.Compaction.Building.Minor.{minor_compaction-covers}

abbrev row : ℕ → ℕ → Entry ℕ ℕ
row k ts = record { key = record { ts = ts; value = k }; value = some k }

-- the id of the next file is the state, and the size of a file is the number of its rows
abbrev write : ℕ → List (Entry ℕ ℕ) → ℕ → Result (FileId × ℕ × ℕ) CompactionError
write level rows next = ok (next, length rows, suc next)

abbrev size_of : List (Entry ℕ ℕ) → ℕ
size_of rows = length rows

abbrev rows : List (Entry ℕ ℕ)
rows = row 1 4 ∷ row 3 2 ∷ row 5 9 ∷ []

abbrev table : ℕ → ℕ → ℕ → ℕ → Scope ℕ
table lo hi gen size = record { min = lo; max = hi; gen = gen; wal_ids = none; file_size = size }

abbrev built : List (VersionEdit ℕ) × ℕ
built = (add 2 (table 1 3 7 2) ∷ add 2 (table 5 5 8 1) ∷ [], 9)

builds_two : build_tables write size_of 2 2 (map ok rows) 7 ≡ ok built
unfolding build_tables build_loop build_table
builds_two = refl

build_tables-Divides_example :
    (parts : List (List (Entry ℕ ℕ))) × (concat parts ≡ rows)
    × All IsCons parts
    × (build_tables write size_of 2 2 (map ok rows) 7 ≡ write_tables write 2 parts 7)
build_tables-Divides_example =
    build_tables-Divides write size_of 2 2 rows 7 refl (λ e es. omega arith)

build_tables-IsDisjoint_example :
    IsDisjoint (scopes_of built.0)
    × ((e : Entry ℕ ℕ)
        → In e rows
        → (s : Scope ℕ) × In s (scopes_of built.0) × (contains s e.key.value ≡ true))
build_tables-IsDisjoint_example =
    build_tables-IsDisjoint write size_of 2 2 rows 7 built refl (λ e es. omega arith)
      ((refl, (refl, tt)), ((refl, tt), (tt, tt))) builds_two

-- two tables in memory, the first of which has a log
abbrev batches : List (Option FileId × List (Entry ℕ ℕ))
batches = (some 40, row 1 4 ∷ row 3 2 ∷ []) ∷ (none, row 3 6 ∷ []) ∷ []

abbrev flushed : Option (Scope ℕ) × ℕ
flushed =
    (some (record { min = 1; max = 3; gen = 7; wal_ids = some (30 ∷ 40 ∷ []); file_size = 2 }), 8)

flushes : minor_compaction write (λ t. t) (some (30 ∷ [])) batches 7 ≡ ok flushed
unfolding minor_compaction build_single build_table merged_rows from_vec collect batch_wals
flushes = refl

minor_compaction-covers_example :
    (s : Scope ℕ) × (flushed.0 ≡ some s)
    × (s.wal_ids ≡ unless_empty (or_no_ids (some (30 ∷ [])) ++ batch_wals batches))
    × (contains s 3 ≡ true)
unfolding Before
minor_compaction-covers_example =
    minor_compaction-covers write (λ t. t) (some (30 ∷ [])) batches 7 flushed (none, row 3 6 ∷ [])
      (row 3 6) (((refl, tt), (tt, tt)), ((tt, tt), tt)) flushes (there (here refl)) (here refl)
      (omega arith)
