-- ===== src/Compaction/Building.antt =====
-- src/compaction/mod.rs: `build_tables`, `build_table` and `minor_compaction`, which write the rows
-- of a merge to tables. Arguments are: `written_size`, what the builder of Arrow columns says of the
-- rows that it holds; `write`, which takes a new file id, writes the columns to the file of a level
-- and tells the id and the size, where `W` is the state of the file system; and `read_rows`, the
-- entries of an immutable table in order. `max_sst_file_size` is that option.
pub mod Tables
pub mod Ranges
pub mod Minor
mod Examples
use tonbo.Prelude.{
  ℕ, zero, suc, ◌+◌, Bool, true, false, Option, none, some, List, [], ◌∷◌, ◌++◌, map, leb, ltb,
  length,
}
use tonbo.Prelude.Result.{Result, ok, err, ◌>>=◌}
use tonbo.Key.{Key}
use tonbo.Timestamp.{Timestamp, max_timestamp}
use tonbo.Scope.{Scope, FileId}
use tonbo.Stream.{Entry}
use tonbo.Stream.Merge.{from_vec, collect, remaining}
use tonbo.Version.Edit.{VersionEdit, add}
use tonbo.Compaction.{CompactionError, panicked, ok_or_empty}

-- the local variables of the loop: what was pushed since the last table, and its first and last key
pub record Building {ℓ κ} (K : Type ℓ) (R : Type κ) : Type (ℓ ⊔ κ) where
  pub builder : List (Entry K R)
  pub min : Option K
  pub max : Option K

-- `if min.is_none() { min = Some(key) }`
abbrev pub or_first {ℓ} : {K : Type ℓ} → Option K → K → Option K
or_first none key = some key
or_first (some lo) key = some lo

module _ {ℓ κ} {K : Type ℓ} {R : Type κ} where
  abbrev pub nothing_built : Building K R
  nothing_built = record { builder = []; min = none; max = none }

  abbrev pub push_row : Entry K R → Building K R → Building K R
  push_row e b = record {
    builder = b.builder ++ e ∷ [];
    min = or_first b.min e.key.value;
    max = some e.key.value;
  }

module _ {ℓ κ μ} {K : Type ℓ} {R : Type κ} {W : Type μ}
    (write : ℕ → List (Entry K R) → W → Result (FileId × ℕ × W) CompactionError) where
  -- the edit that `build_table` pushes; the builder and the two keys are taken
  unfoldable pub build_table : ℕ → Building K R → W → Result (VersionEdit K × W) CompactionError
  build_table level b w = do
    file ← write level b.builder w
    lo ← ok_or_empty b.min
    hi ← ok_or_empty b.max
    ok (
      add level (record { min = lo; max = hi; gen = file.0; wal_ids = none; file_size = file.1 }),
      file.2,
    )

  module _ (written_size : List (Entry K R) → ℕ) (max_sst_file_size : ℕ) where
    -- the `while` loop over what the merge yields, and the last table
    unfoldable pub build_loop :
        ℕ
        → List (Result (Entry K R) CompactionError)
        → Building K R
        → W
        → Result (List (VersionEdit K) × W) CompactionError
    build_loop level [] b w = elim (ltb 0 (written_size b.builder)) [
      | true ↦ build_table level b w >>= λ t. ok (t.0 ∷ [], t.1)
      | false ↦ ok ([], w)
    ]
    build_loop level (err x ∷ rows) b w = err x
    build_loop level (ok e ∷ rows) b w =
        let b' = push_row e b in
        elim (leb max_sst_file_size (written_size b'.builder)) [
          | true ↦ build_table level b' w >>= λ t.
              build_loop level rows nothing_built t.1 >>= λ r. ok (t.0 ∷ r.0, r.1)
          | false ↦ build_loop level rows b' w
        ]

    unfoldable pub build_tables :
        ℕ
        → List (Result (Entry K R) CompactionError)
        → W
        → Result (List (VersionEdit K) × W) CompactionError
    build_tables level rows w = build_loop level rows nothing_built w

-- The rows that the loop reads: `MergeStream::from_vec(streams, u32::MAX.into(), None)` and its
-- polls, up to the first error.
module _ {ℓ κ} {K : Type ℓ} {R : Type κ} ⦃k : Key K⦄ where
  abbrev pub polled :
      Option (Result (List (Entry K R)) CompactionError) → Result (List (Entry K R)) CompactionError
  polled none = err panicked
  polled (some r) = r

  unfoldable pub merged_rows :
      List (List (Result (Entry K R) CompactionError)) → Result (List (Entry K R)) CompactionError
  merged_rows streams = from_vec streams max_timestamp none >>= λ s.
      polled (collect (suc (suc (remaining streams))) (record s { limit = none }))

abbrev pub or_no_ids : Option (List FileId) → List FileId
or_no_ids none = []
or_no_ids (some ids) = ids

-- `if wal_ids.is_empty() { None } else { Some(wal_ids) }`
abbrev pub unless_empty : List FileId → Option (List FileId)
unless_empty [] = none
unless_empty (i ∷ ids) = some (i ∷ ids)

-- the scope of the first edit, with the logs of the tables that were merged
abbrev pub with_wals {ℓ} : {K : Type ℓ} → List FileId → VersionEdit K → Option (Scope K)
with_wals ids (add level scope) = some (record scope { wal_ids = unless_empty ids })
with_wals ids _ = none

unfoldable pub batch_wals {ℓ} : {T : Type ℓ} → List (Option FileId × T) → List FileId
batch_wals [] = []
batch_wals ((none, t) ∷ batches) = batch_wals batches
batch_wals ((some i, t) ∷ batches) = i ∷ batch_wals batches

module _ {ℓ κ} {K : Type ℓ} {R : Type κ} where
  -- the loop that collects all rows in one table
  abbrev pub push_rows : List (Entry K R) → Building K R → Building K R
  push_rows [] b = b
  push_rows (e ∷ es) b = push_rows es (push_row e b)

  abbrev pub batch_streams {μ} :
      {T : Type μ}
      → (T → List (Entry K R))
      → List (Option FileId × T)
      → List (List (Result (Entry K R) CompactionError))
  batch_streams read_rows batches = map (λ b. map ok (read_rows b.1)) batches

module _ {ℓ κ μ} {K : Type ℓ} {R : Type κ} {W : Type μ}
    (write : ℕ → List (Entry K R) → W → Result (FileId × ℕ × W) CompactionError) where
  -- one table of all rows, or none if there is no row
  unfoldable pub build_single :
      List FileId → Building K R → W → Result (Option (Scope K) × W) CompactionError
  build_single ids b w = elim b.min [
    | none ↦ ok (none, w)
    | some lo ↦ build_table write 0 b w >>= λ t. ok (with_wals ids t.0, t.1)
  ]

  unfoldable pub minor_compaction {ν} :
      ⦃k : Key K⦄ {T : Type ν}
      → (T → List (Entry K R))
      → Option (List FileId)
      → List (Option FileId × T)
      → W
      → Result (Option (Scope K) × W) CompactionError
  minor_compaction read_rows recover_wal_ids [] w = ok (none, w)
  minor_compaction read_rows recover_wal_ids (b ∷ bs) w = do
    rows ← merged_rows (batch_streams read_rows (b ∷ bs))
    build_single (or_no_ids recover_wal_ids ++ batch_wals (b ∷ bs)) (push_rows rows nothing_built) w
