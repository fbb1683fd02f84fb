-- ===== src/Compaction/Tiered.antt =====
-- src/compaction/tiered.rs: when a tier is compacted, and what that does to the version.
-- `build_tables` is that of `Compaction.Building` over the rows of the files: an argument, which is
-- told the tier and what to read. `usize` has 64 bits and wraps around, as in a release build, and
-- `max_tiers` is not 0.
pub mod Choice
pub mod Loss
pub mod Counts
pub mod Step
pub mod Update
pub mod Ends
mod Examples
use tonbo.Prelude.{
  ℕ, zero, suc, ◌+◌, ◌-◌, ◌*◌, ◌^◌, ◌%◌, Bool, true, false, ◌&&◌, not, Option, none, some, List, [],
  ◌∷◌, ◌++◌, map, leb, ltb, length, if◌then◌else◌,
}
use tonbo.Prelude.Result.{Result, ok, err, ◌>>=◌}
use tonbo.Key.{Key}
use tonbo.Scope.{Scope, FileId}
use tonbo.Version.{Version, level, tables_len, max_level, increase_ts}
use tonbo.Version.Edit.{VersionEdit, SsTableId, latest_timestamp}
use tonbo.VersionSet.{SliceOps, VersionSet, apply_edits}
use tonbo.Compaction.{CompactionError, Source, table, run, full_scope, empty_level, panicked}
use tonbo.Compaction.Leveled.{elem, gens, in_task, removals, deletions, stamped}

pub record TieredOptions : Type 0 where
  pub max_tiers : ℕ
  pub tier_base_capacity : ℕ
  pub tier_growth_factor : ℕ

pub record TieredTask : Type 0 where
  pub input : List (ℕ × List FileId)
  pub target_tier : ℕ

abbrev pub default : TieredOptions
default = record { max_tiers = 4; tier_base_capacity = 4; tier_growth_factor = 4 }

unfoldable pub tier_capacity : TieredOptions → ℕ → ℕ
tier_capacity o tier = o.tier_base_capacity * (o.tier_growth_factor ^ tier % 2 ^ 64) % 2 ^ 64

abbrev pub task_of : ℕ → List FileId → Option TieredTask
task_of tier [] = none
task_of tier (g ∷ files) = some (record { input = (tier, g ∷ files) ∷ []; target_tier = suc tier })

module _ {ℓ} {K : Type ℓ} where
  unfoldable pub is_tier_full : TieredOptions → Version K → ℕ → Bool
  is_tier_full o v tier =
      ltb tier o.max_tiers && ltb tier max_level && ltb (tier_capacity o tier) (tables_len v tier)

  -- the `for` loop, with `n` tiers left, from `tier` on
  unfoldable pub first_full : TieredOptions → Version K → ℕ → ℕ → Option ℕ
  first_full o v zero tier = none
  first_full o v (suc n) tier =
      let next = first_full o v n (suc tier) in if is_tier_full o v tier then some tier else next

  unfoldable pub should_major_compact : TieredOptions → Version K → Option ℕ
  should_major_compact o v = first_full o v (o.max_tiers - 1) 0

  unfoldable pub plan_major : Version K → ℕ → Option TieredTask
  plan_major v tier = task_of tier (gens (level v.level_slice tier))

  -- the streams: the tables of tier 0 one by one, those of another as one run
  unfoldable pub tier_sources : ℕ → List (Scope K) → Result (List (Source K)) CompactionError
  tier_sources zero scopes = ok (map (λ s. table 0 s.gen) scopes)
  tier_sources (suc i) scopes = do
    bounds ← full_scope scopes
    ok (run (suc i) 0 (length scopes - 1) bounds.0 bounds.1 ∷ [])

module _ {ℓ κ} {K : Type ℓ} {W : Type κ}
    (build_tables : ℕ
      → List (Source K)
      → W
      → Result (List (VersionEdit K) × W) CompactionError) where
  -- the edits, the files to delete, and the files that there are then
  abbrev Compacted : Type (ℓ ⊔ κ)
  Compacted = List (VersionEdit K) × List SsTableId × W

  unfoldable pub compact_scopes : ℕ → ℕ → List (Scope K) → W → Result Compacted CompactionError
  compact_scopes source_tier target_tier [] w = ok ([], [], w)
  compact_scopes source_tier target_tier (s ∷ ss) w = do
    sources ← tier_sources source_tier (s ∷ ss)
    built ← build_tables target_tier sources w
    ok (built.0 ++ removals source_tier (s ∷ ss), deletions source_tier (s ∷ ss), built.1)

  unfoldable pub tier_compaction : Version K → ℕ → ℕ → W → Result Compacted CompactionError
  tier_compaction v source_tier target_tier w =
      compact_scopes source_tier target_tier (level v.level_slice source_tier) w

  -- The loop of `execute_major`: the first tier of the task that still has one of the files.
  -- `in_task` is empty also where there are no files.
  unfoldable pub execute_inputs :
      Version K → ℕ → List (ℕ × List FileId) → W → Result Compacted CompactionError
  execute_inputs v target [] w = ok ([], [], w)
  execute_inputs v target ((tier, files) ∷ inputs) w =
      elim (in_task files (level v.level_slice tier)) [
        | [] ↦ execute_inputs v target inputs w
        | s ∷ ss ↦ tier_compaction v tier target w
      ]

-- The state is the set of versions and the files. `fresh` is `generate_file_id()`, of which the log is
-- named if it has grown to `threshold`. What is handed to the cleaner is not followed here.
module _ {ℓ κ} {K : Type ℓ} {W : Type κ} ⦃k : Key K⦄ (m : SliceOps (Scope K)) (threshold : ℕ)
    (fresh : W → FileId) where
  -- `if !version_edits.is_empty()`: the timestamp is taken, and the manifest updated. The update panics
  -- where the tables are of a tier that there is not.
  unfoldable pub update_with :
      VersionSet K
      → List (VersionEdit K)
      → List SsTableId
      → W
      → Result (VersionSet K) CompactionError
  update_with s [] deletes w = ok s
  update_with s (e ∷ es) deletes w =
      let (ts, v) = increase_ts s.current in
      elim (apply_edits m threshold (fresh w) ((e ∷ es) ++ latest_timestamp ts ∷ []) (some deletes)
        false (record s { current = v })) [ none ↦ err panicked | some r ↦ ok r.0 ]

  module _
      (build_tables : ℕ
        → List (Source K)
        → W
        → Result (List (VersionEdit K) × W) CompactionError) where
    unfoldable pub execute_major :
        VersionSet K → TieredTask → W → Result (VersionSet K × W) CompactionError
    execute_major s task w =
        execute_inputs build_tables s.current task.target_tier task.input w >>= λ r.
        update_with s r.0 r.1 r.2 >>= λ s'. ok (s', r.2)

    -- one round of the `while` loop, or that it ends
    unfoldable pub major_round :
        TieredOptions → VersionSet K → W → Option (Result (VersionSet K × W) CompactionError)
    major_round o s w = elim (should_major_compact o s.current) [
      | none ↦ none
      | some tier ↦ elim (plan_major s.current tier) [
        | none ↦ none
        | some task ↦ some (execute_major s task w)
      ]
    ]

    -- the loop, with fuel; without enough of it there is no result
    unfoldable pub major_rounds :
        TieredOptions → ℕ → VersionSet K → W → Option (Result (VersionSet K × W) CompactionError)
    major_rounds o zero s w = none
    major_rounds o (suc fuel) s w = elim (major_round o s w) [
      | none ↦ some (ok (s, w))
      | some (err x) ↦ some (err x)
      | some (ok r) ↦ major_rounds o fuel r.0 r.1
    ]
