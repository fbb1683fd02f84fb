-- ===== src/Compaction/Tiered/Examples.antt =====
-- Tests of the tiered compactor, and its theorems at concrete tiers.
use tonbo.Prelude.{ℕ, suc, ◌≡◌, refl, ap, sym, none, some, List, [], ◌∷◌, map, In, All}
use tonbo.Prelude.In.{here}
use tonbo.Prelude.Result.{Result, ok, ok-injective}
use tonbo.Key.Order.{nat_key}
use tonbo.Scope.{Scope}
use tonbo.Version.{tables_len, increase_ts}
use tonbo.Version.Edit.{VersionEdit, SsTableId, add, remove, latest_timestamp, new_log_length}
use tonbo.VersionSet.{VersionSet, apply_edits, are_in_range}
use tonbo.VersionSet.Merge.{merge, sort, insert, merge_scopes}
use tonbo.Compaction.{CompactionError, Source, full_scope}
use tonbo.Compaction.Leveled.{in_task}
use tonbo.Compaction.Tiered.{
  TieredOptions, should_major_compact, is_tier_full, first_full, tier_capacity, tier_sources,
  compact_scopes, tier_compaction, execute_inputs, update_with, execute_major, plan_major,
  major_round, major_rounds,
}
use tonbo.Compaction.Tiered.Choice.{Chooses, should_major_compact-Chooses}
use tonbo.Compaction.Tiered.Loss.{MayRead, tier_compaction-loses}
use tonbo.Compaction.Tiered.Ends.{Ends, major_rounds-Ends}

abbrev table : ℕ → ℕ → ℕ → Scope ℕ
table lo hi gen = record { min = lo; max = hi; gen = gen; wal_ids = none; file_size = 1 }

-- one table for each compaction, whose id is the state
abbrev build : ℕ → List (Source ℕ) → ℕ → Result (List (VersionEdit ℕ) × ℕ) CompactionError
build tier sources next = ok (add tier (table 0 100 next) ∷ [], suc next)

build_adds :
    (i : ℕ) (src : List (Source ℕ)) (w : ℕ) (r : List (VersionEdit ℕ) × ℕ)
    → build i src w ≡ ok r
    → (ss : List (Scope ℕ)) × (r.0 ≡ map (add i) ss)
build_adds i src w r h =
    (table 0 100 w ∷ [], ap (λ (z : List (VersionEdit ℕ) × ℕ). z.0) (sym (ok-injective _ r h)))

abbrev options : TieredOptions
options = record { max_tiers = 3; tier_base_capacity = 1; tier_growth_factor = 1 }

abbrev tiers : List (Scope ℕ) → List (Scope ℕ) → VersionSet ℕ
tiers zeroth first = record {
  current = record {
    ts = 3;
    level_slice = zeroth ∷ first ∷ [] ∷ [];
    timestamp = 3;
    log_length = 0;
  };
  log_id = 0;
  log = [];
  deleted_wal = [];
  deleted_sst = [];
}

abbrev two_full : VersionSet ℕ
two_full = tiers (table 0 9 1 ∷ table 5 50 2 ∷ []) (table 0 100 3 ∷ [])

-- the table of the first round fills tier 1, so that there is a second one
compacted :
    (elim (major_rounds merge_scopes 100 (λ w. w) build options 3 two_full 7) [
      | some (ok r) ↦ r.0.current.level_slice
      | _ ↦ []
    ])
    ≡ [] ∷ [] ∷ (table 0 100 8 ∷ []) ∷ []
unfolding major_rounds major_round execute_major execute_inputs update_with should_major_compact
    first_full is_tier_full tier_capacity tables_len plan_major tier_compaction compact_scopes
    tier_sources full_scope in_task apply_edits are_in_range merge_scopes merge sort insert
    increase_ts
compacted = refl

should_major_compact-Chooses_example :
    Chooses options two_full.current 0 (should_major_compact options two_full.current)
should_major_compact-Chooses_example = should_major_compact-Chooses options two_full.current

major_rounds-Ends_example :
    Ends merge_scopes 100 (λ w. w) build (λ i src w r h. build_adds i src w r h) options two_full 7
major_rounds-Ends_example =
    major_rounds-Ends merge_scopes 100 (λ w. w) build (λ i src w r h. build_adds i src w r h)
      options two_full 7

abbrev one_round : VersionSet ℕ × ℕ
one_round = (
  record {
    current = record {
      ts = 4;
      level_slice = [] ∷ (table 0 100 7 ∷ table 0 100 3 ∷ []) ∷ [] ∷ [];
      timestamp = 4;
      log_length = 4;
    };
    log_id = 0;
    log =
        add 1 (table 0 100 7)
        ∷ remove 0 1
        ∷ remove 0 2
        ∷ latest_timestamp 4
        ∷ new_log_length 4
        ∷ [];
    deleted_wal = [];
    deleted_sst = record { file_id = 1; level = 0 } ∷ record { file_id = 2; level = 0 } ∷ [];
  },
  8,
)

-- tier 1 as two rounds leave it, where the table with the greater first key has the lesser last key
abbrev overlapping : VersionSet ℕ
overlapping = tiers [] (table 0 100 3 ∷ table 5 50 4 ∷ [])

abbrev second_tier : List (VersionEdit ℕ) × List SsTableId × ℕ
second_tier = (
  add 2 (table 0 100 7) ∷ remove 1 3 ∷ remove 1 4 ∷ [],
  record { file_id = 3; level = 1 } ∷ record { file_id = 4; level = 1 } ∷ [],
  8,
)

bounds_of_tier : full_scope (table 0 100 3 ∷ table 5 50 4 ∷ []) ≡ ok (0, 50)
unfolding full_scope
bounds_of_tier = refl

compacts_tier_1 : tier_compaction build overlapping.current 1 2 7 ≡ ok second_tier
unfolding tier_compaction compact_scopes tier_sources full_scope
compacts_tier_1 = refl

tier_compaction-loses_example :
    (sources : List (Source ℕ)) × (tier_sources 1 (table 0 100 3 ∷ table 5 50 4 ∷ []) ≡ ok sources)
    × All (λ src. ¬ MayRead 60 src) sources
    × In (remove 1 3) second_tier.0
tier_compaction-loses_example =
    tier_compaction-loses build overlapping.current 0 2 7 second_tier (0, 50) (table 0 100 3) 60
      bounds_of_tier (here refl) refl refl refl compacts_tier_1
