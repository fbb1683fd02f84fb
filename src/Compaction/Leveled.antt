-- ===== src/Compaction/Leveled.antt =====
-- src/compaction/leveled.rs: when a level is compacted, and which tables are.
pub mod Threshold
pub mod Select
mod Examples
use tonbo.Prelude.{
  ℕ, zero, suc, ◌+◌, ◌-◌, ◌*◌, ◌^◌, ◌%◌, Bool, true, false, ◌&&◌, ◌||◌, Option, none, some, List,
  [], ◌∷◌, ◌++◌, map, leb, ltb, ◌==◌, take, drop, length, min, if◌then◌else◌,
}
use tonbo.Prelude.Result.{Result, ok, err, ◌>>=◌}
use tonbo.Key.{Key, ◌<?◌}
use tonbo.Timestamp.{Timestamp}
use tonbo.Scope.{Scope, FileId, contains}
use tonbo.Version.{Version, level, tables_len, scope_search, max_level, increase_ts}
use tonbo.Version.Edit.{VersionEdit, SsTableId, remove, latest_timestamp}
use tonbo.Compaction.{
  CompactionError, empty_level, panicked, Source, table, run, slice, ok_or_empty, full_scope,
}

pub record LeveledOptions : Type 0 where
  pub major_threshold_with_sst_size : ℕ
  pub level_sst_magnification : ℕ
  pub major_default_oldest_table_num : ℕ
  pub major_l_selection_table_max_num : ℕ

abbrev pub default : LeveledOptions
default = record {
  major_threshold_with_sst_size = 4;
  level_sst_magnification = 10;
  major_default_oldest_table_num = 3;
  major_l_selection_table_max_num = 4;
}

module _ {ℓ} {K : Type ℓ} where
  -- `usize` has 64 bits and wraps around, as in a release build
  pub is_threshold_exceeded_major : LeveledOptions → Version K → ℕ → Bool
  unfolding tables_len
  is_threshold_exceeded_major o v i =
      leb (o.major_threshold_with_sst_size * (o.level_sst_magnification ^ i % 2 ^ 64) % 2 ^ 64)
        (tables_len v i)

  -- the `for` loop of `should_major_compact`, with `n` levels left, from level `i` on
  pub first_exceeded : LeveledOptions → Version K → ℕ → ℕ → Option ℕ
  first_exceeded o v zero i = none
  first_exceeded o v (suc n) i =
      let next = first_exceeded o v n (suc i) in
      if is_threshold_exceeded_major o v i then some i else next

  pub should_major_compact : LeveledOptions → Version K → Option ℕ
  unfolding first_exceeded
  should_major_compact o v = first_exceeded o v (max_level - 1) 0

  abbrev pub gens : List (Scope K) → List FileId
  gens ss = map (λ s. s.gen) ss

  -- `LeveledTask::input`: the files of the level, and those of the next if it has any
  abbrev next_input : ℕ → List (Scope K) → List (ℕ × List FileId)
  next_input i [] = []
  next_input i (s ∷ ss) = (i, gens (s ∷ ss)) ∷ []

  abbrev input_of : ℕ → List (Scope K) → List (Scope K) → Option (List (ℕ × List FileId))
  input_of i [] next = none
  input_of i (s ∷ ss) next =
      some ((i, gens (s ∷ ss)) ∷ (if ltb (i + 1) max_level then next_input (i + 1) next else []))

  pub plan_major : Version K → ℕ → Option (List (ℕ × List FileId))
  plan_major v i = input_of i (level v.level_slice i) (level v.level_slice (i + 1))

-- the tables of the next level, and the first and the last index of the search
pub record NextScopes {ℓ} (K : Type ℓ) : Type ℓ where
  pub scopes : List (Scope K)
  pub start : ℕ
  pub end : ℕ

abbrev pub elem : FileId → List FileId → Bool
elem g [] = false
elem g (h ∷ hs) = g == h || elem g hs

abbrev pub target_of : List (ℕ × List FileId) → ℕ
target_of [] = 0
target_of ((i, files) ∷ inputs) = i

module _ {ℓ} {K : Type ℓ} where
  abbrev pub removals : ℕ → List (Scope K) → List (VersionEdit K)
  removals i ss = map (λ s. remove i s.gen) ss

  abbrev pub deletions : ℕ → List (Scope K) → List SsTableId
  deletions i ss = map (λ s. record { file_id = s.gen; level = i }) ss

  -- the tables of the level whose files are in the task
  unfoldable pub in_task : List FileId → List (Scope K) → List (Scope K)
  in_task files [] = []
  in_task files (s ∷ ss) = if elem s.gen files then s ∷ in_task files ss else in_task files ss

  -- the timestamp is taken where there is something to apply
  abbrev pub stamped :
      Version K
      → List (VersionEdit K)
      → List SsTableId
      → List (VersionEdit K) × List SsTableId × Version K
  stamped v [] deletes = ([], deletes, v)
  stamped v (e ∷ es) deletes =
      let (ts, v') = increase_ts v in ((e ∷ es) ++ latest_timestamp ts ∷ [], deletes, v')

module _ {ℓ} {K : Type ℓ} ⦃k : Key K⦄ where
  -- `iter().map(|scope| &scope.min).min()` and the like
  pub least : List K → Option K
  least [] = none
  least (x ∷ xs) = elim (least xs) [ none ↦ some x | some y ↦ some (if y <? x then y else x) ]

  pub greatest : List K → Option K
  greatest [] = none
  greatest (x ∷ xs) = elim (greatest xs) [ none ↦ some x | some y ↦ some (if x <? y then y else x) ]

  -- the first loop of `this_level_scopes`: `n` tables are picked already
  pub meeting_run : K → K → ℕ → ℕ → List (Scope K) → List (Scope K)
  meeting_run min max most n [] = []
  meeting_run min max most n (s ∷ ss) =
      if (contains s min || contains s max) && leb n most
      then s ∷ meeting_run min max most (suc n) ss
      else []

  -- its second loop
  pub oldest : ℕ → ℕ → List (Scope K) → List (Scope K)
  oldest most n [] = []
  oldest most n (s ∷ ss) = if ltb most n then [] else s ∷ oldest most (suc n) ss

  -- the indices of the first and the last table: `end_l - 1` underflows where nothing is picked
  abbrev pub with_last : List (Scope K) → ℕ → ℕ → Result (List (Scope K) × ℕ × ℕ) CompactionError
  with_last picked start zero = err panicked
  with_last picked start (suc end) = ok (picked, start, end)

  abbrev pub fall_back :
      LeveledOptions
      → List (Scope K)
      → ℕ
      → List (Scope K)
      → Result (List (Scope K) × ℕ × ℕ) CompactionError
  fall_back o scopes start [] =
      with_last
        (oldest o.major_l_selection_table_max_num 0
          (take (min o.major_default_oldest_table_num (length scopes)) scopes))
        0 (min o.major_default_oldest_table_num (length scopes))
  fall_back o scopes start (s ∷ ss) = with_last (s ∷ ss) start (start + length (s ∷ ss))

  pub this_level_scopes :
      K → K → LeveledOptions → List (Scope K) → Result (List (Scope K) × ℕ × ℕ) CompactionError
  unfolding meeting_run oldest scope_search
  this_level_scopes min max o scopes =
      let start = scope_search min scopes in
      fall_back o scopes start
        (meeting_run min max o.major_l_selection_table_max_num 0 (drop start scopes))

  -- the loop of `next_level_scopes`
  pub meeting : K → K → List (Scope K) → List (Scope K)
  meeting min max [] = []
  meeting min max (s ∷ ss) =
      if contains s min || contains s max then s ∷ meeting min max ss else meeting min max ss

  pub next_level_scopes : List (Scope K) → List (Scope K) → Result (NextScopes K) CompactionError
  unfolding least greatest scope_search slice meeting
  next_level_scopes meet_scopes_l [] = ok (record { scopes = []; start = 0; end = 0 })
  next_level_scopes meet_scopes_l (s ∷ ss) = do
    lo ← ok_or_empty (least (map (λ t. t.min) meet_scopes_l))
    hi ← ok_or_empty (greatest (map (λ t. t.max) meet_scopes_l))
    let start = scope_search lo (s ∷ ss)
    let end = scope_search hi (s ∷ ss)
    between ← slice start (min (end + 1) (length (s ∷ ss))) (s ∷ ss)
    ok (record { scopes = meeting lo hi between; start = start; end = end })

  -- `streams.push(…)` for the tables of the level: one by one in level 0, a run above
  sources_of : ℕ → List (Scope K) → ℕ → ℕ → Result (List (Source K)) CompactionError
  sources_of zero picked start end = ok (map (λ s. table 0 s.gen) picked)
  sources_of (suc i) picked start end = do
    bounds ← full_scope picked
    ok (run (suc i) start end bounds.0 bounds.1 ∷ [])

  -- nothing is read of the next level where no table of it is picked
  next_sources : ℕ → NextScopes K → List (Scope K) → Result (List (Source K)) CompactionError
  next_sources i n [] = ok []
  next_sources i n (s ∷ ss) = do
    bounds ← full_scope (s ∷ ss)
    ok (run i n.start n.end bounds.0 bounds.1 ∷ [])

  -- the edits and the files to delete, from the bounds and the level
  pub major_compaction_impl :
      (ℕ → List (Source K) → Result (List (VersionEdit K)) CompactionError)
      → LeveledOptions
      → List (List (Scope K))
      → K
      → K
      → ℕ
      → Result (List (VersionEdit K) × List SsTableId) CompactionError
  unfolding this_level_scopes next_level_scopes sources_of next_sources full_scope
  major_compaction_impl build_tables o levels min max i = do
    here ← this_level_scopes min max o (level levels i)
    next ← next_level_scopes here.0 (level levels (i + 1))
    from_here ← sources_of i here.0 here.1 here.2
    from_next ← next_sources (i + 1) next next.scopes
    added ← build_tables (i + 1) (from_here ++ from_next)
    ok (
      added ++ removals i here.0 ++ removals (i + 1) next.scopes,
      deletions i here.0 ++ deletions (i + 1) next.scopes,
    )

  -- the loop of `execute_major`: the first level of the task that still has a table is compacted
  pub execute_inputs :
      (ℕ → List (Source K) → Result (List (VersionEdit K)) CompactionError)
      → LeveledOptions
      → List (List (Scope K))
      → ℕ
      → List (ℕ × List FileId)
      → Result (List (VersionEdit K) × List SsTableId) CompactionError
  unfolding in_task least greatest major_compaction_impl
  execute_inputs build_tables o levels target [] = ok ([], [])
  execute_inputs build_tables o levels target ((i, files) ∷ inputs) =
      elim (in_task files (level levels i)) [
        | [] ↦ execute_inputs build_tables o levels target inputs
        | s ∷ ss ↦ (do
          lo ← ok_or_empty (least (map (λ t. t.min) (s ∷ ss)))
          hi ← ok_or_empty (greatest (map (λ t. t.max) (s ∷ ss)))
          major_compaction_impl build_tables o levels lo hi target)
      ]

  -- `execute_major` up to the update of the manifest: the edits and files that it hands over
  pub execute_major :
      (ℕ → List (Source K) → Result (List (VersionEdit K)) CompactionError)
      → LeveledOptions
      → Version K
      → List (ℕ × List FileId)
      → Result (List (VersionEdit K) × List SsTableId × Version K) CompactionError
  unfolding execute_inputs increase_ts
  execute_major build_tables o v input =
      execute_inputs build_tables o v.level_slice (target_of input) input >>= λ r.
      ok (stamped v r.0 r.1)
