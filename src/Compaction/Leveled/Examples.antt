-- ===== src/Compaction/Leveled/Examples.antt =====
-- Tests of the leveled compactor, and its theorems at concrete levels.
use tonbo.Prelude.{ℕ, ◌≡◌, refl, none, some, List, [], ◌∷◌, arith, In}
use tonbo.Prelude.In.{here, there}
use tonbo.Prelude.Result.{ok}
use tonbo.Key.Order.{nat_key}
use tonbo.Scope.{Scope, contains}
use tonbo.Version.{Version, tables_len}
use tonbo.Compaction.Leveled.{
  default, this_level_scopes, next_level_scopes, NextScopes, should_major_compact, least, greatest,
  is_threshold_exceeded_major,
}
use tonbo.Compaction.Leveled.Threshold.{Names, should_major_compact_lem}
use tonbo.Compaction.Leveled.Select.{Picks, this_level_scopes-Picks, next_level_scopes-misses_inner}

abbrev table : ℕ → ℕ → ℕ → Scope ℕ
table lo hi gen = record { min = lo; max = hi; gen = gen; wal_ids = none; file_size = 1 }

abbrev level_0 : List (Scope ℕ)
level_0 = table 0 100 1 ∷ table 20 60 2 ∷ table 5 90 3 ∷ table 7 8 4 ∷ []

abbrev level_1 : List (Scope ℕ)
level_1 = table 10 15 5 ∷ table 30 35 6 ∷ []

abbrev two_levels : Version ℕ
two_levels = record {
  ts = 3;
  level_slice = level_0 ∷ level_1 ∷ [] ∷ [] ∷ [] ∷ [] ∷ [] ∷ [];
  timestamp = 3;
  log_length = 0;
}

names_level_0 : should_major_compact default two_levels ≡ some 0
unfolding should_major_compact is_threshold_exceeded_major tables_len
names_level_0 = refl

-- the first table alone is picked, since the second one holds neither bound
picks_one : this_level_scopes 0 100 default level_0 ≡ ok (table 0 100 1 ∷ [], 0, 0)
unfolding this_level_scopes contains
picks_one = refl

-- and no table of the next level, though both lie within its keys
abbrev next_of_one : NextScopes ℕ
next_of_one = record { scopes = []; start = 0; end = 1 }

next_misses : next_level_scopes (table 0 100 1 ∷ []) level_1 ≡ ok next_of_one
unfolding next_level_scopes contains
next_misses = refl

-- one table more is picked than `major_l_selection_table_max_num` says
picks_one_more :
    this_level_scopes 0 100
      (record default { major_l_selection_table_max_num = 1 })
      (table 0 100 1 ∷ table 50 100 2 ∷ table 60 100 3 ∷ [])
    ≡ ok (table 0 100 1 ∷ table 50 100 2 ∷ [], 0, 1)
unfolding this_level_scopes contains
picks_one_more = refl

this_level_scopes-Picks_example :
    Picks default.major_l_selection_table_max_num level_0 (this_level_scopes 0 100 default level_0)
this_level_scopes-Picks_example =
    this_level_scopes-Picks 0 100 default level_0 (omega arith) (omega arith) (omega arith)

next_level_scopes-misses_inner_example : ¬ In (table 30 35 6) next_of_one.scopes
unfolding least greatest
next_level_scopes-misses_inner_example =
    next_level_scopes-misses_inner (table 0 100 1 ∷ []) level_1 (table 30 35 6) 0 100 next_of_one
      refl refl refl refl (there (here refl)) next_misses

should_major_compact_lem_example :
    Names default two_levels 0 6 (should_major_compact default two_levels)
should_major_compact_lem_example = should_major_compact_lem default two_levels
