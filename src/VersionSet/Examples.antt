-- ===== src/VersionSet/Examples.antt =====
-- Tests of `apply_edits`, and its theorems at a concrete log.
use tonbo.Prelude.{
  ℕ, ◌≡◌, refl, true, false, Option, none, some, List, [], ◌∷◌, ◌++◌, length, arith, In, All,
}
use tonbo.Key.Order.{nat_key}
use tonbo.Scope.{Scope}
use tonbo.Version.{Version, level}
use tonbo.Version.Edit.{VersionEdit, SsTableId, add, remove, new_log_length}
use tonbo.VersionSet.{
  VersionSet, without_wal, with_levels, apply_all, apply_edits, are_in_range, compact_log,
}
use tonbo.VersionSet.Merge.{merge, insert, sort, merge_scopes}
use tonbo.VersionSet.Logs.{AllUpTo, Uses, pop, list_logs, choose_log, chosen, choose_log-newer}
use mathlib.Core.List.{Perm}
use tonbo.VersionSet.Order.{AreOrdered, apply_all-AreOrdered}
use tonbo.VersionSet.Rewrite.{forget, apply_all-compact_log}
use tonbo.VersionSet.Recovery.{apply_all-keeps_added}

abbrev table : ℕ → ℕ → ℕ → Scope ℕ
table lo hi gen = record { min = lo; max = hi; gen = gen; wal_ids = some (gen ∷ []); file_size = 1 }

abbrev no_tables : Version ℕ
no_tables = record { ts = 0; level_slice = [] ∷ [] ∷ [] ∷ []; timestamp = 0; log_length = 0 }

-- the log of a flush, and of a compaction of the table of level 1 into level 2
abbrev log_before : List (VersionEdit ℕ)
log_before = add 0 (table 0 9 1) ∷ remove 0 1 ∷ []

abbrev log_after : List (VersionEdit ℕ)
log_after = add 2 (table 0 9 3) ∷ remove 1 2 ∷ new_log_length 5 ∷ []

abbrev online : VersionSet ℕ
online = record { current = no_tables; log_id = 0; log = []; deleted_wal = []; deleted_sst = [] }

-- while the program runs, the table goes: each step is a list of edits of its own
abbrev levels_of : Option (VersionSet ℕ × List ℕ × List SsTableId) → List (List (Scope ℕ))
levels_of none = []
levels_of (some r) = r.0.current.level_slice

abbrev after_edits : List (VersionEdit ℕ) → VersionSet ℕ → VersionSet ℕ
after_edits edits s = elim (apply_edits merge_scopes 100 1 edits none false s) [
  | none ↦ s
  | some r ↦ r.0
]

removed_online :
    levels_of (
      apply_edits merge_scopes 100 1
        (remove 1 2 ∷ [])
        none
        false
        (after_edits (add 1 (table 0 9 2) ∷ []) online))
    ≡ [] ∷ [] ∷ [] ∷ []
unfolding apply_edits merge_scopes merge sort insert are_in_range
removed_online = refl

-- there are three levels
panics_above : apply_edits merge_scopes 100 1 (add 3 (table 0 9 2) ∷ []) none false online ≡ none
unfolding apply_edits are_in_range
panics_above = refl

apply_all-keeps_added_example : In (without_wal (table 0 9 2)) (
    level
      (apply_all merge_scopes true
        (add 0 (table 0 9 1) ∷ remove 0 1 ∷ add 1 (table 0 9 2) ∷ log_after)
        no_tables
        []
        []).version.level_slice
      1)
apply_all-keeps_added_example =
    apply_all-keeps_added merge_scopes true log_before log_after 0 (table 0 9 2) no_tables [] []
      (omega arith)

-- a table of level 0, and two tables of level 1 in order
abbrev two_levels : Version ℕ
two_levels = record {
  ts = 4;
  level_slice = (table 0 9 6 ∷ []) ∷ (table 0 3 4 ∷ table 5 9 5 ∷ []) ∷ [] ∷ [];
  timestamp = 6;
  log_length = 3;
}

abbrev moving : List (VersionEdit ℕ)
moving = add 1 (table 4 4 7) ∷ remove 1 4 ∷ add 2 (table 2 3 9) ∷ add 2 (table 0 1 8) ∷ []

apply_all-AreOrdered_example :
    AreOrdered (apply_all merge_scopes false moving two_levels [] []).version.level_slice
apply_all-AreOrdered_example =
    apply_all-AreOrdered merge_scopes false moving two_levels [] []
      (((refl, tt), (tt, tt)), (tt, tt))

apply_all-compact_log_example :
    (apply_all merge_scopes true
      (compact_log 8 (record online { current = two_levels })).log
      (with_levels no_tables ([] ∷ [] ∷ [] ∷ []))
      []
      []).version
    ≡ record { ts = 6; level_slice = forget two_levels.level_slice; timestamp = 6; log_length = 0 }
apply_all-compact_log_example =
    apply_all-compact_log merge_scopes 8 (record online { current = two_levels }) no_tables
      (((refl, tt), (tt, tt)), (tt, tt))

-- of four logs, the newest two are removed, then the oldest one, and the second oldest is used
settles :
    (list_logs (2 ∷ 4 ∷ 1 ∷ 3 ∷ []) [] ≡ (4 ∷ 3 ∷ [], 1 ∷ 2 ∷ []))
    × (choose_log (1 ∷ 2 ∷ []) ≡ (some 2, 1 ∷ []))
unfolding choose_log chosen list_logs pop
settles = (refl, refl)

choose_log-newer_example :
    (let logs = list_logs (2 ∷ 4 ∷ 1 ∷ 3 ∷ []) [] in
      Perm (2 ∷ 4 ∷ 1 ∷ 3 ∷ []) (logs.0 ++ logs.1)
      × (length logs.1 ≡ 2)
      × All (λ x. AllUpTo x logs.1) logs.0
      × Uses logs.1 (choose_log logs.1))
choose_log-newer_example = choose_log-newer (2 ∷ 4 ∷ 1 ∷ 3 ∷ [])
