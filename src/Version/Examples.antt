-- ===== src/Version/Examples.antt =====
-- Tests of the query, and its theorems at concrete levels.
use tonbo.Prelude.{ℕ, ◌≡◌, refl, true, ◌↔◌, Option, none, some, List, [], ◌∷◌, ◌==◌, if◌then◌else◌}
use tonbo.Prelude.Result.{Result, ok}
use tonbo.Key.Order.{nat_key}
use tonbo.Timestamp.{Ts}
use tonbo.Scope.{Scope, FileId, contains, included, excluded, meets_range}
use tonbo.Scope.Range.{AboveBound, BelowBound, meets_range_complete, meets_range_iff}
use tonbo.Version.{query, scope_search}
use tonbo.Version.Search.{IsDisjoint}
use tonbo.Version.Query.{candidates, first_hit, query_lem}

abbrev table : ℕ → ℕ → ℕ → Scope ℕ
table lo hi gen = record { min = lo; max = hi; gen = gen; wal_ids = none; file_size = 1 }

abbrev level_1 : List (Scope ℕ)
level_1 = table 0 9 1 ∷ table 10 15 2 ∷ table 30 35 3 ∷ table 50 50 4 ∷ []

abbrev level_0 : List (Scope ℕ)
level_0 = table 3 40 5 ∷ table 20 60 6 ∷ []

abbrev at_ts : ℕ → Ts ℕ
at_ts k = record { ts = 7; value = k }

-- files 6 and 3 hold the key 33, and file 6 does not know it
abbrev files : ℕ → FileId → Ts ℕ → Result (Option ℕ) ℕ
files i gen key = if gen == 3 then ok (some 300) else ok none

level_1-IsDisjoint : IsDisjoint level_1
level_1-IsDisjoint = (
  (refl, (refl, (refl, (refl, tt)))),
  ((refl, (refl, (refl, tt))), ((refl, (refl, tt)), ((refl, tt), (tt, tt)))),
)

search_third : scope_search 33 level_1 ≡ 2
unfolding scope_search
search_third = refl

query_third : query files (at_ts 33) (level_0 ∷ level_1 ∷ []) ≡ ok (some 300)
unfolding query contains
query_third = refl

query_lem_example :
    query files (at_ts 33) (level_0 ∷ level_1 ∷ [])
    ≡ first_hit files (at_ts 33) (candidates 33 (level_0 ∷ level_1 ∷ []))
query_lem_example = query_lem files (at_ts 33) level_0 (level_1 ∷ []) (level_1-IsDisjoint, tt)

meets_range_complete_example : meets_range (table 30 35 3) (excluded 10) (included 33) ≡ true
meets_range_complete_example =
    meets_range_complete (table 30 35 3) (excluded 10) (included 33) 33 refl refl refl refl

meets_range_iff_example :
    (meets_range (table 30 35 3) (included 35) (excluded 40) ≡ true)
    ↔ (AboveBound {K = ℕ} (included 35) 35 × BelowBound {K = ℕ} (excluded 40) 30)
meets_range_iff_example = meets_range_iff (table 30 35 3) (included 35) (excluded 40) refl refl
