-- ===== src/Version.antt =====
-- src/version/mod.rs: `Version`, the tables of each level, and the search for a key in them.
-- The shared counter of timestamps is a field here, so `load_ts` and `increase_ts` pass the version
-- on. Reading a table (`table_query`) is file access through Parquet: an argument of `query`.
pub mod Search
pub mod Query
pub mod Edit
mod Examples
use tonbo.Prelude.{
  ℕ, zero, suc, ◌+◌, ◌-◌, ◌/◌, ◌%◌, Bool, true, false, Option, none, some, List, [], ◌∷◌, ◌++◌,
  Ordering, lt, eq, gt, length, get_elem?, rev, if◌then◌else◌, ltb,
}
use tonbo.Prelude.Result.{Result, ok, err}
use tonbo.Key.{Key}
use tonbo.Timestamp.{Timestamp, Ts}
use tonbo.Scope.{Scope, FileId, contains}

abbrev pub max_level : ℕ
max_level = 7

-- `clean_sender` and `option` are handles of the environment.
pub record Version {ℓ} (K : Type ℓ) : Type ℓ where
  pub ts : Timestamp
  -- `[Vec<Scope>; MAX_LEVEL]`
  pub level_slice : List (List (Scope K))
  pub timestamp : ℕ
  pub log_length : ℕ

module _ {ℓ} {K : Type ℓ} where
  pub load_ts : Version K → Timestamp
  load_ts v = v.timestamp

  -- `fetch_add` wraps around, and so does the addition in a release build
  unfoldable pub increase_ts : Version K → Timestamp × Version K
  increase_ts v =
      ((v.timestamp + 1) % 4294967296, record v { timestamp = (v.timestamp + 1) % 4294967296 })

  -- `level_slice[level]`; the program has `MAX_LEVEL` levels and panics above
  abbrev pub level : List (List (Scope K)) → ℕ → List (Scope K)
  level [] i = []
  level (l ∷ ls) zero = l
  level (l ∷ ls) (suc i) = level ls i

  unfoldable pub tables_len : Version K → ℕ → ℕ
  tables_len v i = length (level v.level_slice i)

-- The index of `slice::binary_search_by`: where an equal element stands, or where one would go.
pub data Found : Type 0 where
  found insert_at : ℕ → Found

abbrev pub index_of : Found → ℕ
index_of (found i) = i
index_of (insert_at i) = i - 1

-- `base = if cmp == Greater { base } else { mid }`
abbrev pub narrow : ℕ → ℕ → Ordering → ℕ
narrow base mid gt = base
narrow base mid _ = mid

-- what the search says of the index where its loop ended
abbrev pub placed : ℕ → Ordering → Found
placed base eq = found base
placed base lt = insert_at (base + 1)
placed base gt = insert_at base

module _ {ℓ} {K : Type ℓ} ⦃k : Key K⦄ where
  -- `scope.min.cmp(key)` at an index; the search stays within the slice
  abbrev pub min_cmp : K → Option (Scope K) → Ordering
  min_cmp key none = gt
  min_cmp key (some s) = k.cmp s.min key

  abbrev pub probe : K → List (Scope K) → ℕ → Ordering
  probe key scopes i = min_cmp key (get_elem? scopes i)

  -- The loop of the standard library's search, over `base` and `size`. One round at least halves
  -- `size`, so `size` rounds are enough fuel.
  unfoldable pub search_loop : ℕ → K → List (Scope K) → ℕ → ℕ → ℕ
  search_loop zero key scopes base size = base
  search_loop (suc fuel) key scopes base size =
      let next : ℕ =
        search_loop fuel key scopes
          (narrow base (base + size / 2) (probe key scopes (base + size / 2))) (size - size / 2) in
      if ltb 1 size then next else base

  unfoldable pub binary_search : K → List (Scope K) → Found
  unfolding search_loop
  binary_search key [] = insert_at 0
  binary_search key (s ∷ scopes) =
      let base = search_loop (length (s ∷ scopes)) key (s ∷ scopes) 0 (length (s ∷ scopes)) in
      placed base (probe key (s ∷ scopes) base)

  -- `unwrap_or_else(|index| index.saturating_sub(1))`
  unfoldable pub scope_search : K → List (Scope K) → ℕ
  unfolding binary_search
  scope_search key scopes = index_of (binary_search key scopes)

module _ {ℓ κ μ} {K : Type ℓ} {E : Type κ} {X : Type μ} ⦃k : Key K⦄
    (table_query : ℕ → FileId → Ts K → Result (Option E) X) where
  -- the `for` loop over the tables of level 0, from the one that the iterator yields first
  pub query_level_0 : Ts K → List (Scope K) → Result (Option E) X
  query_level_0 key [] = ok none
  query_level_0 key (s ∷ scopes) = elim (contains s key.value) [
    | false ↦ query_level_0 key scopes
    | true ↦ elim (table_query 0 s.gen key) [
      | err x ↦ err x
      | ok (some e) ↦ ok (some e)
      | ok none ↦ query_level_0 key scopes
    ]
  ]

  -- one round of the `for` loop over the other levels; `none` is `continue`
  pub query_table : ℕ → Ts K → Option (Scope K) → Result (Option E) X
  query_table i key none = ok none
  query_table i key (some s) = if contains s key.value then table_query i s.gen key else ok none

  pub query_sorted_run : ℕ → Ts K → List (Scope K) → Result (Option E) X
  unfolding query_table scope_search
  query_sorted_run i key [] = ok none
  query_sorted_run i key (s ∷ scopes) =
      query_table i key (get_elem? (s ∷ scopes) (scope_search key.value (s ∷ scopes)))

  pub query_levels : ℕ → Ts K → List (List (Scope K)) → Result (Option E) X
  unfolding query_sorted_run
  query_levels i key [] = ok none
  query_levels i key (scopes ∷ ls) = elim (query_sorted_run i key scopes) [
    | err x ↦ err x
    | ok (some e) ↦ ok (some e)
    | ok none ↦ query_levels (suc i) key ls
  ]

  -- `Version::query`, over the tables of the levels
  pub query : Ts K → List (List (Scope K)) → Result (Option E) X
  unfolding query_level_0 query_levels
  query key [] = ok none
  query key (l0 ∷ ls) = elim (query_level_0 key (rev l0)) [
    | err x ↦ err x
    | ok (some e) ↦ ok (some e)
    | ok none ↦ query_levels 1 key ls
  ]
