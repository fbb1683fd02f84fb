-- ===== src/Version/Query.antt =====
-- `query` against its specification: the tables that cover the key, one after the other.
use tonbo.Prelude.{
  ℕ, suc, ◌≡◌, refl, ap, ◌⊎◌, inl, inr, true, false, Option, none, some, List, [], ◌∷◌, ◌++◌, arith,
  All, get_elem?, rev, Bool-cases, Option-cases, if◌then◌else◌,
}
use tonbo.Prelude.Result.{Result, ok, err}
use tonbo.Key.{Key, ◌≺◌, ◌≼◌}
use tonbo.Key.Order.{≼_≺_trans}
use tonbo.Timestamp.{Ts}
use tonbo.Scope.{Scope, FileId, contains}
use tonbo.Version.{query, query_level_0, query_sorted_run, query_levels, scope_search}
use tonbo.Version.Search.{IsDisjoint, All-get_elem?, scope_search_lem}

module _ {ℓ} {K : Type ℓ} ⦃k : Key K⦄ where
  -- the tables of level `i` that cover the key
  pub covering : K → ℕ → List (Scope K) → List (ℕ × FileId)
  covering key i [] = []
  covering key i (s ∷ scopes) =
      if contains s key then (i, s.gen) ∷ covering key i scopes else covering key i scopes

  -- of all levels from `i` on
  pub covering_levels : K → ℕ → List (List (Scope K)) → List (ℕ × FileId)
  unfolding covering
  covering_levels key i [] = []
  covering_levels key i (l ∷ ls) = covering key i l ++ covering_levels key (suc i) ls

  -- level 0 from its newest table, then the other levels
  pub candidates : K → List (List (Scope K)) → List (ℕ × FileId)
  unfolding covering covering_levels
  candidates key [] = []
  candidates key (l0 ∷ ls) = covering key 0 (rev l0) ++ covering_levels key 1 ls

  covering_none :
      (key : K) (i : ℕ) (scopes : List (Scope K))
      → All (λ s. contains s key ≡ false) scopes
      → covering key i scopes ≡ []
  unfolding covering
  covering_none key i [] a = refl
  covering_none key i (s ∷ scopes) a = rw a.0 (covering_none key i scopes a.1)

  covers-parts : (s : Scope K) (key : K) → contains s key ≡ true → (s.min ≼ key) × (key ≼ s.max)
  unfolding contains
  covers-parts s key h = ground arith

  not_covers_after :
      (s : Scope K) (key : K) (max : K) → key ≼ max → max ≺ s.min → contains s key ≡ false
  unfolding contains
  not_covers_after s key max h l = ground (arith, ≼_≺_trans key max s.min, k.cmp_swap key s.min)

  none_after :
      (key : K) (max : K) (scopes : List (Scope K))
      → key ≼ max
      → All (λ (t : Scope K). max ≺ t.min) scopes
      → All (λ s. contains s key ≡ false) scopes
  none_after key max [] h a = tt
  none_after key max (s ∷ scopes) h a =
      (not_covers_after s key max h a.0, none_after key max scopes h a.1)

  -- a level of disjoint tables has one table that covers the key, or none
  pub locate :
      (key : K) (j : ℕ) (scopes : List (Scope K))
      → IsDisjoint scopes
      → ((i : ℕ) × (s : Scope K) × (get_elem? scopes i ≡ some s)
          × (contains s key ≡ true)
          × (covering key j scopes ≡ (j, s.gen) ∷ []))
        ⊎ All (λ s. contains s key ≡ false) scopes
  unfolding covering
  locate key j [] d = inr tt
  locate key j (s ∷ scopes) d = elim (Bool-cases (contains s key)) [
    | inl yes_s ↦ inl (
      0,
      s,
      refl,
      yes_s,
      rw yes_s (
          ap (λ r. (j, s.gen) ∷ r)
            (covering_none key j scopes
              (none_after key s.max scopes (covers-parts s key yes_s).1 d.1.0))),
    )
    | inr no_s ↦ elim (locate key j scopes (d.0.1, d.1.1)) [
      | inl f ↦ inl (suc f.0, f.1, f.2, f.3, rw no_s f.4)
      | inr a ↦ inr (no_s, a)
    ]
  ]

module _ {ℓ κ μ} {K : Type ℓ} {E : Type κ} {X : Type μ} ⦃k : Key K⦄
    (table_query : ℕ → FileId → Ts K → Result (Option E) X) where
  -- ask the tables one after the other, up to the first that has the key or fails
  pub first_hit : Ts K → List (ℕ × FileId) → Result (Option E) X
  first_hit key [] = ok none
  first_hit key ((i, gen) ∷ tables) = elim (table_query i gen key) [
    | err x ↦ err x
    | ok (some e) ↦ ok (some e)
    | ok none ↦ first_hit key tables
  ]

  -- go on where nothing was found
  abbrev or_else : Result (Option E) X → Result (Option E) X → Result (Option E) X
  or_else (err x) next = err x
  or_else (ok (some e)) next = ok (some e)
  or_else (ok none) next = next

  first_hit-append :
      (key : Ts K) (ts us : List (ℕ × FileId))
      → first_hit key (ts ++ us) ≡ or_else (first_hit key ts) (first_hit key us)
  unfolding first_hit
  first_hit-append key [] us = refl
  first_hit-append key ((i, gen) ∷ ts) us = ground (arith, first_hit-append key ts us)

  query_level_0_lem :
      (key : Ts K) (scopes : List (Scope K))
      → query_level_0 table_query key scopes ≡ first_hit key (covering key.value 0 scopes)
  unfolding query_level_0 first_hit covering
  query_level_0_lem key [] = refl
  query_level_0_lem key (s ∷ scopes) = ground (arith, query_level_0_lem key scopes)

  hit_eta :
      (key : Ts K) (i : ℕ) (gen : FileId) → table_query i gen key ≡ first_hit key ((i, gen) ∷ [])
  unfolding first_hit
  hit_eta key i gen = ground arith

  query_sorted_run_lem :
      (i : ℕ) (key : Ts K) (scopes : List (Scope K))
      → IsDisjoint scopes
      → query_sorted_run table_query i key scopes ≡ first_hit key (covering key.value i scopes)
  unfolding query_sorted_run
  query_sorted_run_lem i key [] d = unfold first_hit covering in refl
  query_sorted_run_lem i key (s ∷ scopes) d = elim (locate key.value i (s ∷ scopes) d) [
    | inl f ↦
        let covers = covers-parts f.1 key.value f.3 in
        let at : scope_search key.value (s ∷ scopes) ≡ f.0 =
          scope_search_lem key.value (s ∷ scopes) f.0 f.1 d f.2 covers.0 covers.1 in
        rw (at, f.2, f.4, f.3) (hit_eta key i (f.1).gen)
    | inr a ↦
        rw (covering_none key.value i (s ∷ scopes) a)
          (elim (Option-cases (get_elem? (s ∷ scopes) (scope_search key.value (s ∷ scopes)))) [
            | inl e ↦ rw e (unfold first_hit in refl)
            | inr t ↦
                rw (t.1, All-get_elem? (λ u. contains u key.value ≡ false) (s ∷ scopes) _ a t.1)
                  (unfold first_hit in refl)
          ])
  ]

  query_levels_lem :
      (i : ℕ) (key : Ts K) (ls : List (List (Scope K)))
      → All IsDisjoint ls
      → query_levels table_query i key ls ≡ first_hit key (covering_levels key.value i ls)
  unfolding query_levels covering_levels
  query_levels_lem i key [] d = unfold first_hit in refl
  query_levels_lem i key (l ∷ ls) d =
      simp (first_hit-append)
        (ground (arith, query_sorted_run_lem i key l d.0, query_levels_lem (suc i) key ls d.1))

  -- Where the tables of each level above 0 are disjoint and in order, a query asks the tables that
  -- cover the key, those of level 0 from the newest to the oldest and then level by level, and
  -- returns the first record or error: the binary search passes over no table.
  pub query_lem :
      (key : Ts K) (l0 : List (Scope K)) (ls : List (List (Scope K)))
      → All IsDisjoint ls
      → query table_query key (l0 ∷ ls) ≡ first_hit key (candidates key.value (l0 ∷ ls))
  unfolding query candidates
  query_lem key l0 ls d =
      simp (first_hit-append)
        (ground (arith, query_level_0_lem key (rev l0), query_levels_lem 1 key ls d))
