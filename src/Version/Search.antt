-- ===== src/Version/Search.antt =====
-- The binary search of a level whose tables are disjoint and in order.
use tonbo.Prelude.{
  ℕ, zero, suc, ◌+◌, ◌-◌, ◌/◌, ◌≤◌, ◌<◌, ◌≡◌, refl, inl, inr, some, List, [], ◌∷◌, Ordering, gt,
  arith, All, Sorted, length, get_elem?, ltb, subst, Option-cases, true, false, some-eq, lt→ltb,
}
use native.Mathlib.Decide.{dec_lt}
use tonbo.Key.{Key, ◌≺◌, ◌≼◌, is_le}
use tonbo.Key.Order.{≺_≼_trans, ≼_≺_trans}
use tonbo.Scope.{Scope}
use tonbo.Version.{probe, narrow, placed, index_of, search_loop, scope_search}

ltb-false : (a b : ℕ) → ¬ (a < b) → ltb a b ≡ false
ltb-false a b h = ground arith

narrow_le : (base mid : ℕ) (o : Ordering) → is_le o ≡ true → narrow base mid o ≡ mid
narrow_le base mid Ordering.lt h = refl
narrow_le base mid Ordering.eq h = refl
narrow_le base mid Ordering.gt h = cc

placed_le : (base : ℕ) (o : Ordering) → is_le o ≡ true → index_of (placed base o) ≡ base
placed_le base Ordering.lt h = omega arith
placed_le base Ordering.eq h = refl
placed_le base Ordering.gt h = cc

module _ {ℓ} {K : Type ℓ} ⦃k : Key K⦄ where
  -- each table has its keys in order, and comes before all later ones: levels 1 and up
  abbrev pub IsDisjoint : List (Scope K) → Type 0
  IsDisjoint scopes =
      All (λ (s : Scope K). s.min ≼ s.max) scopes × Sorted (λ (a b : Scope K). a.max ≺ b.min) scopes

  pub All-get_elem? :
      (P : Scope K → Type 0) (scopes : List (Scope K)) (i : ℕ) {s : Scope K}
      → All P scopes
      → get_elem? scopes i ≡ some s
      → P s
  All-get_elem? P [] i a p = cc
  All-get_elem? P (t ∷ scopes) zero {s} a p = subst P (some-eq _ _ p) a.0
  All-get_elem? P (t ∷ scopes) (suc i) a p = All-get_elem? P scopes i a.1 p

  Sorted-get_elem? :
      (scopes : List (Scope K)) (i j : ℕ) {s t : Scope K}
      → Sorted (λ (a b : Scope K). a.max ≺ b.min) scopes
      → i < j
      → get_elem? scopes i ≡ some s
      → get_elem? scopes j ≡ some t
      → s.max ≺ t.min
  Sorted-get_elem? [] i j sorted less p q = cc
  Sorted-get_elem? (u ∷ scopes) i zero sorted less p q = absurd (omega arith)
  Sorted-get_elem? (u ∷ scopes) zero (suc j) {s} {t} sorted less p q =
      subst (λ (x : Scope K). x.max ≺ t.min) (some-eq _ _ p)
        (All-get_elem? (λ x. u.max ≺ x.min) scopes j sorted.0 q)
  Sorted-get_elem? (u ∷ scopes) (suc i) (suc j) sorted less p q =
      Sorted-get_elem? scopes i j sorted.1 (omega arith) p q

  get_elem?_le :
      (scopes : List (Scope K)) (i j : ℕ) {s : Scope K}
      → j ≤ i
      → get_elem? scopes i ≡ some s
      → (t : Scope K) × (get_elem? scopes j ≡ some t)
  get_elem?_le [] i j le p = cc
  get_elem?_le (u ∷ scopes) i zero le p = (u, refl)
  get_elem?_le (u ∷ scopes) zero (suc j) le p = absurd (omega arith)
  get_elem?_le (u ∷ scopes) (suc i) (suc j) le p = get_elem?_le scopes i j (omega arith) p

  length_of_get_elem? :
      (scopes : List (Scope K)) (i : ℕ) {s : Scope K}
      → get_elem? scopes i ≡ some s
      → i < length scopes
  length_of_get_elem? [] i p = cc
  length_of_get_elem? (u ∷ scopes) zero p = omega arith
  length_of_get_elem? (u ∷ scopes) (suc i) p = omega (arith, length_of_get_elem? scopes i p)

  module _ (key : K) (scopes : List (Scope K)) (i : ℕ) (s : Scope K) (disjoint : IsDisjoint scopes)
      (at : get_elem? scopes i ≡ some s) (low : s.min ≼ key) (high : key ≼ s.max) where
    probe_after : (m : ℕ) → i < m → probe key scopes m ≡ gt
    probe_after m less = elim (Option-cases (get_elem? scopes m)) [
      | inl e ↦ rw e
      | inr t ↦ rw t.1 (
          ground (
            arith,
            ≼_≺_trans key s.max (t.0).min high (Sorted-get_elem? scopes i m disjoint.1 less at t.1),
            k.cmp_swap key (t.0).min,
          ))
    ]

    probe_before : (m : ℕ) → m < i → probe key scopes m ≡ Ordering.lt
    probe_before m less =
        let t = get_elem?_le scopes i m (omega arith) at in
        rw t.1 (
          ≼_≺_trans (t.0).min (t.0).max key
            (All-get_elem? (λ x. x.min ≼ x.max) scopes m disjoint.0 t.1)
            (≺_≼_trans (t.0).max s.min key (Sorted-get_elem? scopes m i disjoint.1 less t.1 at)
              low))

    probe_self : is_le (probe key scopes i) ≡ true
    probe_self = rw at low

    probe_le : (m : ℕ) → m ≤ i → is_le (probe key scopes m) ≡ true
    probe_le m le = elim (dec_lt m i) [
      | yes less ↦ rw (probe_before m less)
      | no ge ↦ let e : m ≡ i = omega arith in rw e probe_self
    ]

    -- the loop narrows down on the table
    search_loop_lem :
        (fuel base size : ℕ)
        → base ≤ i
        → i < base + size
        → size ≤ fuel
        → search_loop fuel key scopes base size ≡ i
    unfolding search_loop
    search_loop_lem zero base size le less enough = absurd (omega arith)
    search_loop_lem (suc fuel) base size le less enough = elim (dec_lt 1 size) [
      | no small ↦ rw (ltb-false 1 size small) (omega arith)
      | yes big ↦ rw (lt→ltb 1 size big) (elim (dec_lt i (base + size / 2)) [
        | yes left ↦
            rw (probe_after (base + size / 2) left)
              (search_loop_lem fuel base (size - size / 2) le (omega arith) (omega arith))
        | no right ↦
            rw (narrow_le base (base + size / 2) _ (probe_le (base + size / 2) (omega arith))) (
              search_loop_lem fuel (base + size / 2) (size - size / 2) (omega arith) (omega arith)
                (omega arith))
      ])
    ]

  -- In a level of disjoint tables in order, the search for a key that a table covers finds the
  -- index of that table.
  pub scope_search_lem :
      (key : K) (scopes : List (Scope K)) (i : ℕ) (s : Scope K)
      → IsDisjoint scopes
      → get_elem? scopes i ≡ some s
      → s.min ≼ key
      → key ≼ s.max
      → scope_search key scopes ≡ i
  unfolding scope_search
  scope_search_lem key [] i s disjoint at low high = cc
  scope_search_lem key (u ∷ us) i s disjoint at low high =
      let base : search_loop (length (u ∷ us)) key (u ∷ us) 0 (length (u ∷ us)) ≡ i =
        search_loop_lem key (u ∷ us) i s disjoint at low high (length (u ∷ us)) 0 (length (u ∷ us))
          (omega arith) (omega (arith, length_of_get_elem? (u ∷ us) i at)) (omega arith) in
      rw base (placed_le i _ (probe_self key (u ∷ us) i s disjoint at low high))
