-- ===== src/OrderedMap/Lookup.antt =====
-- What an ordered map holds of a key, before and after an insertion.
use tonbo.Prelude.{
  ◌≡◌, ◌≢◌, refl, sym, ap, ◌∙◌, true, Option, none, some, List, [], ◌∷◌, arith, In, Sorted, inl,
  inr, subst,
}
use tonbo.Prelude.In.{here, there}
use tonbo.Prelude.Member.{In-nil, All-In}
use tonbo.Key.{Key, ◌≺◌, ◌≼◌}
use tonbo.Key.Order.{≼_antisym, ≼_refl, ≺_irrefl}
use tonbo.Scope.{included}
use tonbo.OrderedMap.{OrderedMap, Before, is_within, lookup}
use tonbo.OrderedMap.Ranges.{FirstIs, select-FirstIs}

module _ {ℓ} {K : Type ℓ} ⦃k : Key K⦄ where
  not_before_self : (a b : K) → a ≺ b → a ≡ b → ⊥
  not_before_self a b h p = ≺_irrefl b (subst (λ t. t ≺ b) p h)

  within_self : (key a : K) → a ≡ key → is_within (included key) (included key) a ≡ true
  within_self key a p = rw p (let r = ≼_refl key in ground arith)

  self_within : (key a : K) → is_within (included key) (included key) a ≡ true → a ≡ key
  self_within key a w =
      let lo : key ≼ a = ground arith in let hi : a ≼ key = ground arith in ≼_antisym a key hi lo

module _ {ℓ κ} {K : Type ℓ} {V : Type κ} ⦃k : Key K⦄ where
  -- the entry of a key, or that there is none
  abbrev pub IsEntry : K → List (K × V) → Option (K × V) → Type (ℓ ⊔ κ)
  IsEntry key es none = (e : K × V) → In e es → e.0 ≢ key
  IsEntry key es (some a) = In a es × (a.0 ≡ key)

  pub one_entry :
      (es : List (K × V)) (a b : K × V) → Sorted Before es → In a es → In b es → a.0 ≡ b.0 → a ≡ b
  one_entry [] a b s m n p = In-nil m
  one_entry (x ∷ es) a b s (here q) (here r) p = q ∙ sym r
  one_entry (x ∷ es) a b s (here q) (there n) p =
      elim (not_before_self x.0 b.0 (All-In (Before x) es s.0 n)
        (ap (λ (t : K × V). t.0) (sym q) ∙ p)) [ ]
  one_entry (x ∷ es) a b s (there m) (here r) p =
      elim (not_before_self x.0 a.0 (All-In (Before x) es s.0 m)
        (ap (λ (t : K × V). t.0) (sym r) ∙ sym p)) [ ]
  one_entry (x ∷ es) a b s (there m) (there n) p = one_entry es a b s.1 m n p

  -- of a map, what is said of a key says it all
  IsEntry-unique :
      (key : K) (es : List (K × V)) (a b : Option (K × V))
      → Sorted Before es
      → IsEntry key es a
      → IsEntry key es b
      → a ≡ b
  IsEntry-unique key es none none s h l = refl
  IsEntry-unique key es none (some b) s h l = elim (h b l.0 l.1) [ ]
  IsEntry-unique key es (some a) none s h l = elim (l a h.0 h.1) [ ]
  IsEntry-unique key es (some a) (some b) s h l =
      ap some (one_entry es a b s h.0 l.0 (h.1 ∙ sym l.1))

  IsEntry-of_first :
      (key : K) (es : List (K × V)) (r : Option (K × V))
      → FirstIs (included key) (included key) es r
      → IsEntry key es r
  IsEntry-of_first key es none h = λ e m p. h e m (within_self key e.0 p)
  IsEntry-of_first key es (some a) h = (h.0, self_within key a.0 h.1)

module _ {ℓ κ μ} {K : Type ℓ} {V : Type κ} {M : Type μ} ⦃k : Key K⦄ (map : OrderedMap K V M) where
  lookup-IsEntry : (key : K) (m : M) → IsEntry key (map.entries m) (lookup map key m)
  unfolding lookup
  lookup-IsEntry key m = rw (map.range-select (included key) (included key) m) (
      IsEntry-of_first key (map.entries m) _
        (select-FirstIs (included key) (included key) (map.entries m) (map.entries_sorted m)))

  pub lookup-insert :
      (key : K) (v : V) (m : M) → lookup map key (map.insert key v m) ≡ some (key, v)
  lookup-insert key v m =
      IsEntry-unique key (map.entries (map.insert key v m)) _ (some (key, v))
        (map.entries_sorted (map.insert key v m)) (lookup-IsEntry key (map.insert key v m))
        (map.insert_new key v m, refl)

  -- what is said of another key stays true
  other-IsEntry :
      (key other : K) (v : V) (m : M) (r : Option (K × V))
      → other ≢ key
      → IsEntry other (map.entries m) r
      → IsEntry other (map.entries (map.insert key v m)) r
  other-IsEntry key other v m none ne h = λ e n p. elim (map.insert_only key v m e n) [
    | inl q ↦ ne (sym p ∙ ap (λ (t : K × V). t.0) q)
    | inr l ↦ h e l.0 p
  ]
  other-IsEntry key other v m (some a) ne h =
      (map.insert_keeps key v m a h.0 (λ q. ne (sym h.1 ∙ q)), h.1)

  pub lookup-insert_other :
      (key other : K) (v : V) (m : M)
      → other ≢ key
      → lookup map other (map.insert key v m) ≡ lookup map other m
  lookup-insert_other key other v m ne =
      IsEntry-unique other (map.entries (map.insert key v m)) _ _
        (map.entries_sorted (map.insert key v m)) (lookup-IsEntry other (map.insert key v m))
        (other-IsEntry key other v m _ ne (lookup-IsEntry other m))
