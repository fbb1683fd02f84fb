-- ===== src/Memtable/Writes.antt =====
-- What reads find after a number of writes of one timestamp.
use tonbo.Prelude.{
  ℕ, ◌≤◌, ◌<◌, ◌≡◌, ◌≢◌, refl, sym, ap, ◌∙◌, Option, none, some, List, [], ◌∷◌, arith, In, inl, inr,
  ◌⊎◌, Sorted, subst,
}
use tonbo.Prelude.In.{here, there}
use tonbo.Prelude.Member.{In-nil, All-In}
use tonbo.Key.{Key, ◌≺◌}
use tonbo.Key.Order.{≺_irrefl}
use tonbo.Timestamp.{Timestamp, Ts, ts_key, new, Ts-eq}
use tonbo.OrderedMap.{OrderedMap, Before}
use tonbo.OrderedMap.Lookup.{one_entry}
use tonbo.Memtable.{get}
use tonbo.Memtable.Lookup.{IsNewest, get-IsNewest}

not_after : (a b : ℕ) → a < b → b ≤ a → ⊥
not_after a b h l = omega arith

same_bounds : (a b : ℕ) → a ≤ b → b ≤ a → a ≡ b
same_bounds a b h l = omega arith

not_equal : (a b c : ℕ) → a ≤ b → b < c → a ≡ c → ⊥
not_equal a b c h l p = omega arith

module _ {ℓ κ} {K : Type ℓ} {V : Type κ} ⦃k : Key K⦄ where
  later_differs : (x f : K × V) → x.0 ≺ f.0 → x.0 ≡ f.0 → ⊥
  later_differs x f h p = ≺_irrefl f.0 (subst (λ t. t ≺ f.0) p h)

module _ {ℓ κ μ} {K : Type ℓ} {V : Type κ} {M : Type μ} ⦃k : Key K⦄
    (map : OrderedMap (Ts K) V M) where
  -- the writes, one after the other
  abbrev pub insert_all : Timestamp → List (K × V) → M → M
  insert_all ts [] m = m
  insert_all ts (e ∷ es) m = insert_all ts es (map.insert (new e.0 ts) e.1 m)

  insert_all-keeps :
      (ts : Timestamp) (es : List (K × V)) (m : M) (d : Ts K × V)
      → In d (map.entries m)
      → ((e : K × V) → In e es → d.0 ≢ new e.0 ts)
      → In d (map.entries (insert_all ts es m))
  insert_all-keeps ts [] m d h ne = h
  insert_all-keeps ts (e ∷ es) m d h ne =
      insert_all-keeps ts es (map.insert (new e.0 ts) e.1 m) d
        (map.insert_keeps (new e.0 ts) e.1 m d h (ne e (here refl))) (λ f n. ne f (there n))

  insert_all-new :
      (ts : Timestamp) (es : List (K × V)) (m : M) (e : K × V)
      → Sorted Before es
      → In e es
      → In (new e.0 ts, e.1) (map.entries (insert_all ts es m))
  insert_all-new ts [] m e s h = In-nil h
  insert_all-new ts (x ∷ es) m e s (there h) = insert_all-new ts es _ e s.1 h
  insert_all-new ts (x ∷ es) m e s (here p) = rw p (
      insert_all-keeps ts es _ (new x.0 ts, x.1) (map.insert_new (new x.0 ts) x.1 m)
        (λ f n q. later_differs x f (All-In (Before x) es s.0 n) (ap (λ (t : Ts K). t.value) q)))

  insert_all-only :
      (ts : Timestamp) (es : List (K × V)) (m : M) (d : Ts K × V)
      → In d (map.entries (insert_all ts es m))
      → (d.0.ts ≡ ts) ⊎ In d (map.entries m)
  insert_all-only ts [] m d h = inr h
  insert_all-only ts (e ∷ es) m d h = elim (insert_all-only ts es _ d h) [
    | inl p ↦ inl p
    | inr n ↦ elim (map.insert_only (new e.0 ts) e.1 m d n) [
      | inl q ↦ inl (ap (λ (t : Ts K × V). t.0.ts) q)
      | inr l ↦ inr l.0
    ]
  ]

  -- of one map, the newest version is one entry
  newest_unique :
      (key : K) (ts : Timestamp) (m : M) (a b : Option (Ts K × V))
      → IsNewest key ts (map.entries m) a
      → IsNewest key ts (map.entries m) b
      → a ≡ b
  newest_unique key ts m none none h l = refl
  newest_unique key ts m none (some b) h l = elim (not_after ts b.0.ts (h b l.0 l.1) l.2) [ ]
  newest_unique key ts m (some a) none h l = elim (not_after ts a.0.ts (l a h.0 h.1) h.2) [ ]
  newest_unique key ts m (some a) (some b) h l = ap some (
      one_entry (map.entries m) a b (map.entries_sorted m) h.0 l.0 (
        Ts-eq a.0 b.0 (h.1 ∙ sym l.1)
          (same_bounds a.0.ts b.0.ts (l.3 a h.0 h.1 h.2) (h.3 b l.0 l.1 l.2))))

  -- A write is what is read with its timestamp.
  pub get-insert_all :
      (ts : Timestamp) (es : List (K × V)) (m : M) (e : K × V)
      → Sorted Before es
      → In e es
      → get map e.0 ts (insert_all ts es m) ≡ some (new e.0 ts, e.1)
  get-insert_all ts es m e s h =
      newest_unique e.0 ts (insert_all ts es m) _ (some (new e.0 ts, e.1))
        (get-IsNewest map e.0 ts (insert_all ts es m))
        (insert_all-new ts es m e s h, refl, omega arith, λ d n p l. l)

  older-IsNewest :
      (key : K) (ts snapshot : Timestamp) (es : List (K × V)) (m : M) (r : Option (Ts K × V))
      → snapshot < ts
      → IsNewest key snapshot (map.entries m) r
      → IsNewest key snapshot (map.entries (insert_all ts es m)) r
  older-IsNewest key ts snapshot es m none lt h =
      λ d n p. elim (insert_all-only ts es m d n) [ inl q ↦ rw q lt | inr o ↦ h d o p ]
  older-IsNewest key ts snapshot es m (some a) lt h = (
    insert_all-keeps ts es m a h.0
        (λ e n q. (let c = ap (λ (t : Ts K). t.ts) q in let b = h.2 in not_equal _ _ _ b lt c)),
    h.1,
    h.2,
    λ d n p l. elim (insert_all-only ts es m d n) [
      | inl q ↦ elim (not_equal _ _ _ l lt q) [ ]
      | inr o ↦ h.3 d o p l
    ],
  )

  -- What is read with an earlier timestamp stays as it was.
  pub get-insert_all_before :
      (key : K) (ts snapshot : Timestamp) (es : List (K × V)) (m : M)
      → snapshot < ts
      → get map key snapshot (insert_all ts es m) ≡ get map key snapshot m
  get-insert_all_before key ts snapshot es m lt =
      newest_unique key snapshot (insert_all ts es m) _ _
        (get-IsNewest map key snapshot (insert_all ts es m))
        (older-IsNewest key ts snapshot es m _ lt (get-IsNewest map key snapshot m))
