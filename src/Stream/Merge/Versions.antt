-- ===== src/Stream/Merge/Versions.antt =====
-- Which versions a merge yields: one for each key, the first visible one in the order of the heap.
use tonbo.Prelude.{
  ◌≤◌, ◌<◌, ◌≡◌, refl, sym, ap, ◌⊎◌, inl, inr, true, false, Option, none, some, List, [], ◌∷◌,
  arith, In, Sorted, Bool-cases,
}
use tonbo.Prelude.In.{here, there}
use tonbo.Prelude.Member.{In-nil, In-cons, All-In, All-of_In}
use tonbo.Key.{Key, ◌≺◌, ◌≼◌}
use tonbo.Key.Order.{≺_≼_trans, ≼_≺_trans}
use tonbo.Timestamp.{Timestamp}
use tonbo.Stream.{Entry, Order, asc, desc}
use tonbo.Stream.Merge.{CmpEntry, skips, same_key}
use tonbo.Stream.Merge.Heap.{Before}
use tonbo.Stream.Merge.Emit.{emit}

module _ {ℓ} {K : Type ℓ} ⦃k : Key K⦄ where
  -- the direction of the keys, and which of two versions of a key a merge prefers
  abbrev pub KeyLt : Option Order → K → K → Type 0
  KeyLt (some desc) a b = b ≺ a
  KeyLt (some asc) a b = a ≺ b
  KeyLt none a b = a ≺ b

  abbrev KeyLe : Option Order → K → K → Type 0
  KeyLe (some desc) a b = b ≼ a
  KeyLe (some asc) a b = a ≼ b
  KeyLe none a b = a ≼ b

  KeyLt-Le_trans :
      (order : Option Order) (a b c : K) → KeyLt order a b → KeyLe order b c → KeyLt order a c
  KeyLt-Le_trans none a b c h l = ≺_≼_trans a b c h l
  KeyLt-Le_trans (some asc) a b c h l = ≺_≼_trans a b c h l
  KeyLt-Le_trans (some desc) a b c h l = ≼_≺_trans c b a l h

abbrev pub Prefers : Option Order → Timestamp → Timestamp → Type 0
Prefers (some desc) a b = a ≤ b
Prefers (some asc) a b = b ≤ a
Prefers none a b = b ≤ a

pub Prefers-refl : (order : Option Order) (a : Timestamp) → Prefers order a a
Prefers-refl none a = omega arith
Prefers-refl (some asc) a = omega arith
Prefers-refl (some desc) a = omega arith

module _ {ℓ κ} {K : Type ℓ} {R : Type κ} ⦃k : Key K⦄ where
  Before-KeyLe :
      (order : Option Order) (a b : CmpEntry K R)
      → Before order a b
      → KeyLe order a.entry.key.value b.entry.key.value
  unfolding Before
  Before-KeyLe none a b h = ground arith
  Before-KeyLe (some asc) a b h = ground arith
  Before-KeyLe (some desc) a b h = ground (arith, k.cmp_swap a.entry.key.value b.entry.key.value)

  -- a later entry that is not of the same key has a later key
  Before-KeyLt :
      (order : Option Order) (a b : CmpEntry K R)
      → Before order a b
      → same_key (some a.entry) b.entry ≡ false
      → KeyLt order a.entry.key.value b.entry.key.value
  unfolding Before same_key
  Before-KeyLt none a b h n = ground arith
  Before-KeyLt (some asc) a b h n = ground arith
  Before-KeyLt (some desc) a b h n = ground (arith, k.cmp_swap a.entry.key.value b.entry.key.value)

  -- a later entry of the same key is not preferred
  Before-Prefers :
      (order : Option Order) (a b : CmpEntry K R)
      → Before order a b
      → same_key (some a.entry) b.entry ≡ true
      → Prefers order a.entry.key.ts b.entry.key.ts
  unfolding Before same_key
  Before-Prefers none a b h n = ground arith
  Before-Prefers (some asc) a b h n = ground arith
  Before-Prefers (some desc) a b h n = ground arith

  same_key-eq : (a b : Entry K R) → same_key (some a) b ≡ true → a.key.value ≡ b.key.value
  unfolding same_key
  same_key-eq a b h = ground (arith, k.eq_of_cmp a.key.value b.key.value)

  skips-cases :
      (ts : Timestamp) (b e : Entry K R)
      → skips ts (some b) e ≡ true
      → (ts < e.key.ts) ⊎ (same_key (some b) e ≡ true)
  unfolding skips
  skips-cases ts b e h = ground arith

  pub skips-late : (ts : Timestamp) (e : Entry K R) → skips ts none e ≡ true → ts < e.key.ts
  unfolding skips
  skips-late ts e h = ground arith

  pub not_skips-le :
      (ts : Timestamp) (buf : Option (Entry K R)) (e : Entry K R)
      → skips ts buf e ≡ false
      → e.key.ts ≤ ts
  unfolding skips
  not_skips-le ts buf e h = ground arith

  not_skips-same_key :
      (ts : Timestamp) (b e : Entry K R) → skips ts (some b) e ≡ false → same_key (some b) e ≡ false
  unfolding skips
  not_skips-same_key ts b e h = ground arith

  pub In-emit_buf :
      (ts : Timestamp) (b : Entry K R) (es : List (CmpEntry K R)) → In b (emit ts (some b) es)
  unfolding emit
  In-emit_buf ts b [] = here refl
  In-emit_buf ts b (c ∷ es) = elim (Bool-cases (skips ts (some b) c.entry)) [
    | inl s ↦ rw (s, emit) (In-emit_buf ts b es)
    | inr a ↦ rw (a, emit) (here refl)
  ]

  -- what is emitted is the buffer or was accepted
  pub In-emit :
      (ts : Timestamp) (b : Entry K R) (es : List (CmpEntry K R)) {x : Entry K R}
      → In x (emit ts (some b) es)
      → (x ≡ b) ⊎ ((c : CmpEntry K R) × In c es × (c.entry ≡ x) × (x.key.ts ≤ ts))
  unfolding emit
  In-emit ts b [] m = elim (In-cons m) [ inl e ↦ inl e | inr r ↦ In-nil r ]
  In-emit ts b (c ∷ es) {x} m = elim (Bool-cases (skips ts (some b) c.entry)) [
    | inl s ↦ elim (In-emit ts b es (rw (s, emit) at m)) [
      | inl e ↦ inl e
      | inr r ↦ inr (r.0, there r.1, r.2, r.3)
    ]
    | inr a ↦ elim (In-cons (rw (a, emit) at m)) [
      | inl e ↦ inl e
      | inr t ↦ elim (In-emit ts c.entry es t) [
        | inl e ↦ inr (c, here refl, sym e, rw e (not_skips-le ts (some b) c.entry a))
        | inr r ↦ inr (r.0, there r.1, r.2, r.3)
      ]
    ]
  ]

  -- the keys of what is emitted are in the strict order of the scan
  pub emit-strict :
      (order : Option Order) (ts : Timestamp) (b : CmpEntry K R) (es : List (CmpEntry K R))
      → Sorted (Before order) (b ∷ es)
      → Sorted
          (λ (x y : Entry K R). KeyLt order x.key.value y.key.value)
          (emit ts (some b.entry) es)
  unfolding emit
  emit-strict order ts b [] s = (tt, tt)
  emit-strict order ts b (c ∷ es) s = elim (Bool-cases (skips ts (some b.entry) c.entry)) [
    | inl skip ↦ rw (skip, emit) (emit-strict order ts b es (s.0.1, s.1.1))
    | inr a ↦
        rw (a, emit)
          (
            All-of_In _ (λ x m. elim (In-emit ts c.entry es m) [
              | inl e ↦
                  rw e (Before-KeyLt order b c s.0.0 (not_skips-same_key ts b.entry c.entry a))
              | inr r ↦ rw (← r.2) (
                  KeyLt-Le_trans order b.entry.key.value c.entry.key.value (r.0).entry.key.value
                    (Before-KeyLt order b c s.0.0 (not_skips-same_key ts b.entry c.entry a))
                    (Before-KeyLe order c r.0 (All-In _ es s.1.0 r.1)))
            ]),
            emit-strict order ts c es s.1,
          )
  ]

  -- a version that stands in for `c`: of its key, and preferred to it
  abbrev pub Represented : Option Order → CmpEntry K R → List (Entry K R) → Type (ℓ ⊔ κ)
  Represented order c out =
      (x : Entry K R) × In x out
      × (x.key.value ≡ c.entry.key.value)
      × Prefers order x.key.ts c.entry.key.ts

  -- each visible entry is represented in what is emitted
  pub emit-represents :
      (order : Option Order) (ts : Timestamp) (b : CmpEntry K R) (es : List (CmpEntry K R))
      → Sorted (Before order) (b ∷ es)
      → (c : CmpEntry K R) → In c es
      → c.entry.key.ts ≤ ts
      → Represented order c (emit ts (some b.entry) es)
  unfolding emit
  emit-represents order ts b [] s c m le = In-nil m
  emit-represents order ts b (d ∷ es) s c m le =
      elim (Bool-cases (skips ts (some b.entry) d.entry)) [
        | inl skip ↦
            rw (skip, emit)
              (elim (In-cons m) [
                | inl e ↦ elim (skips-cases ts b.entry d.entry skip) [
                  | inl late ↦ absurd (omega (arith, ap (λ (t : CmpEntry K R). t.entry.key.ts) e))
                  | inr same ↦ rw e (
                    b.entry,
                    In-emit_buf ts b.entry es,
                    same_key-eq b.entry d.entry same,
                    Before-Prefers order b d s.0.0 same,
                  )
                ]
                | inr r ↦ emit-represents order ts b es (s.0.1, s.1.1) c r le
              ])
        | inr a ↦
            rw (a, emit)
              (elim (In-cons m) [
                | inl e ↦ rw e (
                  d.entry,
                  there (In-emit_buf ts d.entry es),
                  refl,
                  Prefers-refl order d.entry.key.ts,
                )
                | inr r ↦
                    let rep = emit-represents order ts d es s.1 c r le in
                    (rep.0, there rep.1, rep.2, rep.3)
              ])
      ]
