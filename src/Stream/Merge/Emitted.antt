-- ===== src/Stream/Merge/Emitted.antt =====
-- What `emit` makes of a sequence of entries in the order of the heap.
use tonbo.Prelude.{
  ◌≤◌, ◌≡◌, refl, sym, ap, ◌∙◌, inl, inr, Option, none, some, List, [], ◌∷◌, arith, In, Sorted,
  Bool-cases, subst,
}
use tonbo.Prelude.In.{here, there}
use tonbo.Prelude.Member.{In-nil, In-cons, All-In}
use tonbo.Key.{Key, ◌≺◌}
use tonbo.Key.Order.{≺_irrefl}
use tonbo.Timestamp.{Timestamp}
use tonbo.Stream.{Entry, Order, desc}
use tonbo.Stream.Merge.{CmpEntry, skips}
use tonbo.Stream.Merge.Heap.{Before}
use tonbo.Stream.Merge.Emit.{emit}
use tonbo.Stream.Merge.Versions.{
  KeyLt, Prefers-refl, Represented, In-emit, In-emit_buf, not_skips-le, skips-late, emit-strict,
  emit-represents,
}

module _ {ℓ κ} {K : Type ℓ} {R : Type κ} ⦃k : Key K⦄ where
  -- the same of a sequence of heap entries
  pub record IsEmitted (order : Option Order) (ts : Timestamp) (es : List (CmpEntry K R))
      (out : List (Entry K R)) : Type (ℓ ⊔ κ) where
    pub strict : Sorted (λ (x y : Entry K R). KeyLt order x.key.value y.key.value) out
    pub sound :
        (e : Entry K R) → In e out → (c : CmpEntry K R) × In c es × (c.entry ≡ e) × (e.key.ts ≤ ts)
    pub complete : (c : CmpEntry K R) → In c es → c.entry.key.ts ≤ ts → Represented order c out

  pub emit-IsEmitted :
      (order : Option Order) (ts : Timestamp) (es : List (CmpEntry K R))
      → Sorted (Before order) es
      → IsEmitted order ts es (emit ts none es)
  unfolding emit
  emit-IsEmitted order ts [] s = record {
    strict = tt;
    sound = λ e m. In-nil m;
    complete = λ c m. In-nil m;
  }
  emit-IsEmitted order ts (c ∷ es) s = elim (Bool-cases (skips ts none c.entry)) [
    | inl skip ↦
        let r = emit-IsEmitted order ts es s.1 in
        rw (skip, emit)
          (record {
            strict = r.strict;
            sound = λ e m. let q = r.sound e m in (q.0, there q.1, q.2, q.3);
            complete = λ d m le. elim (In-cons m) [
              | inl p ↦ absurd (
                  omega (
                    arith,
                    skips-late ts c.entry skip,
                    ap (λ (t : CmpEntry K R). t.entry.key.ts) p,
                  ))
              | inr t ↦ r.complete d t le
            ];
          })
    | inr a ↦
        rw (a, emit)
          (record {
            strict = emit-strict order ts c es s;
            sound = λ e m. elim (In-emit ts c.entry es m) [
              | inl p ↦ (c, here refl, sym p, rw p (not_skips-le ts none c.entry a))
              | inr q ↦ (q.0, there q.1, q.2, q.3)
            ];
            complete = λ d m le. elim (In-cons m) [
              | inl p ↦
                  rw p (c.entry, In-emit_buf ts c.entry es, refl, Prefers-refl order c.entry.key.ts)
              | inr t ↦ emit-represents order ts c es s d t le
            ];
          })
  ]

  -- two entries of a list in strict order have different keys
  pub strict_unique :
      (out : List (Entry K R)) (x y : Entry K R)
      → Sorted (λ (a b : Entry K R). KeyLt (some desc) a.key.value b.key.value) out
      → In x out
      → In y out
      → x.key.value ≡ y.key.value
      → x ≡ y
  strict_unique [] x y s m n e = In-nil m
  strict_unique (z ∷ out) x y s m n e = elim (In-cons m) [
    | inl p ↦ elim (In-cons n) [
      | inl q ↦ p ∙ sym q
      | inr t ↦ absurd (
          apart x y e
            (subst (λ v. KeyLt (some desc) v.key.value y.key.value) (sym p) (All-In _ out s.0 t)))
    ]
    | inr t ↦ elim (In-cons n) [
      | inl q ↦ absurd (
          apart y x (sym e)
            (subst (λ v. KeyLt (some desc) v.key.value x.key.value) (sym q) (All-In _ out s.0 t)))
      | inr u ↦ strict_unique out x y s.1 t u e
    ]
  ]
    where
      apart : (a b : Entry K R) → a.key.value ≡ b.key.value → b.key.value ≺ a.key.value → ⊥
      apart a b e h = ≺_irrefl b.key.value (subst (λ v. b.key.value ≺ v) e h)
