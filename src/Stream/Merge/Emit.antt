-- ===== src/Stream/Merge/Emit.antt =====
-- The sequence in which entries leave the heap, and what the loop makes of such a sequence.
use tonbo.Prelude.{
  ℕ, zero, suc, ◌≤◌, ◌≡◌, refl, inl, inr, true, false, Option, none, some, List, [], ◌∷◌, ◌++◌,
  arith, In, Sorted, length,
}
use tonbo.Prelude.In.{here, there}
use tonbo.Prelude.Member.{In-nil, In-cons, All-of_In}
use tonbo.Prelude.Result.{Result}
use tonbo.Key.{Key}
use tonbo.Timestamp.{Timestamp}
use tonbo.Stream.{Entry, Order}
use tonbo.Stream.Merge.{CmpEntry, Round, drained, panicked, failed, popped, advance, skips}
use tonbo.Stream.Merge.Heap.{Before}
use tonbo.Stream.Merge.Sources.{Held, IsMerging, Advances, AdvanceSpec, work, advance_lem}

module _ {ℓ κ μ} {K : Type ℓ} {R : Type κ} {X : Type μ} ⦃k : Key K⦄ where
  -- rounds until the heap is empty take out these entries
  pub data Yields (order : Option Order)
      : List (CmpEntry K R)
        → List (List (Result (Entry K R) X))
        → List (CmpEntry K R)
        → Type (ℓ ⊔ κ ⊔ μ) where
    done :
        {heap : List (CmpEntry K R)} {ss : List (List (Result (Entry K R) X))}
        → advance order heap ss ≡ drained
        → Yields order heap ss []
    next :
        {heap heap' : List (CmpEntry K R)} {ss ss' : List (List (Result (Entry K R) X))}
        {top : CmpEntry K R} {es : List (CmpEntry K R)}
        → advance order heap ss ≡ popped top.entry heap' ss'
        → work heap ss ≡ suc (work heap' ss')
        → Yields order heap' ss' es
        → Yields order heap ss (top ∷ es)

  pub Yields-le_work :
      {order : Option Order} {heap : List (CmpEntry K R)} {ss : List (List (Result (Entry K R) X))}
      {es : List (CmpEntry K R)}
      → Yields order heap ss es
      → length es ≤ work heap ss
  Yields-le_work (done e) = omega arith
  Yields-le_work (next e f y) = omega (arith, Yields-le_work y, f)

  -- all that is held comes out, and nothing else, in the order of the heap
  pub record Drains (order : Option Order) (heap : List (CmpEntry K R))
      (ss : List (List (Result (Entry K R) X))) : Type (ℓ ⊔ κ ⊔ μ) where
    pub out : List (CmpEntry K R)
    pub yields : Yields order heap ss out
    pub sorted : Sorted (Before order) out
    pub cover : (x : CmpEntry K R) → Held x heap ss → In x out
    pub back : (x : CmpEntry K R) → In x out → Held x heap ss

  Drains-next :
      {order : Option Order} {heap heap' : List (CmpEntry K R)}
      {ss ss' : List (List (Result (Entry K R) X))} {e : Entry K R}
      → advance order heap ss ≡ popped e heap' ss'
      → Advances order heap ss e heap' ss'
      → Drains order heap' ss'
      → Drains order heap ss
  Drains-next {order} q a d = record {
    out = a.top ∷ d.out;
    yields = next (rw a.entry q) a.fewer d.yields;
    sorted = (All-of_In d.out (λ x m. a.first x (d.back x m)), d.sorted);
    cover = λ x h. elim (a.cover x h) [ inl p ↦ here p | inr h' ↦ there (d.cover x h') ];
    back = λ x m. elim (In-cons m) [ inl p ↦ rw p a.from | inr r ↦ a.back x (d.back x r) ];
  }

  Drains-round :
      (fuel : ℕ) (order : Option Order) (heap : List (CmpEntry K R))
      (ss : List (List (Result (Entry K R) X))) (r : Round K R X)
      → ((heap' : List (CmpEntry K R)) (ss' : List (List (Result (Entry K R) X)))
          → suc (work heap' ss') ≤ fuel
          → IsMerging order heap' ss'
          → Drains order heap' ss')
      → work heap ss ≤ fuel
      → advance order heap ss ≡ r
      → AdvanceSpec order heap ss r
      → Drains order heap ss
  Drains-round fuel order heap ss drained rec le q a = record {
    out = [];
    yields = done q;
    sorted = tt;
    cover = λ x h. absurd (a x h);
    back = λ x m. In-nil m;
  }
  Drains-round fuel order heap ss panicked rec le q a = absurd a.0
  Drains-round fuel order heap ss (failed x ss') rec le q a = absurd a.0
  Drains-round fuel order heap ss (popped e heap' ss') rec le q a =
      Drains-next q a (rec heap' ss' (omega (arith, a.fewer)) a.merging)

  Drains-within :
      (fuel : ℕ) (order : Option Order) (heap : List (CmpEntry K R))
      (ss : List (List (Result (Entry K R) X)))
      → work heap ss ≤ fuel
      → IsMerging order heap ss
      → Drains order heap ss
  Drains-within zero order heap ss le inv =
      Drains-round zero order heap ss (advance order heap ss) (λ h s l i. absurd (omega arith)) le
        refl (advance_lem order heap ss inv)
  Drains-within (suc n) order heap ss le inv =
      Drains-round (suc n) order heap ss (advance order heap ss)
        (λ h s l i. Drains-within n order h s (omega arith) i) le refl
        (advance_lem order heap ss inv)

  pub drains :
      (order : Option Order) (heap : List (CmpEntry K R)) (ss : List (List (Result (Entry K R) X)))
      → IsMerging order heap ss
      → Drains order heap ss
  drains order heap ss inv = Drains-within (work heap ss) order heap ss (omega arith) inv

module _ {ℓ κ} {K : Type ℓ} {R : Type κ} ⦃k : Key K⦄ where
  abbrev pub to_list : Option (Entry K R) → List (Entry K R)
  to_list none = []
  to_list (some b) = b ∷ []

  -- The entries that the merge yields, if these leave the heap: those of versions after `ts` and
  -- those of the key in `buf` are skipped, and an entry is yielded when the next one is accepted.
  unfoldable pub emit : Timestamp → Option (Entry K R) → List (CmpEntry K R) → List (Entry K R)
  emit ts buf [] = to_list buf
  emit ts buf (c ∷ es) = elim (skips ts buf c.entry) [
    | true ↦ emit ts buf es
    | false ↦ to_list buf ++ emit ts (some c.entry) es
  ]
