-- ===== src/Stream/Merge/Sources.antt =====
-- The invariant of the heap and the streams under it, and that a round of the loop keeps it.
use tonbo.Prelude.{
  ℕ, suc, ◌+◌, ◌<◌, ◌≡◌, ◌≢◌, refl, sym, ap, ◌⊎◌, inl, inr, Option, none, some, List, ◌∷◌, arith,
  In, length, ◌∙◌, subst,
}
use native.Mathlib.Decide.{ℕ_discrete}
use tonbo.Prelude.In.{here, there}
use tonbo.Prelude.Member.{In-nil, In-cons}
use tonbo.Prelude.Result.{Result, ok, err}
use tonbo.Key.{Key}
use tonbo.Stream.{Entry, Order}
use tonbo.Stream.Merge.{
  CmpEntry, Round, drained, panicked, failed, popped, pop_max, pull, refill, advance, remaining,
}
use tonbo.Stream.Merge.Heap.{Before, Before_trans, Pops, PopSpec, pop_max_lem}
use tonbo.Stream.Merge.Pull.{tagged, AreOk, AreSorted, Pulls, PullSpec, pull_lem}

module _ {ℓ κ μ} {K : Type ℓ} {R : Type κ} {X : Type μ} ⦃k : Key K⦄ where
  -- the entries that are still to come, with the numbers of their streams
  abbrev pub Held :
      CmpEntry K R → List (CmpEntry K R) → List (List (Result (Entry K R) X)) → Type (ℓ ⊔ κ)
  Held x heap ss = In x heap ⊎ In x (tagged 0 ss)

  -- No stream fails, each is sorted, and its entry in the heap comes before what it has left.
  pub record IsMerging (order : Option Order) (heap : List (CmpEntry K R))
      (ss : List (List (Result (Entry K R) X))) : Type (ℓ ⊔ κ) where
    pub are_ok : AreOk ss
    pub sorted : AreSorted order 0 ss
    pub in_range : (h : CmpEntry K R) → In h heap → h.offset < length ss
    pub covered :
        (x : CmpEntry K R)
        → In x (tagged 0 ss)
        → (h : CmpEntry K R) × In h heap × (h.offset ≡ x.offset) × Before order h x

  -- the rounds that are left
  abbrev pub work : List (CmpEntry K R) → List (List (Result (Entry K R) X)) → ℕ
  work heap ss = length heap + remaining ss

  -- A round takes out the first of the entries that are held.
  pub record Advances (order : Option Order) (heap : List (CmpEntry K R))
      (ss : List (List (Result (Entry K R) X))) (e : Entry K R) (heap' : List (CmpEntry K R))
      (ss' : List (List (Result (Entry K R) X))) : Type (ℓ ⊔ κ) where
    pub top : CmpEntry K R
    pub entry : top.entry ≡ e
    pub first : (x : CmpEntry K R) → Held x heap' ss' → Before order top x
    pub cover : (x : CmpEntry K R) → Held x heap ss → (x ≡ top) ⊎ Held x heap' ss'
    pub from : Held top heap ss
    pub back : (x : CmpEntry K R) → Held x heap' ss' → Held x heap ss
    pub merging : IsMerging order heap' ss'
    pub fewer : work heap ss ≡ suc (work heap' ss')

  abbrev pub AdvanceSpec :
      Option Order
      → List (CmpEntry K R)
      → List (List (Result (Entry K R) X))
      → Round K R X
      → Type (ℓ ⊔ κ)
  AdvanceSpec order heap ss drained = (x : CmpEntry K R) → Held x heap ss → ⊥
  AdvanceSpec order heap ss panicked = ⊥ × Unit {ℓ ⊔ κ}
  AdvanceSpec order heap ss (failed x ss') = ⊥ × Unit {ℓ ⊔ κ}
  AdvanceSpec order heap ss (popped e heap' ss') = Advances order heap ss e heap' ss'

  -- the stream of the entry on top is exhausted
  advance_last :
      (order : Option Order) {heap : List (CmpEntry K R)}
      {ss ss' : List (List (Result (Entry K R) X))} {top : CmpEntry K R}
      {rest : List (CmpEntry K R)}
      → IsMerging order heap ss
      → Pops order heap top rest
      → ss' ≡ ss
      → ((x : CmpEntry K R) → In x (tagged 0 ss) → x.offset ≢ top.offset)
      → Advances order heap ss top.entry rest ss'
  advance_last order {heap} {ss} {ss'} {top} {rest} inv p q other = rw q (record {
    top = top;
    entry = refl;
    first = λ x h. elim h [
      | inl l ↦ p.least x l
      | inr r ↦ Before_trans order top (kept x r).0 x (p.least _ (kept x r).1) (kept x r).3
    ];
    cover = λ x h. elim h [
      | inl l ↦ elim (p.cover x l) [ inl e ↦ inl e | inr m ↦ inr (inl m) ]
      | inr r ↦ inr (inr r)
    ];
    from = inl p.from;
    back = λ x h. elim h [ inl l ↦ inl (p.back x l) | inr r ↦ inr r ];
    merging = record {
      are_ok = inv.are_ok;
      sorted = inv.sorted;
      in_range = λ h m. inv.in_range h (p.back h m);
      covered = kept;
    };
    fewer = omega (arith, p.fewer);
  })
    where
      kept :
          (x : CmpEntry K R)
          → In x (tagged 0 ss)
          → (h : CmpEntry K R) × In h rest × (h.offset ≡ x.offset) × Before order h x
      kept x m =
          let c = inv.covered x m in
          elim (p.cover c.0 c.1) [
            | inl e ↦ absurd (other x m (sym c.2 ∙ ap (λ (t : CmpEntry K R). t.offset) e))
            | inr r ↦ (c.0, r, c.2, c.3)
          ]

  -- the next entry of its stream takes the place of the entry on top
  advance_next :
      (order : Option Order) {heap : List (CmpEntry K R)}
      {ss ss' : List (List (Result (Entry K R) X))} {top : CmpEntry K R}
      {rest : List (CmpEntry K R)} {e : Entry K R}
      → IsMerging order heap ss
      → Pops order heap top rest
      → Pulls order 0 top.offset e ss ss'
      → Advances order heap ss top.entry (record { offset = top.offset; entry = e } ∷ rest) ss'
  advance_next order {heap} {ss} {ss'} {top} {rest} {e} inv p q = record {
    top = top;
    entry = refl;
    first = λ x h. elim h [
      | inl l ↦ elim (In-cons l) [ inl eq ↦ rw eq (after next q.from) | inr r ↦ p.least x r ]
      | inr r ↦ after x (q.back x r)
    ];
    cover = λ x h. elim h [
      | inl l ↦ elim (p.cover x l) [ inl eq ↦ inl eq | inr m ↦ inr (inl (there m)) ]
      | inr r ↦ elim (q.cover x r) [ inl eq ↦ inr (inl (here eq)) | inr m ↦ inr (inr m) ]
    ];
    from = inl p.from;
    back = λ x h. elim h [
      | inl l ↦ elim (In-cons l) [ inl eq ↦ rw eq (inr q.from) | inr r ↦ inl (p.back x r) ]
      | inr r ↦ inr (q.back x r)
    ];
    merging = record {
      are_ok = q.are_ok;
      sorted = q.sorted;
      in_range = λ h m. rw q.same (elim (In-cons m) [
        | inl eq ↦ rw eq (inv.in_range top p.from)
        | inr r ↦ inv.in_range h (p.back h r)
      ]);
      covered = kept;
    };
    fewer = omega (arith, p.fewer, q.fewer);
  }
    where
      next : CmpEntry K R
      next = record { offset = top.offset; entry = e }

      after : (x : CmpEntry K R) → In x (tagged 0 ss) → Before order top x
      after x m =
          let c = inv.covered x m in
          elim (p.cover c.0 c.1) [
            | inl eq ↦ subst (λ h. Before order h x) eq c.3
            | inr r ↦ Before_trans order top c.0 x (p.least _ r) c.3
          ]

      kept :
          (x : CmpEntry K R)
          → In x (tagged 0 ss')
          → (h : CmpEntry K R) × In h (next ∷ rest) × (h.offset ≡ x.offset) × Before order h x
      kept x m =
          let c = inv.covered x (q.back x m) in
          elim (ℕ_discrete x.offset top.offset) [
            | yes same ↦ (next, here refl, sym same, q.first x m same)
            | no other ↦ elim (p.cover c.0 c.1) [
              | inl eq ↦ absurd (other (sym c.2 ∙ ap (λ (t : CmpEntry K R). t.offset) eq))
              | inr r ↦ (c.0, there r, c.2, c.3)
            ]
          ]

  advance_pulled :
      (order : Option Order) {heap : List (CmpEntry K R)} {ss : List (List (Result (Entry K R) X))}
      {top : CmpEntry K R} {rest : List (CmpEntry K R)}
      (r : Option (Option (Result (Entry K R) X) × List (List (Result (Entry K R) X))))
      → IsMerging order heap ss
      → Pops order heap top rest
      → PullSpec order 0 top.offset ss r
      → AdvanceSpec order heap ss
          (elim r [ none ↦ panicked | some (next, ss') ↦ refill top rest next ss' ])
  unfolding refill
  advance_pulled order none inv p h = absurd (omega (arith, h.1, inv.in_range _ p.from))
  advance_pulled order (some (none, ss')) inv p h = advance_last order inv p h.0 h.1
  advance_pulled order (some (some (ok e), ss')) inv p h = advance_next order inv p h.0
  advance_pulled order (some (some (err x), ss')) inv p h = absurd h.0

  -- A round on good sources neither panics nor fails; it takes out the first entry that is held.
  pub advance_lem :
      (order : Option Order) (heap : List (CmpEntry K R)) (ss : List (List (Result (Entry K R) X)))
      → IsMerging order heap ss
      → AdvanceSpec order heap ss (advance order heap ss)
  unfolding advance
  advance_lem order heap ss inv = popped_next (pop_max order heap) (pop_max_lem order heap)
    where
      popped_next :
          (r : Option (CmpEntry K R × List (CmpEntry K R)))
          → PopSpec order heap r
          → AdvanceSpec order heap ss (elim r [
            | none ↦ drained
            | some (top, rest) ↦ elim (pull top.offset ss) [
              | none ↦ panicked
              | some (next, ss') ↦ refill top rest next ss'
            ]
          ])
      popped_next none e = λ x h. elim h [
        | inl l ↦ In-nil (subst (λ t. In x t) e l)
        | inr r ↦ In-nil (subst (λ t. In (inv.covered x r).0 t) e (inv.covered x r).1)
      ]
      popped_next (some (top, rest)) p =
          advance_pulled order (pull top.offset ss) inv p
            (pull_lem order 0 top.offset top.offset ss (omega arith) inv.sorted inv.are_ok)
