-- ===== src/Stream/Merge/Load.antt =====
-- `from_vec` on streams that do not fail: the invariant holds from the start, and what a reader
-- collects from the new stream is `emit` of all entries in the order of the heap.
use tonbo.Prelude.{
  ℕ, zero, suc, ◌+◌, ◌≤◌, ◌<◌, ◌≡◌, refl, sym, ap, ◌∙◌, ◌⊎◌, inl, inr, Option, none, some, List, [],
  ◌∷◌, ◌++◌, arith, In, Sorted, length, subst,
}
use tonbo.Prelude.In.{here, there}
use tonbo.Prelude.Member.{In-nil, In-cons, In-append, In-append_left, In-append_right, All-In}
use tonbo.Prelude.Result.{Result, ok, err}
use tonbo.Key.{Key}
use tonbo.Timestamp.{Timestamp}
use tonbo.Stream.{Entry, Order}
use tonbo.Stream.Merge.{CmpEntry, MergeStream, Poll, load, from_vec, poll_next, collect, remaining}
use tonbo.Stream.Merge.Heap.{Before}
use tonbo.Stream.Merge.Pull.{tag, tagged, AreOk, AreSorted, tag-offset}
use tonbo.Stream.Merge.Sources.{IsMerging, work}
use tonbo.Stream.Merge.Emit.{Yields-le_work, drains, emit, to_list}
use tonbo.Stream.Merge.Collect.{
  PollEnds, PollAccepts, poll_next_lem, collect_lem, collect_ended, limited,
}

limited_nil {ℓ} : {A : Type ℓ} (l : Option ℕ) → limited {A = A} l [] ≡ []
limited_nil none = refl
limited_nil (some zero) = refl
limited_nil (some (suc n)) = refl

module _ {ℓ κ μ} {K : Type ℓ} {R : Type κ} {X : Type μ} ⦃k : Key K⦄ where
  -- the heap and the rest of the streams that are numbered from `i` on
  pub record Loads (order : Option Order) (i : ℕ) (ss : List (List (Result (Entry K R) X)))
      (ss' : List (List (Result (Entry K R) X))) (heap : List (CmpEntry K R)) : Type (ℓ ⊔ κ) where
    pub are_ok : AreOk ss'
    pub sorted : AreSorted order i ss'
    pub above : (h : CmpEntry K R) → In h heap → i ≤ h.offset
    pub below : (h : CmpEntry K R) → In h heap → h.offset < i + length ss'
    pub covered :
        (x : CmpEntry K R)
        → In x (tagged i ss')
        → (h : CmpEntry K R) × In h heap × (h.offset ≡ x.offset) × Before order h x
    pub cover : (x : CmpEntry K R) → In x (tagged i ss) → In x heap ⊎ In x (tagged i ss')
    pub back : (x : CmpEntry K R) → In x heap ⊎ In x (tagged i ss') → In x (tagged i ss)
    pub size : work heap ss' ≡ remaining ss

  Loads-empty :
      (order : Option Order) (i : ℕ) {ss ss' : List (List (Result (Entry K R) X))}
      {heap : List (CmpEntry K R)}
      → Loads order (suc i) ss ss' heap
      → Loads order i ([] ∷ ss) ([] ∷ ss') heap
  unfolding remaining
  Loads-empty order i l = record {
    are_ok = (tt, l.are_ok);
    sorted = (tt, l.sorted);
    above = λ h m. omega (arith, l.above h m);
    below = λ h m. omega (arith, l.below h m);
    covered = l.covered;
    cover = l.cover;
    back = l.back;
    size = omega (arith, l.size);
  }

  Loads-entry :
      (order : Option Order) (i : ℕ) {ss ss' : List (List (Result (Entry K R) X))}
      {heap : List (CmpEntry K R)} (e : Entry K R) (s : List (Result (Entry K R) X))
      → AreSorted order i ((ok e ∷ s) ∷ ss)
      → AreOk ((ok e ∷ s) ∷ ss)
      → Loads order (suc i) ss ss' heap
      → Loads order i ((ok e ∷ s) ∷ ss) (s ∷ ss') (record { offset = i; entry = e } ∷ heap)
  unfolding remaining
  Loads-entry order i {ss} {ss'} e s sorted are_ok l = record {
    are_ok = (are_ok.0.1, l.are_ok);
    sorted = (sorted.0.1, l.sorted);
    above = λ h m. elim (In-cons m) [
      | inl q ↦ omega (arith, ap (λ (t : CmpEntry K R). t.offset) q)
      | inr r ↦ omega (arith, l.above h r)
    ];
    below = λ h m. elim (In-cons m) [
      | inl q ↦ omega (arith, ap (λ (t : CmpEntry K R). t.offset) q)
      | inr r ↦ omega (arith, l.below h r)
    ];
    covered = λ x m. elim (In-append (tag i s) _ m) [
      | inl t ↦ (
        record { offset = i; entry = e },
        here refl,
        sym (tag-offset i s t),
        All-In _ (tag i s) sorted.0.0 t,
      )
      | inr r ↦ let c = l.covered x r in (c.0, there c.1, c.2, c.3)
    ];
    cover = λ x m. elim (In-cons m) [
      | inl q ↦ inl (here q)
      | inr t ↦ elim (In-append (tag i s) _ t) [
        | inl a ↦ inr (In-append_left (tag i s) _ a)
        | inr b ↦ elim (l.cover x b) [
          | inl c ↦ inl (there c)
          | inr d ↦ inr (In-append_right (tag i s) _ d)
        ]
      ]
    ];
    back = λ x h. elim h [
      | inl m ↦ elim (In-cons m) [
        | inl q ↦ here q
        | inr r ↦ there (In-append_right (tag i s) _ (l.back x (inl r)))
      ]
      | inr m ↦ elim (In-append (tag i s) _ m) [
        | inl t ↦ there (In-append_left (tag i s) _ t)
        | inr r ↦ there (In-append_right (tag i s) _ (l.back x (inr r)))
      ]
    ];
    size = omega (arith, l.size);
  }

  pub load_lem :
      (order : Option Order) (i : ℕ) (ss : List (List (Result (Entry K R) X)))
      → AreSorted order i ss
      → AreOk ss
      → (ss' : List (List (Result (Entry K R) X))) × (heap : List (CmpEntry K R)) × (load i ss
          ≡ ok (ss', heap))
        × Loads order i ss ss' heap
  unfolding load remaining
  load_lem order i [] sorted are_ok = (
    [],
    [],
    refl,
    record {
      are_ok = tt;
      sorted = tt;
      above = λ h m. In-nil m;
      below = λ h m. In-nil m;
      covered = λ x m. In-nil m;
      cover = λ x m. inl m;
      back = λ x h. elim h [ inl m ↦ m | inr m ↦ m ];
      size = refl;
    },
  )
  load_lem order i ([] ∷ ss) sorted are_ok =
      let r = load_lem order (suc i) ss sorted.1 are_ok.1 in
      ([] ∷ r.0, r.1, rw r.2, Loads-empty order i r.3)
  load_lem order i ((err x ∷ s) ∷ ss) sorted are_ok = absurd are_ok.0.0
  load_lem order i ((ok e ∷ s) ∷ ss) sorted are_ok =
      let r = load_lem order (suc i) ss sorted.1 are_ok.1 in
      (
        s ∷ r.0,
        record { offset = i; entry = e } ∷ r.1,
        rw r.2,
        Loads-entry order i e s sorted are_ok r.3,
      )

  Loads-IsMerging :
      {order : Option Order} {ss ss' : List (List (Result (Entry K R) X))}
      {heap : List (CmpEntry K R)}
      → Loads order 0 ss ss' heap
      → IsMerging order heap ss'
  Loads-IsMerging l = record {
    are_ok = l.are_ok;
    sorted = l.sorted;
    in_range = λ h m. omega (arith, l.below h m);
    covered = l.covered;
  }

  -- All entries of the streams, in the order in which they leave the heap.
  pub record IsDrain (order : Option Order) (ss : List (List (Result (Entry K R) X)))
      (out : List (CmpEntry K R)) : Type (ℓ ⊔ κ) where
    pub sorted : Sorted (Before order) out
    pub cover : (x : CmpEntry K R) → In x (tagged 0 ss) → In x out
    pub back : (x : CmpEntry K R) → In x out → In x (tagged 0 ss)
    pub size : length out ≤ remaining ss

  -- What is read from the stream that the priming poll of `from_vec` leaves.
  primed :
      (s : MergeStream K R X) (es : List (CmpEntry K R)) (l : Option ℕ) (n : ℕ)
      → s.buf ≡ none
      → suc (suc (length es)) ≤ n
      → PollEnds s es (poll_next s) ⊎ PollAccepts s es (poll_next s)
      → collect n (record (poll_next s).1 { limit = l }) ≡ some (ok (limited l (emit s.ts none es)))
  primed s es l zero q le (inl e) = absurd (omega arith)
  primed s es l (suc n) q le (inl e) =
      subst
        (λ (r : Poll (Entry K R) X × MergeStream K R X).
          collect (suc n) (record (r.1) { limit = l }) ≡ some (ok (limited l (emit s.ts none es))))
        (sym e.returns)
        (collect_ended n _ e.yields refl
          ∙ ap (λ xs. some (ok xs))
              (sym (
                ap (limited l) (subst (λ o. emit s.ts o es ≡ to_list o) q e.emits)
                ∙ limited_nil l)))
  primed s es l n q le (inr a) =
      subst
        (λ (r : Poll (Entry K R) X × MergeStream K R X).
          collect n (record (r.1) { limit = l }) ≡ some (ok (limited l (emit s.ts none es))))
        (sym a.returns)
        (collect_lem n _ a.accepted a.rest refl (omega (arith, a.fewer)) a.yields
          ∙ ap (λ xs. some (ok (limited l xs)))
              (sym (
                subst (λ o. emit s.ts o es ≡ to_list o ++ emit s.ts (some a.accepted) a.rest) q
                  a.emits)))

  -- With a limit or without, and any fuel above the number of entries.
  pub from_vec_lem :
      (ss : List (List (Result (Entry K R) X))) (ts : Timestamp) (order : Option Order)
      → AreSorted order 0 ss
      → AreOk ss
      → (s : MergeStream K R X) × (out : List (CmpEntry K R)) × (from_vec ss ts order ≡ ok s)
        × IsDrain order ss out
        × ((l : Option ℕ) (n : ℕ)
            → suc (suc (length out)) ≤ n
            → collect n (record s { limit = l }) ≡ some (ok (limited l (emit ts none out))))
  unfolding from_vec
  from_vec_lem ss ts order sorted are_ok =
      let r = load_lem order 0 ss sorted are_ok in
      let d = drains order r.1 r.0 (Loads-IsMerging r.3) in
      let s : MergeStream K R X = record {
        streams = r.0;
        peeked = r.1;
        buf = none;
        ts = ts;
        limit = none;
        order = order;
      } in
      (
        (poll_next s).1,
        d.out,
        rw r.2,
        record {
          sorted = d.sorted;
          cover = λ x m. d.cover x (r.3.cover x m);
          back = λ x m. r.3.back x (d.back x m);
          size = omega (arith, Yields-le_work d.yields, r.3.size);
        },
        λ l n le. primed s d.out l n refl le (poll_next_lem s d.out refl d.yields),
      )
