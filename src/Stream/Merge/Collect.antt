-- ===== src/Stream/Merge/Collect.antt =====
-- Polling until the end yields what `emit` makes of the entries in the order of the heap, up to
-- the limit. No poll panics or runs out of fuel.
use tonbo.Prelude.{
  ℕ, zero, suc, ◌≤◌, ◌<◌, ◌≡◌, refl, sym, ap, ◌∙◌, ◌⊎◌, inl, inr, true, false, Option, none, some,
  List, [], ◌∷◌, ◌++◌, arith, length, take, Bool-cases, subst,
}
use tonbo.Prelude.Result.{Result, ok}
use tonbo.Key.{Key}
use tonbo.Stream.{Entry}
use tonbo.Stream.Merge.{
  CmpEntry, MergeStream, Poll, ready, skips, ready_buf, one_less, spent, poll_loop, poll_next,
  collect,
}
use tonbo.Stream.Merge.Sources.{work}
use tonbo.Stream.Merge.Emit.{Yields, Yields-le_work, emit, to_list}

module _ {ℓ κ μ} {K : Type ℓ} {R : Type κ} {X : Type μ} ⦃k : Key K⦄ where
  -- The poll found no entry to accept: it returns the buffer and the heap is empty.
  pub record PollEnds (s : MergeStream K R X) (es : List (CmpEntry K R))
      (r : Poll (Entry K R) X × MergeStream K R X) : Type (ℓ ⊔ κ ⊔ μ) where
    pub heap : List (CmpEntry K R)
    pub streams : List (List (Result (Entry K R) X))
    pub returns : r ≡ (ready_buf s.buf, record s { streams = streams; peeked = heap; buf = none })
    pub yields : Yields s.order heap streams []
    pub emits : emit s.ts s.buf es ≡ to_list s.buf

  -- The poll accepted an entry: it returns the buffer, and the entry is in the buffer.
  pub record PollAccepts (s : MergeStream K R X) (es : List (CmpEntry K R))
      (r : Poll (Entry K R) X × MergeStream K R X) : Type (ℓ ⊔ κ ⊔ μ) where
    pub heap : List (CmpEntry K R)
    pub streams : List (List (Result (Entry K R) X))
    pub accepted : Entry K R
    pub rest : List (CmpEntry K R)
    pub returns : r ≡ (
      ready_buf s.buf,
      record s { streams = streams; peeked = heap; buf = some accepted; limit = one_less s.limit },
    )
    pub yields : Yields s.order heap streams rest
    pub emits : emit s.ts s.buf es ≡ to_list s.buf ++ emit s.ts (some accepted) rest
    pub fewer : suc (length rest) ≤ length es

  pub poll_loop_lem :
      (fuel : ℕ) (s : MergeStream K R X) (es : List (CmpEntry K R))
      → length es < fuel
      → Yields s.order s.peeked s.streams es
      → PollEnds s es (poll_loop fuel s) ⊎ PollAccepts s es (poll_loop fuel s)
  unfolding poll_loop emit
  poll_loop_lem zero s es lt y = absurd (omega arith)
  poll_loop_lem (suc n) s [] lt (Yields.done q) = inl (record {
    heap = s.peeked;
    streams = s.streams;
    returns = rw (q, poll_loop);
    yields = Yields.done q;
    emits = refl;
  })
  poll_loop_lem (suc n) s (c ∷ es) lt (Yields.next {heap' = heap} {ss' = ss} q f y) =
      elim (Bool-cases (skips s.ts s.buf c.entry)) [
        | inl skip ↦
            elim (poll_loop_lem n (record s { streams = ss; peeked = heap }) es (omega arith) y) [
              | inl e ↦ inl (record {
                heap = e.heap;
                streams = e.streams;
                returns = rw (q, skip, poll_loop) e.returns;
                yields = e.yields;
                emits = rw (skip, emit) e.emits;
              })
              | inr a ↦ inr (record {
                heap = a.heap;
                streams = a.streams;
                accepted = a.accepted;
                rest = a.rest;
                returns = rw (q, skip, poll_loop) a.returns;
                yields = a.yields;
                emits = rw (skip, emit) a.emits;
                fewer = omega (arith, a.fewer);
              })
            ]
        | inr accept ↦ inr (record {
          heap = heap;
          streams = ss;
          accepted = c.entry;
          rest = es;
          returns = rw (q, accept, poll_loop);
          yields = y;
          emits = rw (accept, emit);
          fewer = omega arith;
        })
      ]

  pub poll_next_lem :
      (s : MergeStream K R X) (es : List (CmpEntry K R))
      → spent s.limit ≡ false
      → Yields s.order s.peeked s.streams es
      → PollEnds s es (poll_next s) ⊎ PollAccepts s es (poll_next s)
  unfolding poll_next
  poll_next_lem s es open_ended y =
      rw open_ended
        (poll_loop_lem (suc (work s.peeked s.streams)) s es (omega (arith, Yields-le_work y)) y)

-- what a limit leaves of a list
abbrev pub limited {ℓ} : {A : Type ℓ} → Option ℕ → List A → List A
limited none xs = xs
limited (some n) xs = take n xs

limited_one {ℓ} :
    {A : Type ℓ} (l : Option ℕ) (a : A) → spent l ≡ false → limited l (a ∷ []) ≡ a ∷ []
limited_one none a h = refl
limited_one (some zero) a h = cc
limited_one (some (suc zero)) a h = refl
limited_one (some (suc (suc n))) a h = refl

limited_cons {ℓ} :
    {A : Type ℓ} (l : Option ℕ) (a : A) (xs : List A)
    → spent l ≡ false
    → limited l (a ∷ xs) ≡ a ∷ limited (one_less l) xs
limited_cons none a xs h = refl
limited_cons (some zero) a xs h = cc
limited_cons (some (suc n)) a xs h = ap (λ m. a ∷ take m xs) (omega arith)

limited-spent {ℓ} : {A : Type ℓ} (l : Option ℕ) (xs : List A) → spent l ≡ true → limited l xs ≡ []
limited-spent none xs h = cc
limited-spent (some zero) xs h = refl
limited-spent (some (suc n)) xs h = cc

module _ {ℓ κ μ} {K : Type ℓ} {R : Type κ} {X : Type μ} ⦃k : Key K⦄ where
  pub collect_ended :
      (n : ℕ) (s : MergeStream K R X)
      → Yields s.order s.peeked s.streams []
      → s.buf ≡ none
      → collect (suc n) s ≡ some (ok [])
  unfolding collect poll_next poll_loop
  collect_ended n s (Yields.done q) e = elim (Bool-cases (spent s.limit)) [
    | inl spent_out ↦ rw (spent_out, collect)
    | inr open_ended ↦ rw (open_ended, q, e, collect)
  ]

  collect-spent :
      (n : ℕ) (s : MergeStream K R X) → spent s.limit ≡ true → collect (suc n) s ≡ some (ok [])
  unfolding collect poll_next
  collect-spent n s h = rw (h, collect)

  collect_yields :
      (n : ℕ) (s : MergeStream K R X) (b : Entry K R) (s' : MergeStream K R X)
      (xs : List (Entry K R))
      → poll_next s ≡ (ready (some (ok b)), s')
      → collect n s' ≡ some (ok xs)
      → collect (suc n) s ≡ some (ok (b ∷ xs))
  unfolding collect
  collect_yields n s b s' xs p h =
      let first : (poll_next s).0 ≡ ready (some (ok b)) =
        ap (λ (r : Poll (Entry K R) X × MergeStream K R X). r.0) p in
      let after : collect n (poll_next s).1 ≡ some (ok xs) =
        subst (λ t. collect n t ≡ some (ok xs))
          (ap (λ (r : Poll (Entry K R) X × MergeStream K R X). r.1) (sym p)) h in
      rw (first, collect) (rw after)

  pub collect_lem :
      (n : ℕ) (s : MergeStream K R X) (b : Entry K R) (es : List (CmpEntry K R))
      → s.buf ≡ some b
      → suc (suc (length es)) ≤ n
      → Yields s.order s.peeked s.streams es
      → collect n s ≡ some (ok (limited s.limit (emit s.ts (some b) es)))
  unfolding collect
  collect_lem zero s b es q le y = absurd (omega arith)
  collect_lem (suc zero) s b es q le y = absurd (omega arith)
  collect_lem (suc (suc n)) s b es q le y = elim (Bool-cases (spent s.limit)) [
    | inl out ↦
        collect-spent (suc n) s out ∙ ap (λ xs. some (ok xs)) (sym (limited-spent s.limit _ out))
    | inr open_ended ↦ elim (poll_next_lem s es open_ended y) [
      | inl e ↦
          collect_yields (suc n) s b _ []
            (e.returns
              ∙ ap
                  (λ o.
                    (ready_buf o, record s { streams = e.streams; peeked = e.heap; buf = none }))
                  q)
            (collect_ended n _ e.yields refl)
          ∙ ap (λ xs. some (ok xs))
              (sym (
                ap (limited s.limit) (subst (λ o. emit s.ts o es ≡ to_list o) q e.emits)
                ∙ limited_one s.limit b open_ended))
      | inr a ↦
          collect_yields (suc n) s b _ _
            (a.returns
              ∙ ap
                  (λ o. (
                    ready_buf o,
                    record s {
                      streams = a.streams;
                      peeked = a.heap;
                      buf = some a.accepted;
                      limit = one_less s.limit;
                    },
                  ))
                  q)
            (collect_lem (suc n) _ a.accepted a.rest refl (omega (arith, a.fewer)) a.yields)
          ∙ ap (λ xs. some (ok xs))
              (sym (
                ap (limited s.limit) (
                  subst (λ o. emit s.ts o es ≡ to_list o ++ emit s.ts (some a.accepted) a.rest) q
                    a.emits)
                ∙ limited_cons s.limit b _ open_ended))
    ]
  ]
