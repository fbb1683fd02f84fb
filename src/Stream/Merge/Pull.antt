-- ===== src/Stream/Merge/Pull.antt =====
-- What `pull` takes out of the streams: each entry tagged with the number of its stream.
use tonbo.Prelude.{
  ℕ, zero, suc, ◌+◌, ◌≤◌, ◌≡◌, ◌≢◌, refl, ap, ◌⊎◌, inl, inr, Option, none, some, List, [], ◌∷◌,
  ◌++◌, arith, In, All, Sorted, length,
}
use tonbo.Prelude.In.{here, there}
use tonbo.Prelude.Member.{In-nil, In-cons, In-append, In-append_left, In-append_right, All-In}
use tonbo.Prelude.Result.{Result, ok, err}
use tonbo.Key.{Key}
use tonbo.Stream.{Entry, Order}
use tonbo.Stream.Merge.{CmpEntry, pull, remaining}
use tonbo.Stream.Merge.Heap.{Before}

module _ {ℓ κ μ} {K : Type ℓ} {R : Type κ} {X : Type μ} ⦃k : Key K⦄ where
  -- the entries of stream `i`, and of the streams from number `i` on
  abbrev pub tag : ℕ → List (Result (Entry K R) X) → List (CmpEntry K R)
  tag i [] = []
  tag i (ok e ∷ s) = record { offset = i; entry = e } ∷ tag i s
  tag i (err x ∷ s) = tag i s

  abbrev pub tagged : ℕ → List (List (Result (Entry K R) X)) → List (CmpEntry K R)
  tagged i [] = []
  tagged i (s ∷ ss) = tag i s ++ tagged (suc i) ss

  -- no item of the stream is an error
  abbrev pub IsOk : Result (Entry K R) X → Type 0
  IsOk (ok e) = Unit
  IsOk (err x) = ⊥

  abbrev pub AreOk : List (List (Result (Entry K R) X)) → Type 0
  AreOk ss = All (All IsOk) ss

  -- each stream yields its entries in the order of the heap
  abbrev pub AreSorted : Option Order → ℕ → List (List (Result (Entry K R) X)) → Type (ℓ ⊔ κ)
  AreSorted order i [] = Unit
  AreSorted order i (s ∷ ss) = Sorted (Before order) (tag i s) × AreSorted order (suc i) ss

  pub tag-offset :
      (i : ℕ) (s : List (Result (Entry K R) X)) {c : CmpEntry K R} → In c (tag i s) → c.offset ≡ i
  tag-offset i [] m = In-nil m
  tag-offset i (ok e ∷ s) m = elim (In-cons m) [
    | inl p ↦ ap (λ c. c.offset) p
    | inr r ↦ tag-offset i s r
  ]
  tag-offset i (err x ∷ s) m = tag-offset i s m

  pub tagged-offset :
      (i : ℕ) (ss : List (List (Result (Entry K R) X))) {c : CmpEntry K R}
      → In c (tagged i ss)
      → i ≤ c.offset
  tagged-offset i [] m = In-nil m
  tagged-offset i (s ∷ ss) m = elim (In-append (tag i s) _ m) [
    | inl l ↦ omega (arith, tag-offset i s l)
    | inr r ↦ omega (arith, tagged-offset (suc i) ss r)
  ]

  -- A pull from stream number `o` of those numbered from `j` on took out `e`.
  pub record Pulls (order : Option Order) (j o : ℕ) (e : Entry K R)
      (ss ss' : List (List (Result (Entry K R) X))) : Type (ℓ ⊔ κ) where
    pub cover :
        (x : CmpEntry K R)
        → In x (tagged j ss)
        → (x ≡ record { offset = o; entry = e }) ⊎ In x (tagged j ss')
    pub from : In (record { offset = o; entry = e }) (tagged j ss)
    pub back : (x : CmpEntry K R) → In x (tagged j ss') → In x (tagged j ss)
    pub first :
        (x : CmpEntry K R)
        → In x (tagged j ss')
        → x.offset ≡ o
        → Before order (record { offset = o; entry = e }) x
    pub sorted : AreSorted order j ss'
    pub are_ok : AreOk ss'
    pub same : length ss' ≡ length ss
    pub fewer : remaining ss ≡ suc (remaining ss')

  abbrev pub PullSpec :
      Option Order
      → ℕ
      → ℕ
      → List (List (Result (Entry K R) X))
      → Option (Option (Result (Entry K R) X) × List (List (Result (Entry K R) X)))
      → Type (ℓ ⊔ κ ⊔ μ)
  PullSpec order j o ss none = Unit × (length ss + j ≤ o)
  PullSpec order j o ss (some (none, ss')) =
      (ss' ≡ ss) × ((x : CmpEntry K R) → In x (tagged j ss) → x.offset ≢ o)
  PullSpec order j o ss (some (some (ok e), ss')) = Pulls order j o e ss ss' × Unit {μ}
  PullSpec order j o ss (some (some (err x), ss')) = ⊥ × Unit {ℓ ⊔ κ ⊔ μ}

  pull_here :
      (order : Option Order) (j o : ℕ) (e : Entry K R) (s : List (Result (Entry K R) X))
      (ss : List (List (Result (Entry K R) X)))
      → o ≡ j
      → AreSorted order j ((ok e ∷ s) ∷ ss)
      → AreOk ((ok e ∷ s) ∷ ss)
      → Pulls order j o e ((ok e ∷ s) ∷ ss) (s ∷ ss)
  unfolding remaining
  pull_here order j o e s ss q sorted are_ok = rw q (record {
    cover = λ x m. In-cons m;
    from = here refl;
    back = λ x m. there m;
    first = λ x m p. elim (In-append (tag j s) _ m) [
      | inl l ↦ All-In _ (tag j s) sorted.0.0 l
      | inr r ↦ absurd (omega (arith, tagged-offset (suc j) ss r))
    ];
    sorted = (sorted.0.1, sorted.1);
    are_ok = (are_ok.0.1, are_ok.1);
    same = refl;
    fewer = omega arith;
  })

  pull_there :
      (order : Option Order) (j o : ℕ) (s : List (Result (Entry K R) X))
      (ss : List (List (Result (Entry K R) X)))
      (r : Option (Option (Result (Entry K R) X) × List (List (Result (Entry K R) X))))
      → suc j ≤ o
      → AreSorted order j (s ∷ ss)
      → AreOk (s ∷ ss)
      → PullSpec order (suc j) o ss r
      → PullSpec order j o (s ∷ ss) (elim r [ none ↦ none | some (a, rest) ↦ some (a, s ∷ rest) ])
  unfolding remaining
  pull_there order j o s ss none le sorted are_ok h = (tt, omega (arith, h.1))
  pull_there order j o s ss (some (none, ss')) le sorted are_ok h = (
    ap (λ t. s ∷ t) h.0,
    λ x m. elim (In-append (tag j s) _ m) [
      | inl l ↦ omega (arith, tag-offset j s l)
      | inr r ↦ h.1 x r
    ],
  )
  pull_there order j o s ss (some (some (err x), ss')) le sorted are_ok h = absurd h.0
  pull_there order j o s ss (some (some (ok e), ss')) le sorted are_ok h =
      let p = h.0 in
      (
        record {
          cover = λ x m. elim (In-append (tag j s) _ m) [
            | inl l ↦ inr (In-append_left (tag j s) _ l)
            | inr r ↦ elim (p.cover x r) [
              | inl q ↦ inl q
              | inr t ↦ inr (In-append_right (tag j s) _ t)
            ]
          ];
          from = In-append_right (tag j s) _ p.from;
          back = λ x m. elim (In-append (tag j s) _ m) [
            | inl l ↦ In-append_left (tag j s) _ l
            | inr r ↦ In-append_right (tag j s) _ (p.back x r)
          ];
          first = λ x m q. elim (In-append (tag j s) _ m) [
            | inl l ↦ absurd (omega (arith, tag-offset j s l))
            | inr r ↦ p.first x r q
          ];
          sorted = (sorted.0, p.sorted);
          are_ok = (are_ok.0, p.are_ok);
          same = ap suc p.same;
          fewer = omega (arith, p.fewer);
        },
        tt,
      )

  pub pull_lem :
      (order : Option Order) (j i o : ℕ) (ss : List (List (Result (Entry K R) X)))
      → o ≡ j + i
      → AreSorted order j ss
      → AreOk ss
      → PullSpec order j o ss (pull i ss)
  unfolding pull
  pull_lem order j zero o [] q sorted are_ok = (tt, omega arith)
  pull_lem order j (suc i) o [] q sorted are_ok = (tt, omega arith)
  pull_lem order j zero o ([] ∷ ss) q sorted are_ok =
      (refl, λ x m. omega (arith, tagged-offset (suc j) ss m))
  pull_lem order j zero o ((err x ∷ s) ∷ ss) q sorted are_ok = absurd are_ok.0.0
  pull_lem order j zero o ((ok e ∷ s) ∷ ss) q sorted are_ok =
      (pull_here order j o e s ss (omega arith) sorted are_ok, tt)
  pull_lem order j (suc i) o (s ∷ ss) q sorted are_ok =
      pull_there order j o s ss (pull i ss) (omega arith) sorted are_ok
        (pull_lem order (suc j) i o ss (omega arith) sorted.1 are_ok.1)
