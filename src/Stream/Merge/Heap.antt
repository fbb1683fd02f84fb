-- ===== src/Stream/Merge/Heap.antt =====
-- The order in which entries leave the heap, and what `pop_max` takes out.
use tonbo.Prelude.{
  ℕ, ◌≡◌, refl, ap, ◌⊎◌, inl, inr, true, false, Option, none, some, List, [], ◌∷◌, Ordering,
  compare, arith, In, Bool-cases, length, suc, if◌then◌else◌,
}
use tonbo.Prelude.In.{here, there}
use tonbo.Prelude.Member.{In-nil, In-cons}
use tonbo.Key.{Key, IsTotal, ◌≼◌, is_lt, reverse, then_by}
use tonbo.Key.Order.{≼_refl, ≼_trans, compare-IsTotal}
use tonbo.Key.Then.{reverse-IsTotal, then-IsTotal}
use tonbo.Timestamp.{Ts, cmp, cmp-IsTotal}
use tonbo.Stream.{Order, asc, desc}
use tonbo.Stream.Merge.{CmpEntry, natural_cmp, entry_cmp, pop_max}

-- what the order of two heap entries depends on
pub record Rank {ℓ} (K : Type ℓ) : Type ℓ where
  pub key : Ts K
  pub offset : ℕ

module _ {ℓ} {K : Type ℓ} ⦃k : Key K⦄ where
  abbrev pub natural : Rank K → Rank K → Ordering
  natural a b = then_by (cmp a.key b.key) (compare a.offset b.offset)

  pub natural-IsTotal : IsTotal {K = Rank K} natural
  natural-IsTotal =
      then-IsTotal (λ (r : Rank K). r.key) (λ r. r.offset)
        (λ x y p q i. record { key = p i; offset = q i }) cmp-IsTotal compare-IsTotal

  natural_swap : (a b : Rank K) → natural b a ≡ reverse (natural a b)
  natural_swap a b = let t : IsTotal {K = Rank K} natural = natural-IsTotal in t.cmp_swap a b

  -- the entry that is least in this order leaves the heap first
  abbrev pub rank_key : Option Order → Key (Rank K)
  rank_key none = record { cmp = natural; total = natural-IsTotal }
  rank_key (some asc) = record { cmp = natural; total = natural-IsTotal }
  rank_key (some desc) = record {
    cmp = λ a b. reverse (natural a b);
    total = reverse-IsTotal natural-IsTotal;
  }

module _ {ℓ κ} {K : Type ℓ} {R : Type κ} ⦃k : Key K⦄ where
  abbrev pub rank : CmpEntry K R → Rank K
  rank c = record { key = c.entry.key; offset = c.offset }

  -- `a` leaves the heap before `b`
  unfoldable pub Before : Option Order → CmpEntry K R → CmpEntry K R → Type 0
  Before order a b = ◌≼◌ ⦃k = rank_key order⦄ (rank a) (rank b)

  pub Before_refl : (order : Option Order) (a : CmpEntry K R) → Before order a a
  unfolding Before
  Before_refl order a = ≼_refl ⦃k = rank_key order⦄ (rank a)

  pub Before_trans :
      (order : Option Order) (a b c : CmpEntry K R)
      → Before order a b
      → Before order b c
      → Before order a c
  unfolding Before
  Before_trans order a b c = ≼_trans ⦃k = rank_key order⦄ (rank a) (rank b) (rank c)

  Before-entry_cmp_lt :
      (order : Option Order) (x y : CmpEntry K R)
      → is_lt (entry_cmp order x y) ≡ true
      → Before order y x
  unfolding Before entry_cmp natural_cmp
  Before-entry_cmp_lt none x y h = ground (arith, natural_swap (rank x) (rank y))
  Before-entry_cmp_lt (some asc) x y h = ground (arith, natural_swap (rank x) (rank y))
  Before-entry_cmp_lt (some desc) x y h = ground (arith, natural_swap (rank x) (rank y))

  Before-entry_cmp_ge :
      (order : Option Order) (x y : CmpEntry K R)
      → is_lt (entry_cmp order x y) ≡ false
      → Before order x y
  unfolding Before entry_cmp natural_cmp
  Before-entry_cmp_ge none x y h = ground arith
  Before-entry_cmp_ge (some asc) x y h = ground arith
  Before-entry_cmp_ge (some desc) x y h = ground arith

  -- what a successful pop says
  pub record Pops (order : Option Order) (heap : List (CmpEntry K R)) (top : CmpEntry K R)
      (rest : List (CmpEntry K R)) : Type (ℓ ⊔ κ) where
    pub least : (x : CmpEntry K R) → In x rest → Before order top x
    pub cover : (x : CmpEntry K R) → In x heap → (x ≡ top) ⊎ In x rest
    pub back : (x : CmpEntry K R) → In x rest → In x heap
    pub from : In top heap
    pub fewer : length heap ≡ suc (length rest)

  abbrev pub PopSpec :
      Option Order
      → List (CmpEntry K R)
      → Option (CmpEntry K R × List (CmpEntry K R))
      → Type (ℓ ⊔ κ)
  PopSpec order heap none = heap ≡ []
  PopSpec order heap (some (top, rest)) = Pops order heap top rest

  pop_one : (order : Option Order) (x : CmpEntry K R) → Pops order (x ∷ []) x []
  pop_one order x = record {
    least = λ y m. In-nil m;
    cover = λ y m. In-cons m;
    back = λ y m. there m;
    from = here refl;
    fewer = refl;
  }

  pop_new :
      (order : Option Order) (x : CmpEntry K R) {xs : List (CmpEntry K R)} {y : CmpEntry K R}
      {ys : List (CmpEntry K R)}
      → Before order x y
      → Pops order xs y ys
      → Pops order (x ∷ xs) x xs
  pop_new order x {y = y} b p = record {
    least = λ z m. elim (p.cover z m) [
      | inl e ↦ rw e b
      | inr r ↦ Before_trans order x y z b (p.least z r)
    ];
    cover = λ z m. In-cons m;
    back = λ z m. there m;
    from = here refl;
    fewer = refl;
  }

  pop_old :
      (order : Option Order) (x : CmpEntry K R) {xs : List (CmpEntry K R)} {y : CmpEntry K R}
      {ys : List (CmpEntry K R)}
      → Before order y x
      → Pops order xs y ys
      → Pops order (x ∷ xs) y (x ∷ ys)
  pop_old order x b p = record {
    least = λ z m. elim (In-cons m) [ inl e ↦ rw e b | inr r ↦ p.least z r ];
    cover = λ z m. elim (In-cons m) [
      | inl e ↦ inr (here e)
      | inr r ↦ elim (p.cover z r) [ inl e ↦ inl e | inr q ↦ inr (there q) ]
    ];
    back = λ z m. elim (In-cons m) [ inl e ↦ here e | inr r ↦ there (p.back z r) ];
    from = there p.from;
    fewer = ap suc p.fewer;
  }

  pop_choice :
      (order : Option Order) (x : CmpEntry K R) {xs : List (CmpEntry K R)} (y : CmpEntry K R)
      (ys : List (CmpEntry K R))
      → Pops order xs y ys
      → PopSpec order
          (x ∷ xs)
          (if is_lt (entry_cmp order x y) then some (y, x ∷ ys) else some (x, xs))
  pop_choice order x y ys p = elim (Bool-cases (is_lt (entry_cmp order x y))) [
    | inl l ↦ rw l (pop_old order x (Before-entry_cmp_lt order x y l) p)
    | inr g ↦ rw g (pop_new order x (Before-entry_cmp_ge order x y g) p)
  ]

  pub pop_max_lem :
      (order : Option Order) (heap : List (CmpEntry K R)) → PopSpec order heap (pop_max order heap)
  unfolding pop_max
  pop_max_lem order [] = refl
  pop_max_lem order (x ∷ xs) = pop_next (pop_max order xs) (pop_max_lem order xs)
    where
      pop_next :
          (r : Option (CmpEntry K R × List (CmpEntry K R)))
          → PopSpec order xs r
          → PopSpec order (x ∷ xs) (elim r [
            | none ↦ some (x, [])
            | some (y, ys) ↦ if is_lt (entry_cmp order x y) then some (y, x ∷ ys) else some (x, xs)
          ])
      pop_next none e = rw e (pop_one order x)
      pop_next (some (y, ys)) p = pop_choice order x y ys p
