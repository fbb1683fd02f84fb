-- ===== src/Prelude/Rearranged.antt =====
-- One list is the other in another order, where the orders of equal elements are told apart.
use tonbo.Prelude.{◌≡◌, refl, sym, ap, ◌∙◌, List, [], ◌∷◌, In, All, Sorted, subst}
use tonbo.Prelude.In.{here, there}
use tonbo.Prelude.Member.{All-In}

module _ {ℓ} {A : Type ℓ} where
  -- the second list is the first one with the element somewhere in it
  pub data Inserted (x : A) : List A → List A → Type ℓ where
    at_first : {ys : List A} → Inserted x ys (x ∷ ys)
    at_later : {y : A} {ys zs : List A} → Inserted x ys zs → Inserted x (y ∷ ys) (y ∷ zs)

  pub data Rearranged : List A → List A → Type ℓ where
    no_element : Rearranged [] []
    one_element :
        {x : A} {xs ys zs : List A} → Rearranged xs ys → Inserted x ys zs → Rearranged (x ∷ xs) zs

  Inserted-In : (x : A) {ys zs : List A} {a : A} → Inserted x ys zs → In a (x ∷ ys) → In a zs
  Inserted-In x at_first m = m
  Inserted-In x (at_later i) (here p) = there (Inserted-In x i (here p))
  Inserted-In x (at_later i) (there (here p)) = here p
  Inserted-In x (at_later i) (there (there m)) = there (Inserted-In x i (there m))

  pub Rearranged-In : {xs zs : List A} {a : A} → Rearranged xs zs → In a xs → In a zs
  Rearranged-In no_element m = m
  Rearranged-In (one_element {x = x} r i) (here p) = Inserted-In x i (here p)
  Rearranged-In (one_element {x = x} r i) (there m) = Inserted-In x i (there (Rearranged-In r m))

  module _ {κ} (L : A → A → Type κ) where
    Inserted-All : (a x : A) {ys zs : List A} → Inserted x ys zs → All (L a) zs → All (L a) ys
    Inserted-All a x at_first h = h.1
    Inserted-All a x (at_later i) h = (h.0, Inserted-All a x i h.1)

    Inserted-Sorted : (x : A) {ys zs : List A} → Inserted x ys zs → Sorted L zs → Sorted L ys
    Inserted-Sorted x at_first s = s.1
    Inserted-Sorted x (at_later {y = y} i) s = (Inserted-All y x i s.0, Inserted-Sorted x i s.1)

    Inserted-has : (x : A) {ys zs : List A} → Inserted x ys zs → In x zs
    Inserted-has x at_first = here refl
    Inserted-has x (at_later i) = there (Inserted-has x i)

    module _ {μ} (S : A → A → Type μ) (apart : (a b : A) → S a b → L b a → ⊥) where
      Inserted-strict :
          (x : A) (ys zs : List A) → Inserted x ys zs → All (S x) ys → Sorted L zs → zs ≡ x ∷ ys
      Inserted-strict x _ _ at_first a s = refl
      Inserted-strict x _ _ (at_later {y = y} {zs = zs} i) a s =
          elim (apart x y a.0 (All-In (L y) zs s.0 (Inserted-has x i))) [ ]

      -- a list in strict order has no other arrangement in order
      pub Rearranged-strict :
          (xs zs : List A) → Rearranged xs zs → Sorted S xs → Sorted L zs → zs ≡ xs
      Rearranged-strict _ _ no_element s l = refl
      Rearranged-strict _ _ (one_element {x = x} {xs = xs} {ys = ys} {zs = zs} r i) s l =
          let p = Rearranged-strict xs ys r s.1 (Inserted-Sorted x i l) in
          Inserted-strict x ys zs i (subst (All (S x)) (sym p) s.0) l ∙ ap (λ t. x ∷ t) p
