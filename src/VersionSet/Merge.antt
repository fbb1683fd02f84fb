-- ===== src/VersionSet/Merge.antt =====
-- A merge and a sort that keep the laws of `SliceOps`, for tests.
use tonbo.Prelude.{◌≡◌, refl, Bool, true, false, List, [], ◌∷◌, if◌then◌else◌, All, Sorted}
use tonbo.Prelude.Rearranged.{Inserted, Rearranged}
use tonbo.VersionSet.{SliceOps}

unfoldable pub merge {ℓ} : {A : Type ℓ} → (A → A → Bool) → List A → List A → List A
merge f [] ys = ys
merge f (x ∷ xs) [] = x ∷ xs
merge f (x ∷ xs) (y ∷ ys) = if f x y then x ∷ merge f xs (y ∷ ys) else y ∷ merge f (x ∷ xs) ys

pub merge-nil {ℓ} : {A : Type ℓ} (f : A → A → Bool) (xs : List A) → merge f xs [] ≡ xs
unfolding merge
merge-nil f [] = refl
merge-nil f (x ∷ xs) = refl

unfoldable pub insert {ℓ} : {A : Type ℓ} → (A → A → Bool) → A → List A → List A
insert f x [] = x ∷ []
insert f x (y ∷ ys) = if f x y then x ∷ y ∷ ys else y ∷ insert f x ys

unfoldable pub sort {ℓ} : {A : Type ℓ} → (A → A → Bool) → List A → List A
sort f [] = []
sort f (x ∷ xs) = insert f x (sort f xs)

module _ {ℓ} {A : Type ℓ} (f : A → A → Bool) where
  pub by_test {κ} :
      (P : List A → Type κ) (c : Bool) (xs ys : List A)
      → (c ≡ true → P xs)
      → (c ≡ false → P ys)
      → P (if c then xs else ys)
  by_test P true xs ys l r = l refl
  by_test P false xs ys l r = r refl

  insert-Inserted : (x : A) (ys : List A) → Inserted x ys (insert f x ys)
  unfolding insert
  insert-Inserted x [] = Inserted.at_first
  insert-Inserted x (y ∷ ys) =
      by_test (Inserted x (y ∷ ys)) (f x y) _ _ (λ _. Inserted.at_first)
        (λ _. Inserted.at_later (insert-Inserted x ys))

  pub sort-Rearranged : (xs : List A) → Rearranged xs (sort f xs)
  unfolding sort
  sort-Rearranged [] = Rearranged.no_element
  sort-Rearranged (x ∷ xs) =
      Rearranged.one_element (sort-Rearranged xs) (insert-Inserted x (sort f xs))

  abbrev pub Le : A → A → Type 0
  Le a b = f a b ≡ true

  insert-All : (a x : A) (ys : List A) → Le a x → All (Le a) ys → All (Le a) (insert f x ys)
  unfolding insert
  insert-All a x [] h l = (h, tt)
  insert-All a x (y ∷ ys) h l =
      by_test (All (Le a)) (f x y) _ _ (λ _. (h, l)) (λ _. (l.0, insert-All a x ys h l.1))

  module _ (trans : (a b c : A) → Le a b → Le b c → Le a c)
      (total : (a b : A) → f a b ≡ false → Le b a) where
    All-trans : (a b : A) (ys : List A) → Le a b → All (Le b) ys → All (Le a) ys
    All-trans a b [] h l = tt
    All-trans a b (y ∷ ys) h l = (trans a b y h l.0, All-trans a b ys h l.1)

    insert-Sorted : (x : A) (ys : List A) → Sorted Le ys → Sorted Le (insert f x ys)
    unfolding insert
    insert-Sorted x [] s = (tt, tt)
    insert-Sorted x (y ∷ ys) s =
        by_test (λ z. Sorted Le z) (f x y) _ _ (λ h. ((h, All-trans x y ys h s.0), s))
          (λ h. (insert-All y x ys (total x y h) s.0, insert-Sorted x ys s.1))

    pub sort-Sorted : (xs : List A) → Sorted Le (sort f xs)
    unfolding sort
    sort-Sorted [] = tt
    sort-Sorted (x ∷ xs) = insert-Sorted x (sort f xs) (sort-Sorted xs)

unfoldable pub merge_scopes {ℓ} : {A : Type ℓ} → SliceOps A
unfolding merge
merge_scopes = record {
  merge_by = merge;
  merge_by-nil = λ f ys. refl;
  merge_by-nil_right = merge-nil;
  merge_by-cons = λ f x y xs ys. refl;
  sort_by = sort;
  sort_by-Rearranged = sort-Rearranged;
  sort_by-Sorted = λ f xs trans total. sort-Sorted f trans total xs;
}
