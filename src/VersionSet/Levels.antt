-- ===== src/VersionSet/Levels.antt =====
-- The tables of a level through the steps of `apply_edits`.
use tonbo.Prelude.{
  ℕ, zero, suc, ◌<◌, Bool, true, false, List, [], ◌∷◌, if◌then◌else◌, ◌≡◌, ap, refl, arith, length,
  In,
}
use tonbo.Prelude.Member.{In-nil, In-append_left, In-append_right}
use tonbo.Prelude.Rearranged.{Rearranged-In}
use tonbo.Prelude.In.{here, there}
use tonbo.Key.{Key}
use tonbo.Scope.{Scope}
use tonbo.Version.{level}
use tonbo.VersionSet.{SliceOps, update_level, push, min_le, merge_level, merge_levels}

below_zero : (i : ℕ) → i < 0 → ⊥
below_zero i h = omega arith

module _ {ℓ} {A : Type ℓ} where
  In-either : (b : Bool) {a : A} {xs ys : List A} → In a xs → In a ys → In a (if b then xs else ys)
  In-either true l r = l
  In-either false l r = r

  pub length-update_level :
      (i : ℕ) (f : List A → List A) (ls : List (List A)) → length (update_level i f ls) ≡ length ls
  length-update_level i f [] = refl
  length-update_level zero f (l ∷ ls) = refl
  length-update_level (suc i) f (l ∷ ls) = ap suc (length-update_level i f ls)

  pub In-merge_by :
      (m : SliceOps A) (f : A → A → Bool) {a : A} (xs ys : List A)
      → In a xs
      → In a (m.merge_by f xs ys)
  In-merge_by m f xs [] h = rw (m.merge_by-nil_right f xs) h
  In-merge_by m f [] (y ∷ ys) h = In-nil h
  In-merge_by m f (x ∷ xs) (y ∷ ys) (here e) =
      rw (m.merge_by-cons f x y xs ys)
        (In-either (f x y) (here e) (there (In-merge_by m f (x ∷ xs) ys (here e))))
  In-merge_by m f (x ∷ xs) (y ∷ ys) (there t) = rw (m.merge_by-cons f x y xs ys) (
      In-either (f x y) (there (In-merge_by m f xs (y ∷ ys) t))
        (there (In-merge_by m f (x ∷ xs) ys (there t))))

module _ {ℓ} {K : Type ℓ} where
  pub In-push :
      (i j : ℕ) (s : Scope K) {t : Scope K} (ls : List (List (Scope K)))
      → In t (level ls j)
      → In t (level (update_level i (push s) ls) j)
  In-push i j s [] h = h
  In-push zero zero s (l ∷ ls) h = In-append_left l (s ∷ []) h
  In-push zero (suc j) s (l ∷ ls) h = h
  In-push (suc i) zero s (l ∷ ls) h = h
  In-push (suc i) (suc j) s (l ∷ ls) h = In-push i j s ls h

  pub In-pushed :
      (i : ℕ) (s : Scope K) (ls : List (List (Scope K)))
      → i < length ls
      → In s (level (update_level i (push s) ls) i)
  In-pushed i s [] h = elim (below_zero i h) [ ]
  In-pushed zero s (l ∷ ls) h = In-append_right l (s ∷ []) (here refl)
  In-pushed (suc i) s (l ∷ ls) h = In-pushed i s ls (omega arith)

module _ {ℓ} {K : Type ℓ} ⦃k : Key K⦄ where
  module _ (m : SliceOps (Scope K)) where
    pub In-merge_level :
        {a : Scope K} (batch l : List (Scope K)) → In a batch → In a (merge_level m batch l)
    unfolding merge_level
    In-merge_level [] l h = In-nil h
    In-merge_level (s ∷ ss) l h =
        In-merge_by m min_le (m.sort_by min_le (s ∷ ss)) l
          (Rearranged-In (m.sort_by-Rearranged min_le (s ∷ ss)) h)

    pub In-merge_levels :
        (i : ℕ) {a : Scope K} (bs ls : List (List (Scope K)))
        → i < length ls
        → In a (level bs i)
        → In a (level (merge_levels m bs ls) i)
    unfolding merge_levels
    In-merge_levels i [] ls lt_len h = In-nil h
    In-merge_levels i (b ∷ bs) [] lt_len h = elim (below_zero i lt_len) [ ]
    In-merge_levels zero (b ∷ bs) (l ∷ ls) lt_len h = In-merge_level b l h
    In-merge_levels (suc i) (b ∷ bs) (l ∷ ls) lt_len h = In-merge_levels i bs ls (omega arith) h
