-- ===== src/VersionSet/Order.antt =====
-- The order of the tables of a level through the steps of `apply_edits`.
use tonbo.Prelude.{
  ℕ, zero, suc, Bool, true, ◌==◌, false, List, [], ◌∷◌, if◌then◌else◌, ◌≡◌, refl, All, Sorted, inl,
  inr,
}
use tonbo.Prelude.Rearranged.{Rearranged-strict}
use tonbo.Key.{Key, ◌≺◌, ◌≤?◌, ◌≼◌}
use tonbo.Key.Order.{≼_trans, not_≺_of_≼, ≼_or_≺, ≼_of_≺}
use tonbo.Scope.{Scope, FileId}
use tonbo.Version.{Version}
use tonbo.Version.Edit.{VersionEdit, SsTableId, add, remove, latest_timestamp, new_log_length}
use tonbo.VersionSet.{
  SliceOps, Applying, update_level, push, remove_gen, without_wal, apply_edit, apply_each, min_le,
  merge_level, merge_levels, starting, apply_all,
}

module _ {ℓ} {K : Type ℓ} ⦃k : Key K⦄ where
  abbrev Above : K → List (Scope K) → Type 0
  Above lo ss = All (λ (t : Scope K). lo ≼ t.min) ss

  -- the tables of a level stand in the order of their least keys
  abbrev pub IsOrdered : List (Scope K) → Type 0
  IsOrdered ss = Sorted (λ (a b : Scope K). a.min ≼ b.min) ss

  -- the levels above 0 are in order
  abbrev pub AreOrdered : List (List (Scope K)) → Type 0
  AreOrdered [] = Unit
  AreOrdered (l ∷ ls) = All IsOrdered ls

  Above-lower : (lo hi : K) (ss : List (Scope K)) → lo ≼ hi → Above hi ss → Above lo ss
  Above-lower lo hi [] h a = tt
  Above-lower lo hi (s ∷ ss) h a = (≼_trans lo hi s.min h a.0, Above-lower lo hi ss h a.1)

  swapped : (a b : K) → (a ≤? b) ≡ false → b ≼ a
  swapped a b h = elim (≼_or_≺ a b) [ inl l ↦ cc | inr l ↦ ≼_of_≺ b a l ]

  -- one of two lists by a test
  abbrev Either : (P : List (Scope K) → Type 0) → Type ℓ
  Either P =
      (b : Bool) (xs ys : List (Scope K))
      → (b ≡ true → P xs)
      → (b ≡ false → P ys)
      → P (if b then xs else ys)

  either : (P : List (Scope K) → Type 0) → Either P
  either P true xs ys f g = f refl
  either P false xs ys f g = g refl

  -- what the sort of a batch is
  sort_by-IsOrdered :
      (m : SliceOps (Scope K)) (ss : List (Scope K)) → IsOrdered (m.sort_by min_le ss)
  sort_by-IsOrdered m ss =
      m.sort_by-Sorted min_le ss (λ a b c h l. ≼_trans a.min b.min c.min h l)
        (λ a b h. swapped a.min b.min h)

  -- the least keys are different, too
  abbrev pub IsStrict : List (Scope K) → Type 0
  IsStrict ss = Sorted (λ (a b : Scope K). a.min ≺ b.min) ss

  abbrev pub AreStrict : List (List (Scope K)) → Type 0
  AreStrict [] = Unit
  AreStrict (l ∷ ls) = All IsStrict ls

  -- sorting what is in strict order changes nothing
  pub sort_by-strict :
      (m : SliceOps (Scope K)) (ss : List (Scope K)) → IsStrict ss → m.sort_by min_le ss ≡ ss
  sort_by-strict m ss s =
      Rearranged-strict (λ (a b : Scope K). a.min ≼ b.min) (λ (a b : Scope K). a.min ≺ b.min)
        (λ a b l h. not_≺_of_≼ b.min a.min h l) ss (m.sort_by min_le ss)
        (m.sort_by-Rearranged min_le ss) s (sort_by-IsOrdered m ss)

  Above-remove_gen :
      (lo : K) (gen : FileId) (ss : List (Scope K)) → Above lo ss → Above lo (remove_gen gen ss)
  unfolding remove_gen
  Above-remove_gen lo gen [] a = tt
  Above-remove_gen lo gen (s ∷ ss) a =
      either (Above lo) (s.gen == gen) ss (s ∷ remove_gen gen ss) (λ _. a.1)
        (λ _. (a.0, Above-remove_gen lo gen ss a.1))

  remove_gen-IsOrdered :
      (gen : FileId) (ss : List (Scope K)) → IsOrdered ss → IsOrdered (remove_gen gen ss)
  unfolding remove_gen
  remove_gen-IsOrdered gen [] o = tt
  remove_gen-IsOrdered gen (s ∷ ss) o =
      either IsOrdered (s.gen == gen) ss (s ∷ remove_gen gen ss) (λ _. o.1)
        (λ _. (Above-remove_gen s.min gen ss o.0, remove_gen-IsOrdered gen ss o.1))

  update_level-AreOrdered :
      (i : ℕ) (gen : FileId) (ls : List (List (Scope K)))
      → All IsOrdered ls
      → All IsOrdered (update_level i (remove_gen gen) ls)
  update_level-AreOrdered i gen [] o = tt
  update_level-AreOrdered zero gen (l ∷ ls) o = (remove_gen-IsOrdered gen l o.0, o.1)
  update_level-AreOrdered (suc i) gen (l ∷ ls) o = (o.0, update_level-AreOrdered i gen ls o.1)

  remove_gen-AreOrdered :
      (i : ℕ) (gen : FileId) (ls : List (List (Scope K)))
      → AreOrdered ls
      → AreOrdered (update_level i (remove_gen gen) ls)
  remove_gen-AreOrdered i gen [] o = tt
  remove_gen-AreOrdered zero gen (l ∷ ls) o = o
  remove_gen-AreOrdered (suc i) gen (l ∷ ls) o = update_level-AreOrdered i gen ls o

  push-AreOrdered :
      (s : Scope K) (ls : List (List (Scope K)))
      → AreOrdered ls
      → AreOrdered (update_level 0 (push s) ls)
  push-AreOrdered s [] o = tt
  push-AreOrdered s (l ∷ ls) o = o

  apply_edit-AreOrdered :
      (r : Bool) (e : VersionEdit K) (a : Applying K)
      → AreOrdered a.version.level_slice
      → AreOrdered (apply_edit r e a).version.level_slice
  unfolding apply_edit
  apply_edit-AreOrdered r (add zero s) a o = push-AreOrdered (without_wal s) a.version.level_slice o
  apply_edit-AreOrdered r (add (suc i) s) a o = o
  apply_edit-AreOrdered r (remove i gen) a o = remove_gen-AreOrdered i gen a.version.level_slice o
  apply_edit-AreOrdered r (latest_timestamp ts) a o = o
  apply_edit-AreOrdered r (new_log_length len) a o = o

  apply_each-AreOrdered :
      (r : Bool) (es : List (VersionEdit K)) (a : Applying K)
      → AreOrdered a.version.level_slice
      → AreOrdered (apply_each r es a).version.level_slice
  unfolding apply_each
  apply_each-AreOrdered r [] a o = o
  apply_each-AreOrdered r (e ∷ es) a o =
      apply_each-AreOrdered r es _ (apply_edit-AreOrdered r e a o)

  module _ (m : SliceOps (Scope K)) where
    Above-merge_by :
        (lo : K) (xs ys : List (Scope K))
        → Above lo xs
        → Above lo ys
        → Above lo (m.merge_by min_le xs ys)
    Above-merge_by lo [] ys a b = rw (m.merge_by-nil min_le ys) b
    Above-merge_by lo (x ∷ xs) [] a b = rw (m.merge_by-nil_right min_le (x ∷ xs)) a
    Above-merge_by lo (x ∷ xs) (y ∷ ys) a b = rw (m.merge_by-cons min_le x y xs ys) (
        either (Above lo) (x.min ≤? y.min) _ _ (λ _. (a.0, Above-merge_by lo xs (y ∷ ys) a.1 b))
          (λ _. (b.0, Above-merge_by lo (x ∷ xs) ys a b.1)))

    merge_by-IsOrdered :
        (xs ys : List (Scope K)) → IsOrdered xs → IsOrdered ys → IsOrdered (m.merge_by min_le xs ys)
    merge_by-IsOrdered [] ys o p = rw (m.merge_by-nil min_le ys) p
    merge_by-IsOrdered (x ∷ xs) [] o p = rw (m.merge_by-nil_right min_le (x ∷ xs)) o
    merge_by-IsOrdered (x ∷ xs) (y ∷ ys) o p = rw (m.merge_by-cons min_le x y xs ys) (
        either IsOrdered (x.min ≤? y.min) _ _
          (λ h. (
            Above-merge_by x.min xs (y ∷ ys) o.0 (h, Above-lower x.min y.min ys h p.0),
            merge_by-IsOrdered xs (y ∷ ys) o.1 p,
          ))
          (λ h. (
            Above-merge_by y.min (x ∷ xs) ys
                (swapped x.min y.min h, Above-lower y.min x.min xs (swapped x.min y.min h) o.0) p.0,
            merge_by-IsOrdered (x ∷ xs) ys o p.1,
          )))

    merge_level-IsOrdered :
        (batch l : List (Scope K)) → IsOrdered l → IsOrdered (merge_level m batch l)
    unfolding merge_level
    merge_level-IsOrdered [] l o = o
    merge_level-IsOrdered (s ∷ ss) l o =
        merge_by-IsOrdered (m.sort_by min_le (s ∷ ss)) l (sort_by-IsOrdered m (s ∷ ss)) o

    merge_levels-All :
        (bs ls : List (List (Scope K))) → All IsOrdered ls → All IsOrdered (merge_levels m bs ls)
    unfolding merge_levels
    merge_levels-All [] ls o = o
    merge_levels-All (b ∷ bs) [] o = tt
    merge_levels-All (b ∷ bs) (l ∷ ls) o =
        (merge_level-IsOrdered b l o.0, merge_levels-All bs ls o.1)

    merge_levels-AreOrdered :
        (bs ls : List (List (Scope K))) → AreOrdered ls → AreOrdered (merge_levels m bs ls)
    unfolding merge_levels
    merge_levels-AreOrdered [] ls o = o
    merge_levels-AreOrdered (b ∷ bs) [] o = tt
    merge_levels-AreOrdered (b ∷ bs) (l ∷ ls) o = merge_levels-All bs ls o

    -- Whatever a list of edits is, in recovery or not: where the tables of each level above 0 are in
    -- the order of their least keys, they are so in the version that the list makes.
    pub apply_all-AreOrdered :
        (r : Bool) (edits : List (VersionEdit K)) (v : Version K) (wal : List FileId)
        (sst : List SsTableId)
        → AreOrdered v.level_slice
        → AreOrdered (apply_all m r edits v wal sst).version.level_slice
    unfolding apply_all
    apply_all-AreOrdered r edits v wal sst o =
        let a = apply_each r edits (starting v wal sst) in
        merge_levels-AreOrdered a.batch_add a.version.level_slice
          (apply_each-AreOrdered r edits (starting v wal sst) o)
