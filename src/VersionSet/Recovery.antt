-- ===== src/VersionSet/Recovery.antt =====
-- What `apply_edits` makes of a version log that is replayed.
use tonbo.Prelude.{
  ℕ, zero, suc, ◌<◌, Bool, List, [], ◌∷◌, ◌++◌, map, ◌≡◌, refl, ◌∙◌, arith, length, In,
}
use tonbo.Key.{Key}
use tonbo.Scope.{Scope, FileId}
use tonbo.Version.{Version, level}
use tonbo.Version.Edit.{VersionEdit, SsTableId, add, remove, latest_timestamp, new_log_length}
use tonbo.VersionSet.{SliceOps, Applying, without_wal, apply_edit, apply_each, apply_all}
use tonbo.VersionSet.Levels.{length-update_level, In-push, In-pushed, In-merge_levels}

module _ {ℓ} {K : Type ℓ} where
  -- the numbers of levels stay
  abbrev SameLevels : Applying K → Applying K → Type 0
  SameLevels a b =
      (length b.version.level_slice ≡ length a.version.level_slice)
      × (length b.batch_add ≡ length a.batch_add)

  apply_edit-SameLevels :
      (r : Bool) (e : VersionEdit K) (a : Applying K) → SameLevels a (apply_edit r e a)
  unfolding apply_edit
  apply_edit-SameLevels r (add zero s) a = (length-update_level 0 _ a.version.level_slice, refl)
  apply_edit-SameLevels r (add (suc i) s) a = (refl, length-update_level (suc i) _ a.batch_add)
  apply_edit-SameLevels r (remove i gen) a = (length-update_level i _ a.version.level_slice, refl)
  apply_edit-SameLevels r (latest_timestamp ts) a = (refl, refl)
  apply_edit-SameLevels r (new_log_length len) a = (refl, refl)

  apply_each-SameLevels :
      (r : Bool) (es : List (VersionEdit K)) (a : Applying K) → SameLevels a (apply_each r es a)
  unfolding apply_each
  apply_each-SameLevels r [] a = (refl, refl)
  apply_each-SameLevels r (e ∷ es) a =
      let p = apply_edit-SameLevels r e a in
      let q = apply_each-SameLevels r es (apply_edit r e a) in (q.0 ∙ p.0, q.1 ∙ p.1)

  -- no edit takes a table out of what is batched
  apply_edit-In :
      (r : Bool) (e : VersionEdit K) (j : ℕ) {t : Scope K} (a : Applying K)
      → In t (level a.batch_add j)
      → In t (level (apply_edit r e a).batch_add j)
  unfolding apply_edit
  apply_edit-In r (add zero s) j a h = h
  apply_edit-In r (add (suc i) s) j a h = In-push (suc i) j (without_wal s) a.batch_add h
  apply_edit-In r (remove i gen) j a h = h
  apply_edit-In r (latest_timestamp ts) j a h = h
  apply_edit-In r (new_log_length len) j a h = h

  apply_each-In :
      (r : Bool) (es : List (VersionEdit K)) (j : ℕ) {t : Scope K} (a : Applying K)
      → In t (level a.batch_add j)
      → In t (level (apply_each r es a).batch_add j)
  unfolding apply_each
  apply_each-In r [] j a h = h
  apply_each-In r (e ∷ es) j a h = apply_each-In r es j (apply_edit r e a) (apply_edit-In r e j a h)

  -- a table that is added is batched to the end
  apply_each-batches :
      (r : Bool) (before after : List (VersionEdit K)) (i : ℕ) (s : Scope K) (a : Applying K)
      → suc i < length a.batch_add
      → In
          (without_wal s)
          (level (apply_each r (before ++ add (suc i) s ∷ after) a).batch_add (suc i))
  unfolding apply_each apply_edit
  apply_each-batches r [] after i s a bound =
      apply_each-In r after (suc i) (apply_edit r (add (suc i) s) a)
        (In-pushed (suc i) (without_wal s) a.batch_add bound)
  apply_each-batches r (e ∷ before) after i s a bound =
      let same = (apply_edit-SameLevels r e a).1 in
      apply_each-batches r before after i s (apply_edit r e a) (omega arith)

length-map_const {ℓ κ} :
    {A : Type ℓ} {B : Type κ} (b : B) (xs : List A) → length (map (λ _. b) xs) ≡ length xs
length-map_const b [] = refl
length-map_const b (x ∷ xs) = omega (arith, length-map_const b xs)

module _ {ℓ} {K : Type ℓ} ⦃k : Key K⦄ (m : SliceOps (Scope K)) where
  -- A table that a list of edits adds to a level above 0 is in the version that the list makes,
  -- whatever the edits after it are: also if one of them removes it.
  pub apply_all-keeps_added :
      (r : Bool) (before after : List (VersionEdit K)) (i : ℕ) (s : Scope K) (v : Version K)
      (wal : List FileId) (sst : List SsTableId)
      → suc i < length v.level_slice
      → In (without_wal s) (
          level
            (apply_all m r (before ++ add (suc i) s ∷ after) v wal sst).version.level_slice
            (suc i))
  unfolding apply_all
  apply_all-keeps_added r before after i s v wal sst bound =
      let start : Applying K = record {
        version = v;
        batch_add = map (λ _. []) v.level_slice;
        deleted_wal = wal;
        deleted_sst = sst;
      } in
      let es = before ++ add (suc i) s ∷ after in
      let same = (apply_each-SameLevels r es start).0 in
      let len = length-map_const {B = List (Scope K)} [] v.level_slice in
      In-merge_levels m (suc i) (apply_each r es start).batch_add
        (apply_each r es start).version.level_slice (omega arith)
        (apply_each-batches r before after i s start (omega arith))
