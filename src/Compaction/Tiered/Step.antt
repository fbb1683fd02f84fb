-- ===== src/Compaction/Tiered/Step.antt =====
-- What a round of the tiered compaction makes of the tiers.
use tonbo.Prelude.{
  ℕ, zero, suc, ◌<◌, ◌≡◌, ◌==◌, refl, sym, ap, ◌∙◌, arith, true, false, List, [], ◌∷◌, ◌++◌, map,
  length, append-nil, append_assoc,
}
use tonbo.Key.{Key}
use tonbo.Scope.{Scope, FileId}
use tonbo.Version.{Version, level}
use tonbo.Version.Edit.{VersionEdit, SsTableId, add, remove, latest_timestamp, new_log_length}
use tonbo.VersionSet.{
  SliceOps, Applying, update_level, remove_gen, with_levels, without_wal, apply_edit, apply_each,
  merge_level, merge_levels, starting, apply_all,
}
use tonbo.VersionSet.Rewrite.{grow, into_batch, apply_each-level}
use tonbo.Compaction.Leveled.{removals}
use tonbo.Compaction.Tiered.Counts.{Below}

module _ {ℓ} {A : Type ℓ} where
  abbrev pub clear : ℕ → List (List A) → List (List A)
  clear i ls = update_level i (λ _. []) ls

module _ {ℓ} {K : Type ℓ} where
  clear-empty : (i : ℕ) (ls : List (List (Scope K))) → level ls i ≡ [] → clear i ls ≡ ls
  clear-empty i [] h = refl
  clear-empty zero (l ∷ ls) h = ap (λ t. t ∷ ls) (sym h)
  clear-empty (suc i) (l ∷ ls) h = ap (λ t. l ∷ t) (clear-empty i ls h)

  clear-update_level :
      (i : ℕ) (f : List (Scope K) → List (Scope K)) (ls : List (List (Scope K)))
      → clear i (update_level i f ls) ≡ clear i ls
  clear-update_level i f [] = refl
  clear-update_level zero f (l ∷ ls) = refl
  clear-update_level (suc i) f (l ∷ ls) = ap (λ t. l ∷ t) (clear-update_level i f ls)

  level-update_level :
      (i : ℕ) (f : List (Scope K) → List (Scope K)) (ls : List (List (Scope K)))
      → f [] ≡ []
      → level (update_level i f ls) i ≡ f (level ls i)
  level-update_level i f [] h = sym h
  level-update_level zero f (l ∷ ls) h = refl
  level-update_level (suc i) f (l ∷ ls) h = level-update_level i f ls h

  remove_gen-first : (s : Scope K) (ss : List (Scope K)) → remove_gen s.gen (s ∷ ss) ≡ ss
  unfolding remove_gen
  remove_gen-first s ss = (let h : (s.gen == s.gen) ≡ true = ground arith in rw h refl)

  remove_gen-nil : (gen : FileId) → remove_gen {K = K} gen [] ≡ []
  unfolding remove_gen
  remove_gen-nil gen = refl

  apply_each-removals :
      (i : ℕ) (l : List (Scope K)) (rest : List (VersionEdit K)) (a : Applying K)
      → level a.version.level_slice i ≡ l
      → apply_each false (removals i l ++ rest) a
        ≡ apply_each false rest
            (record a { version = with_levels a.version (clear i a.version.level_slice) })
  unfolding apply_each apply_edit
  apply_each-removals i [] rest a h = rw (clear-empty i a.version.level_slice h) refl
  apply_each-removals i (s ∷ ss) rest a h =
      apply_each-removals i ss rest (apply_edit false (remove i s.gen) a) (
        level-update_level i (remove_gen s.gen) a.version.level_slice (remove_gen-nil s.gen)
        ∙ ap (remove_gen s.gen) h
        ∙ remove_gen-first s ss)
      ∙ rw (clear-update_level i (remove_gen s.gen) a.version.level_slice, append-nil a.deleted_sst)
          refl

module _ {ℓ} {K : Type ℓ} ⦃k : Key K⦄ (m : SliceOps (Scope K)) where
  -- the tiers after a round: the tables that were built are merged into the tier after `i`
  abbrev pub moved : ℕ → List (Scope K) → List (List (Scope K)) → List (List (Scope K))
  moved i ss ls = merge_levels m (grow (suc i) (map without_wal ss) (map (λ _. []) ls)) (clear i ls)

  pub apply_all-moved :
      (i : ℕ) (ss : List (Scope K)) (ts n : ℕ) (v : Version K) (wal : List FileId)
      (sst : List SsTableId)
      → (apply_all m false
          (map (add (suc i)) ss
            ++ removals i (level v.level_slice i)
            ++ latest_timestamp ts ∷ new_log_length n ∷ [])
          v
          wal
          sst).version.level_slice
        ≡ moved i ss v.level_slice
  unfolding apply_all apply_each apply_edit
  apply_all-moved i ss ts n v wal sst =
      let l = level v.level_slice i in
      let end : List (VersionEdit K) = latest_timestamp ts ∷ new_log_length n ∷ [] in
      let finish = (λ (a : Applying K). merge_levels m a.batch_add a.version.level_slice) in
      ap (λ es. finish (apply_each false es (starting v wal sst)))
        (append_assoc (map (add (suc i)) ss) (removals i l) end)
      ∙ ap finish (apply_each-level false i ss (removals i l ++ end) (starting v wal sst))
      ∙ ap finish (apply_each-removals i l end (into_batch (suc i) ss (starting v wal sst)) refl)

  length-merge_levels : (bs ls : List (List (Scope K))) → length (merge_levels m bs ls) ≡ length ls
  unfolding merge_levels
  length-merge_levels [] ls = refl
  length-merge_levels (b ∷ bs) [] = refl
  length-merge_levels (b ∷ bs) (l ∷ ls) = ap suc (length-merge_levels bs ls)

  abbrev pub counts : List (List (Scope K)) → List ℕ
  counts ls = map (λ l. length l) ls

  length-counts : (ls : List (List (Scope K))) → length (counts ls) ≡ length ls
  length-counts [] = refl
  length-counts (l ∷ ls) = ap suc (length-counts ls)

  -- a round from a tier that has a table goes down
  pub moved-Below :
      (i : ℕ) (ss : List (Scope K)) (ls : List (List (Scope K)))
      → 0 < length (level ls i)
      → Below (counts (moved i ss ls)) (counts ls)
  unfolding merge_levels merge_level
  moved-Below i ss [] h = absurd (omega arith)
  moved-Below zero ss (l ∷ ls) h =
      Below.falls h (length-counts _ ∙ length-merge_levels _ ls ∙ sym (length-counts ls))
  moved-Below (suc i) ss (l ∷ ls) h = Below.same (moved-Below i ss ls h)
