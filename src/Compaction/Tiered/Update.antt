-- ===== src/Compaction/Tiered/Update.antt =====
-- What the update of the manifest makes of the tiers.
use tonbo.Prelude.{
  ℕ, suc, ◌+◌, ◌%◌, ◌<◌, ◌≡◌, refl, ap, sym, ◌∙◌, arith, Bool, true, false, Option, none, some,
  List, [], ◌∷◌, ◌++◌, map, length, if◌then◌else◌, subst, append_assoc, some-eq, ◌⊎◌, inl, inr,
}
use tonbo.Prelude.Result.{Result, ok, err, ok-injective}
use tonbo.Compaction.{CompactionError, panicked}
use tonbo.Key.{Key}
use tonbo.Scope.{Scope, FileId}
use tonbo.Version.{level, increase_ts}
use tonbo.Version.Edit.{VersionEdit, SsTableId, add, remove, latest_timestamp, new_log_length}
use tonbo.VersionSet.{
  SliceOps, VersionSet, are_in_range, apply_all, apply_current, apply_edits, compact_log, clean,
}
use tonbo.Compaction.Leveled.{removals, gens}
use tonbo.Compaction.Tiered.{update_with}
use tonbo.Compaction.Tiered.Step.{moved, apply_all-moved}

some_under {ℓ} :
    {A : Type ℓ} (c : Bool) (x r : A) → (if c then some x else none) ≡ some r → (c ≡ true) × (x ≡ r)
some_under true x r h = (refl, some-eq _ _ h)
some_under false x r h = cc

module _ {ℓ} {K : Type ℓ} where
  in_range-add :
      (i : ℕ) (s : Scope K) (es : List (VersionEdit K)) (n : ℕ)
      → are_in_range n (add i s ∷ es) ≡ true
      → i < n
  unfolding are_in_range
  in_range-add i s es n h = ground arith

module _ {ℓ} {K : Type ℓ} ⦃k : Key K⦄ (m : SliceOps (Scope K)) where
  rewritten :
      (c : Bool) (fresh : FileId) (s : VersionSet K)
      → (if c then clean (compact_log fresh s) else (s, [], [])).0.current.level_slice
        ≡ s.current.level_slice
  unfolding clean compact_log
  rewritten true fresh s = refl
  rewritten false fresh s = refl

  -- the tiers that a list of edits makes
  abbrev levels_by : VersionSet K → List (VersionEdit K) → List (List (Scope K))
  levels_by s es = (apply_all m false es s.current s.deleted_wal s.deleted_sst).version.level_slice

  abbrev written_length : VersionSet K → List (VersionEdit K) → VersionEdit K
  written_length s es = new_log_length ((s.current.log_length + length es) % 4294967296)

  apply_edits-levels :
      (threshold : ℕ) (fresh : FileId) (es : List (VersionEdit K)) (gens : Option (List SsTableId))
      (s : VersionSet K) (r : VersionSet K × List FileId × List SsTableId)
      → apply_edits m threshold fresh es gens false s ≡ some r
      → (are_in_range (length s.current.level_slice) es ≡ true)
        × (r.0.current.level_slice ≡ levels_by s (es ++ written_length s es ∷ []))
  unfolding apply_edits apply_current
  apply_edits-levels threshold fresh es gens s r h =
      let x = some_under (are_in_range (length s.current.level_slice) es) _ r h in
      (
        x.0,
        ap (λ (z : VersionSet K × List FileId × List SsTableId). z.0.current.level_slice) (sym x.1)
            ∙ rewritten _ fresh (apply_current m es gens false s).1,
      )

  abbrev stamped_set : VersionSet K → VersionSet K
  stamped_set s = record s { current = (increase_ts s.current).1 }

  abbrev stamp : VersionSet K → VersionEdit K
  stamp s = latest_timestamp (increase_ts s.current).0

  module _ {κ} {W : Type κ} (threshold : ℕ) (fresh : W → FileId) where
    update_case-levels :
        (s : VersionSet K) (es : List (VersionEdit K)) (deletes : List SsTableId) (w : W)
        (s' : VersionSet K) (done : Option (VersionSet K × List FileId × List SsTableId))
        → apply_edits m threshold (fresh w) es (some deletes) false s ≡ done
        → (elim done as (λ _. Result (VersionSet K) CompactionError) [
          | none ↦ err panicked
          | some r ↦ ok r.0
        ])
          ≡ ok s'
        → (are_in_range (length s.current.level_slice) es ≡ true)
          × (s'.current.level_slice ≡ levels_by s (es ++ written_length s es ∷ []))
    update_case-levels s es deletes w s' none p q = cc
    update_case-levels s es deletes w s' (some r) p q =
        let x = apply_edits-levels threshold (fresh w) es (some deletes) s r p in
        (x.0, ap (λ (z : VersionSet K). z.current.level_slice) (sym (ok-injective r.0 s' q)) ∙ x.1)

    update_with-levels :
        (s : VersionSet K) (e : VersionEdit K) (es : List (VersionEdit K))
        (deletes : List SsTableId) (w : W) (s' : VersionSet K)
        → update_with m threshold fresh s (e ∷ es) deletes w ≡ ok s'
        → (are_in_range (length s.current.level_slice) (e ∷ es ++ stamp s ∷ []) ≡ true)
          × (s'.current.level_slice
              ≡ levels_by
                  (stamped_set s)
                  ((e ∷ es) ++ stamp s ∷ written_length s (e ∷ es ++ stamp s ∷ []) ∷ []))
    unfolding update_with increase_ts
    update_with-levels s e es deletes w s' q =
        let x =
          update_case-levels (stamped_set s) ((e ∷ es) ++ stamp s ∷ []) deletes w s' _ refl q in
        (
          x.0,
          x.1
              ∙ ap (levels_by (stamped_set s)) (
                  append_assoc (e ∷ es) (stamp s ∷ [])
                    (written_length s (e ∷ es ++ stamp s ∷ []) ∷ [])),
        )

    levels_by-moved :
        (i : ℕ) (ss l : List (Scope K)) (ts n : ℕ) (s : VersionSet K)
        → level s.current.level_slice i ≡ l
        → levels_by s
            ((map (add (suc i)) ss ++ removals i l) ++ latest_timestamp ts ∷ new_log_length n ∷ [])
          ≡ moved m i ss s.current.level_slice
    levels_by-moved i ss l ts n s h =
        subst
          (λ z.
            levels_by s (
              (map (add (suc i)) ss ++ removals i z) ++ latest_timestamp ts ∷ new_log_length n ∷ [])
            ≡ moved m i ss s.current.level_slice)
          h (apply_all-moved m i ss ts n s.current s.deleted_wal s.deleted_sst)

    pub update_with-moved :
        (i : ℕ) (ss : List (Scope K)) (t : Scope K) (ts : List (Scope K)) (deletes : List SsTableId)
        (w : W) (s s' : VersionSet K)
        → level s.current.level_slice i ≡ t ∷ ts
        → update_with m threshold fresh s (map (add (suc i)) ss ++ removals i (t ∷ ts)) deletes w
          ≡ ok s'
        → ((ss ≡ []) ⊎ (suc i < length s.current.level_slice))
          × (s'.current.level_slice ≡ moved m i ss s.current.level_slice)
    unfolding increase_ts
    update_with-moved i [] t ts deletes w s s' h q =
        let u = update_with-levels s (remove i t.gen) (removals i ts) deletes w s' q in
        (inl refl, u.1 ∙ levels_by-moved i [] (t ∷ ts) _ _ (stamped_set s) h)
    update_with-moved i (x ∷ ss) t ts deletes w s s' h q =
        let u =
          update_with-levels s (add (suc i) x) (map (add (suc i)) ss ++ removals i (t ∷ ts)) deletes
            w s' q in
        (
          inr (in_range-add (suc i) x _ _ u.0),
          u.1 ∙ levels_by-moved i (x ∷ ss) (t ∷ ts) _ _ (stamped_set s) h,
        )
