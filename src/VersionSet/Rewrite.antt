-- ===== src/VersionSet/Rewrite.antt =====
-- The log that `compact_log` writes, and its replay.
use tonbo.Prelude.{
  Bool, ℕ, zero, suc, true, List, [], ◌∷◌, ◌++◌, map, ◌≡◌, refl, ap, ◌∙◌, All, append-nil,
  append_assoc,
}
use tonbo.Key.{Key, ◌≺◌}
use tonbo.Scope.{Scope, FileId}
use tonbo.Version.{Version}
use tonbo.Version.Edit.{VersionEdit, add, latest_timestamp, new_log_length}
use tonbo.VersionSet.{
  VersionSet, SliceOps, Applying, update_level, wals, without_wal, with_levels, apply_edit,
  apply_each, merge_level, merge_levels, starting, apply_all, edits_from, to_edits, compact_log,
}
use tonbo.VersionSet.Order.{IsStrict, AreStrict, sort_by-strict}

module _ {ℓ} {A : Type ℓ} where
  abbrev pub grow : ℕ → List A → List (List A) → List (List A)
  grow i xs ls = update_level i (λ l. l ++ xs) ls

  grow-nil : (i : ℕ) (ls : List (List A)) → grow i [] ls ≡ ls
  grow-nil i [] = refl
  grow-nil zero (l ∷ ls) = rw (append-nil l) refl
  grow-nil (suc i) (l ∷ ls) = rw (grow-nil i ls) refl

  grow-grow :
      (i : ℕ) (xs ys : List A) (ls : List (List A))
      → grow i ys (grow i xs ls) ≡ grow i (xs ++ ys) ls
  grow-grow i xs ys [] = refl
  grow-grow zero xs ys (l ∷ ls) = rw (append_assoc l xs ys) refl
  grow-grow (suc i) xs ys (l ∷ ls) = rw (grow-grow i xs ys ls) refl

module _ {ℓ} {K : Type ℓ} where
  abbrev pub forget : List (List (Scope K)) → List (List (Scope K))
  forget ls = map (λ l. map without_wal l) ls

  abbrev empties : List (List (Scope K)) → List (List (Scope K))
  empties ls = map (λ _. []) ls

  empties_twice : (ls : List (List (Scope K))) → empties (empties ls) ≡ empties ls
  empties_twice [] = refl
  empties_twice (l ∷ ls) = rw (empties_twice ls) refl

  pub all_wals : List (Scope K) → List FileId
  all_wals [] = []
  all_wals (s ∷ ss) = wals s.wal_ids ++ all_wals ss

  abbrev into_version : List (Scope K) → Applying K → Applying K
  into_version l a = record a {
    version = with_levels a.version (grow 0 (map without_wal l) a.version.level_slice);
    deleted_wal = a.deleted_wal ++ all_wals l;
  }

  abbrev pub into_batch : ℕ → List (Scope K) → Applying K → Applying K
  into_batch i l a = record a {
    batch_add = grow i (map without_wal l) a.batch_add;
    deleted_wal = a.deleted_wal ++ all_wals l;
  }

  apply_each-level_0 :
      (l : List (Scope K)) (rest : List (VersionEdit K)) (a : Applying K)
      → apply_each true (map (add 0) l ++ rest) a ≡ apply_each true rest (into_version l a)
  unfolding apply_each apply_edit all_wals
  apply_each-level_0 [] rest a =
      rw (grow-nil 0 a.version.level_slice, append-nil a.deleted_wal) refl
  apply_each-level_0 (s ∷ ss) rest a =
      apply_each-level_0 ss rest (apply_edit true (add 0 s) a)
      ∙ rw
          (
            grow-grow 0 (without_wal s ∷ []) (map without_wal ss) a.version.level_slice,
            append_assoc a.deleted_wal (wals s.wal_ids) (all_wals ss),
          )
          refl

  pub apply_each-level :
      (r : Bool) (i : ℕ) (l : List (Scope K)) (rest : List (VersionEdit K)) (a : Applying K)
      → apply_each r (map (add (suc i)) l ++ rest) a ≡ apply_each r rest (into_batch (suc i) l a)
  unfolding apply_each apply_edit all_wals
  apply_each-level r i [] rest a = rw (grow-nil (suc i) a.batch_add, append-nil a.deleted_wal) refl
  apply_each-level r i (s ∷ ss) rest a =
      apply_each-level r i ss rest (apply_edit r (add (suc i) s) a)
      ∙ rw
          (
            grow-grow (suc i) (without_wal s ∷ []) (map without_wal ss) a.batch_add,
            append_assoc a.deleted_wal (wals s.wal_ids) (all_wals ss),
          )
          refl

  -- what the edits of the levels from `i` on make of the batches
  abbrev fill : ℕ → List (List (Scope K)) → List (List (Scope K)) → List (List (Scope K))
  fill i [] bs = bs
  fill i (l ∷ ls) bs = fill (suc i) ls (grow i (map without_wal l) bs)

  abbrev levels_wals : List (List (Scope K)) → List FileId → List FileId
  levels_wals [] wal = wal
  levels_wals (l ∷ ls) wal = levels_wals ls (wal ++ all_wals l)

  apply_each-edits_from :
      (i : ℕ) (ls : List (List (Scope K))) (rest : List (VersionEdit K)) (a : Applying K)
      → apply_each true (edits_from (suc i) ls ++ rest) a
        ≡ apply_each true rest (record a {
          batch_add = fill (suc i) ls a.batch_add;
          deleted_wal = levels_wals ls a.deleted_wal;
        })
  unfolding edits_from
  apply_each-edits_from i [] rest a = refl
  apply_each-edits_from i (l ∷ ls) rest a =
      ap (λ es. apply_each true es a)
        (append_assoc (map (add (suc i)) l) (edits_from (suc (suc i)) ls) rest)
      ∙ apply_each-level true i l (edits_from (suc (suc i)) ls ++ rest) a
      ∙ apply_each-edits_from (suc i) ls rest (into_batch (suc i) l a)

  fill-cons :
      (i : ℕ) (ls bs : List (List (Scope K))) (b : List (Scope K))
      → fill (suc i) ls (b ∷ bs) ≡ b ∷ fill i ls bs
  fill-cons i [] bs b = refl
  fill-cons i (l ∷ ls) bs b = fill-cons (suc i) ls (grow i (map without_wal l) bs) b

  fill-empties : (ls : List (List (Scope K))) → fill 0 ls (empties ls) ≡ forget ls
  fill-empties [] = refl
  fill-empties (l ∷ ls) =
      fill-cons 0 ls (empties ls) (map without_wal l)
      ∙ ap (λ t. map without_wal l ∷ t) (fill-empties ls)

module _ {ℓ} {K : Type ℓ} ⦃k : Key K⦄ where
  All-without_wal :
      (lo : K) (ss : List (Scope K))
      → All (λ (t : Scope K). lo ≺ t.min) ss
      → All (λ (t : Scope K). lo ≺ t.min) (map without_wal ss)
  All-without_wal lo [] h = tt
  All-without_wal lo (s ∷ ss) h = (h.0, All-without_wal lo ss h.1)

  map-IsStrict : (ss : List (Scope K)) → IsStrict ss → IsStrict (map without_wal ss)
  map-IsStrict [] o = tt
  map-IsStrict (s ∷ ss) o = (All-without_wal s.min ss o.0, map-IsStrict ss o.1)

  module _ (m : SliceOps (Scope K)) where
    merge_level-strict : (l : List (Scope K)) → IsStrict l → merge_level m l [] ≡ l
    unfolding merge_level
    merge_level-strict [] o = refl
    merge_level-strict (s ∷ ss) o = m.merge_by-nil_right _ _ ∙ sort_by-strict m (s ∷ ss) o

    merge_levels-forget :
        (ls : List (List (Scope K)))
        → All IsStrict ls
        → merge_levels m (forget ls) (empties ls) ≡ forget ls
    unfolding merge_levels
    merge_levels-forget [] o = refl
    merge_levels-forget (l ∷ ls) o =
        rw (merge_level-strict (map without_wal l) (map-IsStrict l o.0), merge_levels-forget ls o.1)
          refl

    abbrev ending : ℕ → List (VersionEdit K)
    ending t = latest_timestamp t ∷ new_log_length 0 ∷ []

    abbrev finished : Applying K → Version K
    finished a = with_levels a.version (merge_levels m a.batch_add a.version.level_slice)

    replayed_levels :
        (l : List (Scope K)) (ls : List (List (Scope K))) (t : ℕ) (w : Version K)
        → All IsStrict ls
        → finished (
            apply_each true
              (edits_from 0 (l ∷ ls) ++ ending t)
              (starting (with_levels w (empties (l ∷ ls))) [] []))
          ≡ record { ts = t; level_slice = forget (l ∷ ls); timestamp = t; log_length = 0 }
    unfolding edits_from apply_each apply_edit merge_levels merge_level
    replayed_levels l ls t w o =
        let start = starting (with_levels w (empties (l ∷ ls))) [] [] in
        ap (λ es. finished (apply_each true es start))
          (append_assoc (map (add 0) l) (edits_from 1 ls) (ending t))
        ∙ ap finished (apply_each-level_0 l (edits_from 1 ls ++ ending t) start)
        ∙ ap finished (apply_each-edits_from 0 ls (ending t) (into_version l start))
        ∙ rw
            (
              empties_twice ls,
              fill-cons 0 ls (empties ls) [],
              fill-empties ls,
              merge_levels-forget ls o,
            )
            refl

    replayed :
        (ls : List (List (Scope K))) (t : ℕ) (w : Version K)
        → AreStrict ls
        → finished (
            apply_each true
              (edits_from 0 ls ++ ending t)
              (starting (with_levels w (empties ls)) [] []))
          ≡ record { ts = t; level_slice = forget ls; timestamp = t; log_length = 0 }
    unfolding edits_from apply_each apply_edit merge_levels
    replayed [] t w o = refl
    replayed (l ∷ ls) t w o = replayed_levels l ls t w o

    -- Where the tables of each level above 0 are in the strict order of their least keys, the log that
    -- `compact_log` writes makes, of a version that has no tables, a version of the same tables in the
    -- same order, but without the ids of write-ahead logs, and of the same counter of timestamps; its
    -- own timestamp is that of the counter, and the length of its log is 0.
    pub apply_all-compact_log :
        (fresh : FileId) (s : VersionSet K) (w : Version K)
        → AreStrict s.current.level_slice
        → (apply_all m true
            (compact_log fresh s).log
            (with_levels w (empties s.current.level_slice))
            []
            []).version
          ≡ record {
            ts = s.current.timestamp;
            level_slice = forget s.current.level_slice;
            timestamp = s.current.timestamp;
            log_length = 0;
          }
    unfolding apply_all compact_log to_edits
    apply_all-compact_log fresh s w o = replayed s.current.level_slice s.current.timestamp w o
