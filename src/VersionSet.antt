-- ===== src/VersionSet.antt =====
-- src/version/set.rs: `VersionSet`, the current version and the log of its edits.
-- The file operations are taken to succeed. `log` is what the version log `log_id` holds, and the
-- shared counter of timestamps is that of the current version. Where an edit is of a level
-- that there is not, `apply_edits` panics; the steps that it is made of are those of edits in range.
mod Levels
mod Recovery
mod Order
pub mod Rewrite
pub mod Merge
pub mod Logs
mod Examples
use tonbo.Prelude.{
  ℕ, zero, suc, ◌+◌, ◌%◌, Bool, true, false, ◌||◌, Option, none, some, List, [], ◌∷◌, ◌++◌, map,
  leb, ltb, ◌&&◌, ◌==◌, length, Sorted, if◌then◌else◌, ◌≡◌,
}
use tonbo.Prelude.Rearranged.{Rearranged}
use tonbo.Key.{Key, ◌≤?◌}
use tonbo.Scope.{Scope, FileId}
use tonbo.Version.{Version}
use tonbo.Version.Edit.{VersionEdit, SsTableId, add, remove, latest_timestamp, new_log_length}

-- `itertools::merge_by` of two lists, where the head that is taken is the first one's where the test
-- says so, and `sort_unstable_by_key` of a slice, where the test compares the keys: of elements with
-- equal keys, any may be the first.
pub record SliceOps {ℓ} (A : Type ℓ) : Type ℓ where
  pub merge_by : (A → A → Bool) → List A → List A → List A
  pub merge_by-nil : (f : A → A → Bool) (ys : List A) → merge_by f [] ys ≡ ys
  pub merge_by-nil_right : (f : A → A → Bool) (xs : List A) → merge_by f xs [] ≡ xs
  pub merge_by-cons :
      (f : A → A → Bool) (x y : A) (xs ys : List A)
      → merge_by f (x ∷ xs) (y ∷ ys)
        ≡ (if f x y then x ∷ merge_by f xs (y ∷ ys) else y ∷ merge_by f (x ∷ xs) ys)
  pub sort_by : (A → A → Bool) → List A → List A
  pub sort_by-Rearranged : (f : A → A → Bool) (xs : List A) → Rearranged xs (sort_by f xs)
  pub sort_by-Sorted :
      (f : A → A → Bool) (xs : List A)
      → ((a b c : A) → f a b ≡ true → f b c ≡ true → f a c ≡ true)
      → ((a b : A) → f a b ≡ false → f b a ≡ true)
      → Sorted (λ a b. f a b ≡ true) (sort_by f xs)

pub record VersionSet {ℓ} (K : Type ℓ) : Type ℓ where
  pub current : Version K
  pub log_id : FileId
  pub log : List (VersionEdit K)
  pub deleted_wal : List FileId
  pub deleted_sst : List SsTableId

-- the local variables of the loop of `apply_edits`; `batch_add` has a list for each level
pub record Applying {ℓ} (K : Type ℓ) : Type ℓ where
  pub version : Version K
  pub batch_add : List (List (Scope K))
  pub deleted_wal : List FileId
  pub deleted_sst : List SsTableId

abbrev pub wals : Option (List FileId) → List FileId
wals none = []
wals (some ids) = ids

module _ {ℓ} {A : Type ℓ} where
  -- `levels[i]` is replaced
  abbrev pub update_level : ℕ → (List A → List A) → List (List A) → List (List A)
  update_level i f [] = []
  update_level zero f (l ∷ ls) = f l ∷ ls
  update_level (suc i) f (l ∷ ls) = l ∷ update_level i f ls

module _ {ℓ} {K : Type ℓ} where
  abbrev pub push : Scope K → List (Scope K) → List (Scope K)
  push s l = l ++ s ∷ []

  -- the first table of the file is removed
  unfoldable pub remove_gen : FileId → List (Scope K) → List (Scope K)
  remove_gen gen [] = []
  remove_gen gen (s ∷ ss) = if s.gen == gen then ss else s ∷ remove_gen gen ss

  abbrev pub without_wal : Scope K → Scope K
  without_wal s = record s { wal_ids = none }

  abbrev pub with_levels : Version K → List (List (Scope K)) → Version K
  with_levels v ls = record v { level_slice = ls }

  -- the local variables before the loop
  abbrev pub starting : Version K → List FileId → List SsTableId → Applying K
  starting v wal sst = record {
    version = v;
    batch_add = map (λ _. []) v.level_slice;
    deleted_wal = wal;
    deleted_sst = sst;
  }

  abbrev pub in_range : ℕ → VersionEdit K → Bool
  in_range levels (add i scope) = ltb i levels
  in_range levels (remove i gen) = ltb i levels
  in_range levels _ = true

  unfoldable pub are_in_range : ℕ → List (VersionEdit K) → Bool
  are_in_range levels [] = true
  are_in_range levels (e ∷ es) = in_range levels e && are_in_range levels es

  -- the four cases of the loop, for an edit whose level is in range
  unfoldable pub apply_edit : Bool → VersionEdit K → Applying K → Applying K
  unfolding remove_gen
  apply_edit is_recover (add zero scope) a = record a {
    version =
        with_levels a.version (update_level 0 (push (without_wal scope)) a.version.level_slice);
    deleted_wal = a.deleted_wal ++ wals scope.wal_ids;
  }
  apply_edit is_recover (add (suc i) scope) a = record a {
    batch_add = update_level (suc i) (push (without_wal scope)) a.batch_add;
    deleted_wal = a.deleted_wal ++ wals scope.wal_ids;
  }
  apply_edit is_recover (remove i gen) a = record a {
    version = with_levels a.version (update_level i (remove_gen gen) a.version.level_slice);
    deleted_sst =
        a.deleted_sst ++ (if is_recover then record { file_id = gen; level = i } ∷ [] else []);
  }
  apply_edit is_recover (latest_timestamp ts) a = record a {
    version = record (a.version) {
      ts = ts;
      timestamp = if is_recover then ts else a.version.timestamp;
    };
  }
  apply_edit is_recover (new_log_length len) a = record a {
    version = record (a.version) { log_length = len };
  }

  unfoldable pub apply_each : Bool → List (VersionEdit K) → Applying K → Applying K
  unfolding apply_edit
  apply_each is_recover [] a = a
  apply_each is_recover (e ∷ es) a = apply_each is_recover es (apply_edit is_recover e a)

module _ {ℓ} {K : Type ℓ} ⦃k : Key K⦄ where
  -- the keys of the sort and of the merge, `scope.min`
  abbrev pub min_le : Scope K → Scope K → Bool
  min_le a b = a.min ≤? b.min

module _ {ℓ} {K : Type ℓ} ⦃k : Key K⦄ (m : SliceOps (Scope K)) where
  -- what was batched for a level is sorted and merged into it
  unfoldable pub merge_level : List (Scope K) → List (Scope K) → List (Scope K)
  merge_level [] level = level
  merge_level (s ∷ ss) level = m.merge_by min_le (m.sort_by min_le (s ∷ ss)) level

  unfoldable pub merge_levels :
      List (List (Scope K)) → List (List (Scope K)) → List (List (Scope K))
  unfolding merge_level
  merge_levels [] levels = levels
  merge_levels (b ∷ bs) [] = []
  merge_levels (b ∷ bs) (l ∷ ls) = merge_level b l ∷ merge_levels bs ls

  -- the version, and the files to delete, that a list of edits makes
  unfoldable pub apply_all :
      Bool → List (VersionEdit K) → Version K → List FileId → List SsTableId → Applying K
  unfolding apply_each merge_levels
  apply_all is_recover edits v wal sst =
      let a = apply_each is_recover edits (starting v wal sst) in
      record a { version = with_levels a.version (merge_levels a.batch_add a.version.level_slice) }

  -- `apply_edits` up to the test of the threshold, and its edit length
  unfoldable pub apply_current :
      List (VersionEdit K) → Option (List SsTableId) → Bool → VersionSet K → ℕ × VersionSet K
  unfolding apply_all
  apply_current edits delete_gens is_recover s =
      let edit_len = (s.current.log_length + length edits) % 4294967296 in
      let written = if is_recover then edits else edits ++ new_log_length edit_len ∷ [] in
      let a = apply_all is_recover written s.current s.deleted_wal s.deleted_sst in
      (
        edit_len,
        record s {
          current = a.version;
          log = if is_recover then s.log else s.log ++ written;
          deleted_wal = a.deleted_wal;
          deleted_sst = elim delete_gens [
            | none ↦ a.deleted_sst
            | some gens ↦ a.deleted_sst ++ gens
          ];
        },
      )

-- `Version::to_edits`
module _ {ℓ} {K : Type ℓ} where
  pub edits_from : ℕ → List (List (Scope K)) → List (VersionEdit K)
  edits_from i [] = []
  edits_from i (l ∷ ls) = map (add i) l ++ edits_from (suc i) ls

  pub to_edits : Version K → List (VersionEdit K)
  unfolding edits_from
  to_edits v = edits_from 0 v.level_slice ++ latest_timestamp v.timestamp ∷ new_log_length 0 ∷ []

  -- The new log holds the whole version; the old one is removed. `fresh` is `generate_file_id()`.
  unfoldable pub compact_log : FileId → VersionSet K → VersionSet K
  unfolding to_edits
  compact_log fresh s =
      let v = record (s.current) { log_length = 0 } in
      record s { current = v; log_id = fresh; log = to_edits v }

  -- The files of `deleted_wal` are removed, and those of `deleted_sst` handed to the cleaner: what is
  -- done is the second part.
  unfoldable pub clean : VersionSet K → VersionSet K × List FileId × List SsTableId
  clean s = (record s { deleted_wal = []; deleted_sst = [] }, s.deleted_wal, s.deleted_sst)

module _ {ℓ} {K : Type ℓ} ⦃k : Key K⦄ (m : SliceOps (Scope K)) where
  -- `apply_edits`: with a log that has grown to the threshold, or in recovery, it is written anew.
  -- There is no result where an edit is of a level that there is not: `level_slice[level]` panics.
  unfoldable pub apply_edits :
      (threshold : ℕ)
      → (fresh : FileId) → List (VersionEdit K)
      → Option (List SsTableId)
      → Bool
      → VersionSet K
      → Option (VersionSet K × List FileId × List SsTableId)
  unfolding apply_current compact_log clean
  apply_edits threshold fresh edits delete_gens is_recover s =
      let (edit_len, s') = apply_current m edits delete_gens is_recover s in
      let done =
        if leb threshold edit_len || is_recover
        then clean (compact_log fresh s')
        else (s', [], []) in
      if are_in_range (length s.current.level_slice) edits then some done else none
