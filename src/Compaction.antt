-- ===== src/Compaction.antt =====
-- src/compaction/mod.rs: what the two compactors share. Building tables is file access and Parquet:
-- an argument of the definitions that use it, which is told the tables to merge.
pub mod Leveled
pub mod Building
pub mod Tiered
use tonbo.Prelude.{
  ℕ, zero, suc, ◌+◌, ◌-◌, Option, none, some, List, [], ◌∷◌, leb, take, drop, length, if◌then◌else◌,
  Bool, ◌&&◌,
}
use tonbo.Prelude.Result.{Result, ok, err, ◌>>=◌}
use tonbo.Key.{Key}
use tonbo.Scope.{Scope, FileId}

-- `empty_level` of `CompactionError`; an index out of bounds or an underflow is a panic, and the
-- other errors, which come from files, are one.
pub data CompactionError : Type 0 where
  empty_level panicked file_error : CompactionError

-- what a merge reads: one table of level 0, or the tables `start` to `end` of a level, of which the
-- keys from `lower` to `upper`
pub data Source {ℓ} (K : Type ℓ) : Type ℓ where
  table : (level : ℕ) → FileId → Source K
  run : (level start end : ℕ) → (lower upper : K) → Source K

module _ {ℓ} {A : Type ℓ} where
  -- `slice[start..end]`
  unfoldable pub slice : ℕ → ℕ → List A → Result (List A) CompactionError
  slice start end xs =
      if leb start end && leb end (length xs)
      then ok (take (end - start) (drop start xs))
      else err panicked

  abbrev pub last? : List A → Option A
  last? [] = none
  last? (x ∷ []) = some x
  last? (x ∷ y ∷ xs) = last? (y ∷ xs)

  abbrev pub ok_or_empty : Option A → Result A CompactionError
  ok_or_empty none = err empty_level
  ok_or_empty (some a) = ok a

module _ {ℓ} {K : Type ℓ} where
  abbrev first? : List (Scope K) → Option (Scope K)
  first? [] = none
  first? (s ∷ ss) = some s

  -- the first table's smallest key and the last table's greatest
  unfoldable pub full_scope : List (Scope K) → Result (K × K) CompactionError
  full_scope ss = do a ← ok_or_empty (first? ss); b ← ok_or_empty (last? ss); ok (a.min, b.max)
