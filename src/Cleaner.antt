-- ===== src/Cleaner.antt =====
-- src/version/cleaner.rs: `Cleaner`, which removes the files of versions that no reader has any more.
-- The `BTreeMap` of the versions is a list in order. The removals of files are taken to succeed; they
-- are what a step returns.
pub mod Sweep
mod Examples
use tonbo.Prelude.{ℕ, Bool, true, false, List, [], ◌∷◌, ◌++◌, ◌==◌, if◌then◌else◌}
use tonbo.Key.Order.{nat_key}
use tonbo.Timestamp.{Timestamp}
use tonbo.Scope.{FileId}
use tonbo.Version.Edit.{SsTableId}
use tonbo.OrderedMap.Tree.{insert_entry}

pub data CleanTag : Type 0 where
  add : (ts : Timestamp) → (gens : List SsTableId) → CleanTag
  clean : (ts : Timestamp) → CleanTag
  recover_clean : (wal_id : FileId) → (level : ℕ) → CleanTag

-- what the map has of a version
pub record Pending : Type 0 where
  pub gens : List SsTableId
  pub dropped : Bool

abbrev pub GensMap : Type 0
GensMap = List (Timestamp × Pending)

-- `if let Some((_, dropped)) = gens_map.get_mut(&ts) { *dropped = true }`
unfoldable pub mark : Timestamp → GensMap → GensMap
mark ts [] = []
mark ts (e ∷ es) = if e.0 == ts then (e.0, record (e.1) { dropped = true }) ∷ es else e ∷ mark ts es

-- The `while` loop: the oldest versions that are dropped. The first that is not is put back, where it
-- was, since it is the least.
unfoldable pub sweep : GensMap → List SsTableId × GensMap
sweep [] = ([], [])
sweep (e ∷ es) = elim e.1.dropped [
  | false ↦ ([], e ∷ es)
  | true ↦ let rest = sweep es in (e.1.gens ++ rest.0, rest.1)
]

-- one round of `listen`
unfoldable pub handle : CleanTag → GensMap → List SsTableId × GensMap
handle (add ts gens) m = ([], insert_entry ts (record { gens = gens; dropped = false }) m)
handle (clean ts) m = sweep (mark ts m)
handle (recover_clean wal_id level) m = (record { file_id = wal_id; level = level } ∷ [], m)

unfoldable pub listen : List CleanTag → GensMap → List SsTableId × GensMap
listen [] m = ([], m)
listen (t ∷ ts) m =
    let step = handle t m in let rest = listen ts step.1 in (step.0 ++ rest.0, rest.1)
