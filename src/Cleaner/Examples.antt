-- ===== src/Cleaner/Examples.antt =====
-- Tests of the cleaner, and its theorems at concrete tags.
use tonbo.Prelude.{ℕ, ◌≡◌, refl, true, false, List, [], ◌∷◌, In}
use tonbo.Prelude.In.{here, there}
use tonbo.Key.Order.{nat_key}
use tonbo.Version.Edit.{SsTableId}
use tonbo.OrderedMap.Tree.{insert_entry}
use tonbo.Cleaner.{CleanTag, add, clean, recover_clean, GensMap, mark, sweep, handle, listen}
use tonbo.Cleaner.Sweep.{MayGo, IsJustified, listen-IsJustified, handle-MayGo}

abbrev file : ℕ → SsTableId
file gen = record { file_id = gen; level = 1 }

abbrev tags : List CleanTag
tags = add 1 (file 11 ∷ []) ∷ add 2 (file 12 ∷ []) ∷ clean 2 ∷ recover_clean 30 0 ∷ clean 1 ∷ []

-- the file of version 2 stays until version 1 is dropped too
removes_in_order : (listen tags []).0 ≡ record { file_id = 30; level = 0 } ∷ file 11 ∷ file 12 ∷ []
unfolding listen handle sweep mark insert_entry
removes_in_order = refl

removes_last : In (file 12) (listen tags []).0
unfolding listen handle sweep mark insert_entry
removes_last = there (there (here refl))

listen-IsJustified_example : IsJustified tags (file 12)
listen-IsJustified_example = listen-IsJustified tags (file 12) removes_last

abbrev pending : GensMap
pending =
    (1, record { gens = file 11 ∷ []; dropped = false })
    ∷ (2, record { gens = file 12 ∷ []; dropped = true })
    ∷ []

removes_second : In (file 12) (handle (clean 1) pending).0
unfolding handle sweep mark
removes_second = there (here refl)

handle-MayGo_example : MayGo (mark 1 pending) (file 12)
handle-MayGo_example = handle-MayGo 1 pending (file 12) ((refl, tt), (tt, tt)) removes_second
