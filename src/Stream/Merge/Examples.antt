-- ===== src/Stream/Merge/Examples.antt =====
-- Tests of the merge, and its theorems at concrete streams.
use tonbo.Prelude.{ℕ, suc, ◌≤◌, ◌≡◌, refl, Option, none, some, List, [], ◌∷◌, arith, In}
use tonbo.Prelude.In.{here, there}
use tonbo.Prelude.Result.{Result, ok, err}
use tonbo.Key.Order.{nat_key}
use tonbo.Stream.{Entry, Order, asc, desc}
use tonbo.Stream.Merge.{MergeStream, from_vec, collect, remaining}
use tonbo.Stream.Merge.Heap.{Before}
use tonbo.Stream.Merge.Collect.{limited}
use tonbo.Stream.Merge.Scan.{IsScan, merge-IsScan, reverse_scan-hides_newer}

abbrev row : ℕ → ℕ → Option ℕ → Entry ℕ ℕ
row k ts v = record { key = record { ts = ts; value = k }; value = v }

abbrev Rows : Type 0
Rows = List (List (Result (Entry ℕ ℕ) ℕ))

abbrev two_tables : Rows
two_tables =
    (ok (row 1 5 (some 50)) ∷ ok (row 1 2 (some 20)) ∷ ok (row 3 1 none) ∷ [])
    ∷ (ok (row 1 3 (some 30)) ∷ ok (row 2 9 (some 90)) ∷ [])
    ∷ []

abbrev read : Rows → ℕ → Option Order → Option ℕ → Option (Result (List (Entry ℕ ℕ)) ℕ)
read ss ts order limit = elim (from_vec ss ts order) [
  | ok s ↦ collect 9 (record s { limit = limit })
  | err x ↦ some (err x)
]

read_new : read two_tables 4 none none ≡ some (ok (row 1 3 (some 30) ∷ row 3 1 none ∷ []))
unfolding from_vec collect
read_new = refl

read_limit :
    read two_tables 9 (some asc) (some 2) ≡ some (ok (row 1 5 (some 50) ∷ row 2 9 (some 90) ∷ []))
unfolding from_vec collect
read_limit = refl

merge-IsScan_example :
    (s : MergeStream ℕ ℕ ℕ) × (out : List (Entry ℕ ℕ)) × (from_vec two_tables 4 none ≡ ok s)
    × IsScan none 4 two_tables out
    × ((l : Option ℕ) (n : ℕ)
        → suc (suc (remaining two_tables)) ≤ n
        → collect n (record s { limit = l }) ≡ some (ok (limited l out)))
unfolding Before
merge-IsScan_example =
    merge-IsScan two_tables 4 none
      (((refl, (refl, tt)), ((refl, tt), (tt, tt))), (((refl, tt), (tt, tt)), tt))
      ((tt, (tt, (tt, tt))), ((tt, (tt, tt)), tt))

-- one memtable, scanned in reverse
abbrev reversed : Rows
reversed = (ok (row 1 2 (some 20)) ∷ ok (row 1 5 (some 50)) ∷ []) ∷ []

reverse_scan-hides_newer_example :
    (s : MergeStream ℕ ℕ ℕ) × (out : List (Entry ℕ ℕ)) × (from_vec reversed 9 (some desc) ≡ ok s)
    × (collect (suc (suc (remaining reversed))) (record s { limit = none }) ≡ some (ok out))
    × ¬ In (row 1 5 (some 50)) out
unfolding Before
reverse_scan-hides_newer_example =
    reverse_scan-hides_newer reversed 9 (row 1 2 (some 20)) (row 1 5 (some 50))
      (((refl, tt), (tt, tt)), tt) ((tt, (tt, tt)), tt) (_, here refl, here refl)
      (_, here refl, there (here refl)) refl (omega arith) (omega arith)
