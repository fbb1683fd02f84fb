-- ===== src/VersionSet/Logs.antt =====
-- src/version/set.rs: the choice of the version log in `VersionSet::new`, before its edits are
-- recovered. The name of a log is its id; the ids, and so the paths of one directory, are ordered by
-- their age. Listing and removing files is taken to succeed.
use tonbo.Prelude.{
  ℕ, suc, ◌+◌, ◌≤◌, ◌≡◌, refl, sym, subst, arith, inl, inr, Bool, true, false, Bool-cases, Option,
  none, some, List, [], ◌∷◌, ◌++◌, ltb, drop, length, min, All, if◌then◌else◌, ltb→lt, append-nil,
}
use Prim.Native.Nat.{max}
use mathlib.Core.List.{Perm, perm_middle}
use mathlib.Core.List.Perm
use tonbo.Scope.{FileId}

le_of_ltb : (a b : ℕ) → ltb a b ≡ false → b ≤ a
le_of_ltb a b h = ground arith

-- `BinaryHeap::pop`: the greatest, and the others
unfoldable pub pop : List FileId → Option (FileId × List FileId)
pop [] = none
pop (x ∷ xs) = elim (pop xs) [
  | none ↦ some (x, [])
  | some (y, ys) ↦ if ltb x y then some (y, x ∷ ys) else some (x, xs)
]

-- what is taken from the heap is removed
abbrev pub with_popped : Option (FileId × List FileId) → List FileId → Option FileId × List FileId
with_popped none heap = (none, heap)
with_popped (some (old, rest)) heap = (some old, rest)

abbrev pub and_removed : Option FileId → List FileId × List FileId → List FileId × List FileId
and_removed none r = r
and_removed (some old) r = (old ∷ r.0, r.1)

-- the `while` loop over the listing: the logs that it removes, and those that are left in the heap
unfoldable pub list_logs : List FileId → List FileId → List FileId × List FileId
list_logs [] heap = ([], heap)
list_logs (f ∷ fs) heap =
    let kept =
      if ltb 2 (length (f ∷ heap))
      then with_popped (pop (f ∷ heap)) (f ∷ heap)
      else (none, f ∷ heap) in
    and_removed kept.0 (list_logs fs kept.1)

-- of the logs that are left, the one that is used and the one that is removed
abbrev pub then_other : FileId → Option (FileId × List FileId) → Option FileId × List FileId
then_other second none = (some second, [])
then_other second (some (latest, others)) = (some second, latest ∷ [])

-- The two logs that are left: the first that is popped is used, and the other one is removed.
unfoldable pub chosen : Option (FileId × List FileId) → Option FileId × List FileId
chosen none = (none, [])
chosen (some (second, rest)) = then_other second (pop rest)

unfoldable pub choose_log : List FileId → Option FileId × List FileId
choose_log heap = chosen (pop heap)

abbrev pub AllUpTo : ℕ → List FileId → Type 0
AllUpTo b xs = All (λ h. h ≤ b) xs

AllUpTo-le : (a b : ℕ) (xs : List ℕ) → a ≤ b → AllUpTo a xs → AllUpTo b xs
AllUpTo-le a b [] le h = tt
AllUpTo-le a b (x ∷ xs) le h = (omega (arith, h.0), AllUpTo-le a b xs le h.1)

-- The greatest is popped. What bounds the heap bounds it and the others, and what bounds all but the
-- element that was pushed last bounds the others.
PopSpec : List FileId → Option (FileId × List FileId) → Type 0
PopSpec heap none = heap ≡ []
PopSpec heap (some (y, ys)) =
    (length heap ≡ suc (length ys))
    × AllUpTo y heap
    × AllUpTo y ys
    × ((b : ℕ) → AllUpTo b heap → (y ≤ b) × AllUpTo b ys)
    × ((b : ℕ) → AllUpTo b (drop 1 heap) → AllUpTo b ys)
    × Perm heap (y ∷ ys)

greater-PopSpec :
    (x y : FileId) (xs ys : List FileId) (c : Bool)
    → ltb x y ≡ c
    → PopSpec xs (some (y, ys))
    → PopSpec (x ∷ xs) (if c then some (y, x ∷ ys) else some (x, xs))
unfolding PopSpec
greater-PopSpec x y xs ys true p s =
    let l = ltb→lt x y p in
    (
      omega (arith, s.0),
      (omega arith, s.1),
      (omega arith, s.2),
      λ b h. ((s.3 b h.1).0, (h.0, (s.3 b h.1).1)),
      λ b h. (omega (arith, (s.3 b h).0), (s.3 b h).1),
      Perm.trans (Perm.cons x s.5) (Perm.swap y x ys),
    )
greater-PopSpec x y xs ys false p s =
    let l = le_of_ltb x y p in
    (
      refl,
      (omega arith, AllUpTo-le y x xs l s.1),
      AllUpTo-le y x xs l s.1,
      λ b h. h,
      λ b h. h,
      Perm.rfl,
    )

cons-PopSpec :
    (x : FileId) (xs : List FileId) (o : Option (FileId × List FileId))
    → PopSpec xs o
    → PopSpec (x ∷ xs) (elim o [
      | none ↦ some (x, [])
      | some (y, ys) ↦ if ltb x y then some (y, x ∷ ys) else some (x, xs)
    ])
unfolding PopSpec
cons-PopSpec x xs none s =
    subst (λ z. PopSpec (x ∷ z) (some (x, []))) (sym s)
      (refl, (omega arith, tt), tt, λ b h. h, λ b h. tt, Perm.rfl)
cons-PopSpec x xs (some (y, ys)) s = greater-PopSpec x y xs ys (ltb x y) refl s

pop-PopSpec : (xs : List FileId) → PopSpec xs (pop xs)
unfolding PopSpec pop
pop-PopSpec [] = refl
pop-PopSpec (x ∷ xs) = cons-PopSpec x xs (pop xs) (pop-PopSpec xs)

-- what becomes of a listing and of what was in the heap before it
record Keeps (fs heap : List FileId) (r : List FileId × List FileId) : Type 0 where
  all : Perm (fs ++ heap) (r.0 ++ r.1)
  two : length r.1 ≡ min 2 (length fs + length heap)
  older : All (λ x. AllUpTo x r.1) r.0
  bounded : (b : ℕ) → 2 ≤ length heap → AllUpTo b heap → AllUpTo b r.1

-- a log of the listing is put into the heap, and another one taken from it
popped-Perm :
    (f old : FileId) (fs heap rest removed kept : List FileId)
    → Perm (f ∷ heap) (old ∷ rest)
    → Perm (fs ++ rest) (removed ++ kept)
    → Perm (f ∷ fs ++ heap) (old ∷ removed ++ kept)
popped-Perm f old fs heap rest removed kept p q =
    Perm.trans (Perm.symm (perm_middle fs heap))
      (Perm.trans (Perm.append_left fs p) (Perm.trans (perm_middle fs rest) (Perm.cons old q)))

popped-Keeps :
    (f : FileId) (fs heap : List FileId) (o : Option (FileId × List FileId))
    → length heap ≡ 2
    → PopSpec (f ∷ heap) o
    → ((rest : List FileId) → length rest ≤ 2 → Keeps fs rest (list_logs fs rest))
    → Keeps
        (f ∷ fs)
        heap
        (and_removed (with_popped o (f ∷ heap)).0 (list_logs fs (with_popped o (f ∷ heap)).1))
unfolding PopSpec
popped-Keeps f fs heap none len s ih = cc
popped-Keeps f fs heap (some (old, rest)) len s ih =
    let same : length rest ≡ 2 = omega (arith, s.0) in
    let r = ih rest (omega arith) in
    record {
      all = popped-Perm f old fs heap rest (list_logs fs rest).0 (list_logs fs rest).1 s.5 r.all;
      two = omega (arith, r.two);
      older = (r.bounded old (omega arith) s.2, r.older);
      bounded = λ b l h. r.bounded b (omega arith) (s.4 b h);
    }

-- The heap is full, or the log stays.
round-Keeps :
    (f : FileId) (fs heap : List FileId) (c : Bool)
    → ltb 2 (length (f ∷ heap)) ≡ c
    → length heap ≤ 2
    → ((rest : List FileId) → length rest ≤ 2 → Keeps fs rest (list_logs fs rest))
    → (let kept = if c then with_popped (pop (f ∷ heap)) (f ∷ heap) else (none, f ∷ heap) in
        Keeps (f ∷ fs) heap (and_removed kept.0 (list_logs fs kept.1)))
round-Keeps f fs heap true p l ih =
    let full = ltb→lt 2 (length (f ∷ heap)) p in
    popped-Keeps f fs heap (pop (f ∷ heap)) (omega arith) (pop-PopSpec (f ∷ heap)) ih
round-Keeps f fs heap false p l ih =
    let room = le_of_ltb 2 (length (f ∷ heap)) p in
    let r = ih (f ∷ heap) (omega arith) in
    record {
      all = Perm.trans (Perm.symm (perm_middle fs heap)) r.all;
      two = omega (arith, r.two);
      older = r.older;
      bounded = λ b q h. absurd (omega arith);
    }

list_logs-Keeps : (fs heap : List FileId) → length heap ≤ 2 → Keeps fs heap (list_logs fs heap)
unfolding list_logs
list_logs-Keeps [] heap l = record {
  all = Perm.rfl;
  two = omega arith;
  older = tt;
  bounded = λ b q h. h;
}
list_logs-Keeps (f ∷ fs) heap l =
    round-Keeps f fs heap (ltb 2 (length (f ∷ heap))) refl l (λ rest q. list_logs-Keeps fs rest q)

-- What is made of the logs that are left: the one that is used, and those that are removed.
abbrev pub Uses : List FileId → Option FileId × List FileId → Type 0
Uses [] c = c ≡ (none, [])
Uses (a ∷ []) c = c ≡ (some a, [])
Uses (a ∷ b ∷ []) c = c ≡ (some (max a b), min a b ∷ [])
Uses (a ∷ b ∷ d ∷ l) c = ⊥

used_and_removed :
    {a b c d : FileId}
    → a ≡ c
    → b ≡ d
    → ◌≡◌ {A = Option FileId × List FileId} (some a, b ∷ []) (some c, d ∷ [])
used_and_removed p q = λ i. (some (p i), q i ∷ [])

choose_log-Uses : (heap : List FileId) → length heap ≤ 2 → Uses heap (choose_log heap)
unfolding choose_log chosen pop
choose_log-Uses [] h = refl
choose_log-Uses (a ∷ []) h = refl
choose_log-Uses (a ∷ b ∷ []) h = elim (Bool-cases (ltb a b)) [
  | inl less ↦ let l = ltb→lt a b less in rw less (used_and_removed (omega arith) (omega arith))
  | inr not_less ↦
      let l = le_of_ltb a b not_less in rw not_less (used_and_removed (omega arith) (omega arith))
]
choose_log-Uses (a ∷ b ∷ d ∷ l) h = absurd (omega arith)

-- Of the logs of any listing, in whatever order it yields them, each is removed by the loop or left, and
-- at most two are left: none that is removed is older than one that is left. Of two that are left
-- the newer one is used and the older one is removed; of one that is left, that one is used.
pub choose_log-newer :
    (fs : List FileId)
    → (let logs = list_logs fs [] in
        Perm fs (logs.0 ++ logs.1)
        × (length logs.1 ≡ min 2 (length fs))
        × All (λ x. AllUpTo x logs.1) logs.0
        × Uses logs.1 (choose_log logs.1))
choose_log-newer fs =
    let k = list_logs-Keeps fs [] (omega arith) in
    (
      subst (λ z. Perm z ((list_logs fs []).0 ++ (list_logs fs []).1)) (append-nil fs) k.all,
      omega (arith, k.two),
      k.older,
      choose_log-Uses (list_logs fs []).1 (omega (arith, k.two)),
    )
