-- ===== src/Cleaner/Sweep.antt =====
-- Which files the cleaner removes.
use tonbo.Prelude.{
  ◌≤◌, ◌≡◌, ◌⊎◌, inl, inr, refl, ap, ◌∙◌, arith, Bool, true, false, List, [], ◌∷◌, ◌++◌, ◌==◌, In,
  Sorted, All, if◌then◌else◌, ==_iff,
}
use tonbo.Prelude.In.{here, there}
use tonbo.Prelude.Member.{In-nil, In-cons, In-append, All-In}
use tonbo.Key.{◌≺◌}
use tonbo.Key.Order.{nat_key}
use tonbo.Timestamp.{Timestamp}
use tonbo.Version.Edit.{SsTableId}
use tonbo.OrderedMap.{Before}
use tonbo.OrderedMap.Tree.{insert_entry-only, insert_entry-Sorted}
use tonbo.Cleaner.{
  CleanTag, add, clean, recover_clean, Pending, GensMap, mark, sweep, handle, listen,
}

-- the file is of a version that is dropped, and so is each version of the map up to it
abbrev pub MayGo : GensMap → SsTableId → Type 0
MayGo m file =
    (e : Timestamp × Pending) × In e m
    × In file e.1.gens
    × (e.1.dropped ≡ true)
    × ((x : Timestamp × Pending) → In x m → x.0 ≤ e.0 → x.1.dropped ≡ true)

after_first :
    (e x : Timestamp × Pending) (es : GensMap) → All (Before e) es → In x es → ¬ (x.0 ≤ e.0)
after_first e x es a m le = (let h : e.0 ≺ x.0 = All-In (Before e) es a m in absurd (ground arith))

sweep_case-MayGo :
    (e : Timestamp × Pending) (es : GensMap) (file : SsTableId) (c : Bool)
    → e.1.dropped ≡ c
    → All (Before e) es
    → (In file (sweep es).0 → MayGo es file)
    → In file
        (elim c as (λ _. List SsTableId × GensMap) [
          | false ↦ ([], e ∷ es)
          | true ↦ (e.1.gens ++ (sweep es).0, (sweep es).1)
        ]).0
    → MayGo (e ∷ es) file
sweep_case-MayGo e es file false p a f m = In-nil m
sweep_case-MayGo e es file true p a f m = elim (In-append e.1.gens (sweep es).0 m) [
  | inl l ↦ (e, here refl, l, p, λ x n le. first_or x n (λ q. elim (after_first e x es a q le) [ ]))
  | inr r ↦ let h = f r in (h.0, there h.1, h.2, h.3, λ x n le. first_or x n (λ q. h.4 x q le))
]
  where
    first_or :
        (x : Timestamp × Pending)
        → In x (e ∷ es)
        → (In x es → x.1.dropped ≡ true)
        → x.1.dropped ≡ true
    first_or x (here q) g = ap (λ (z : Timestamp × Pending). z.1.dropped) q ∙ p
    first_or x (there n) g = g n

-- Of a map in order, a sweep removes a file only if it is of a version that is dropped, and all versions up
-- to that one are dropped.
sweep-MayGo :
    (m : GensMap) (file : SsTableId) → Sorted Before m → In file (sweep m).0 → MayGo m file
unfolding sweep
sweep-MayGo [] file s h = In-nil h
sweep-MayGo (e ∷ es) file s h =
    sweep_case-MayGo e es file e.1.dropped refl s.0 (sweep-MayGo es file s.1) h

-- what the first version leaves
swept_by :
    (P : GensMap → Type 0) (e : Timestamp × Pending) (es : GensMap) (c : Bool)
    → P (e ∷ es)
    → P (sweep es).1
    → P
        (elim c as (λ _. List SsTableId × GensMap) [
          | false ↦ ([], e ∷ es)
          | true ↦ (e.1.gens ++ (sweep es).0, (sweep es).1)
        ]).1
swept_by P e es false h r = h
swept_by P e es true h r = r

-- what is left was there, in its order
sweep_rest : (m : GensMap) (x : Timestamp × Pending) → In x (sweep m).1 → In x m
unfolding sweep
sweep_rest [] x h = h
sweep_rest (e ∷ es) x h =
    swept_by (λ z. In x z → In x (e ∷ es)) e es e.1.dropped (λ n. n)
      (λ n. there (sweep_rest es x n)) h

sweep-Sorted : (m : GensMap) → Sorted Before m → Sorted Before (sweep m).1
unfolding sweep
sweep-Sorted [] s = s
sweep-Sorted (e ∷ es) s = swept_by (λ z. Sorted Before z) e es e.1.dropped s (sweep-Sorted es s.1)

either_list :
    (P : GensMap → Type 0) (c : Bool) (xs ys : GensMap)
    → (c ≡ true → P xs)
    → P ys
    → P (if c then xs else ys)
either_list P true xs ys f g = f refl
either_list P false xs ys f g = g

mark-All :
    (lo : Timestamp × Pending) (ts : Timestamp) (m : GensMap)
    → All (Before lo) m
    → All (Before lo) (mark ts m)
unfolding mark
mark-All lo ts [] a = tt
mark-All lo ts (e ∷ es) a =
    either_list (All (Before lo)) (e.0 == ts) _ _ (λ _. a) (a.0, mark-All lo ts es a.1)

mark-Sorted : (ts : Timestamp) (m : GensMap) → Sorted Before m → Sorted Before (mark ts m)
unfolding mark
mark-Sorted ts [] s = tt
mark-Sorted ts (e ∷ es) s =
    either_list (λ z. Sorted Before z) (e.0 == ts) _ _ (λ _. s)
      (mark-All e ts es s.0, mark-Sorted ts es s.1)

-- the tags speak of all that the map has
Known : List CleanTag → GensMap → Type 0
Known tags m =
    (e : Timestamp × Pending)
    → In e m
    → In (add e.0 e.1.gens) tags × (e.1.dropped ≡ true → In (clean e.0) tags)

mark-Known :
    (tags : List CleanTag) (ts : Timestamp) (m : GensMap)
    → In (clean ts) tags
    → Known tags m
    → Known tags (mark ts m)
unfolding mark Known
mark-Known tags ts [] t h = λ e n. In-nil n
mark-Known tags ts (x ∷ es) t h =
    either_list (Known tags) (x.0 == ts) _ _
      (λ q e n. elim (In-cons n) [
        | inl p ↦
            rw p
              ((h x (here refl)).0, λ _. (let same : x.0 ≡ ts = (==_iff x.0 ts).0 q in rw same t))
        | inr r ↦ h e (there r)
      ])
      (λ e n. elim (In-cons n) [
        | inl p ↦ h e (here p)
        | inr r ↦ mark-Known tags ts es t (λ y l. h y (there l)) e r
      ])

-- a version that has the file was added and dropped, or the recovery named the file
abbrev pub IsJustified : List CleanTag → SsTableId → Type 0
IsJustified tags file =
    ((ts : Timestamp) × (gens : List SsTableId) × In (add ts gens) tags
      × In file gens
      × In (clean ts) tags)
    ⊎ In (recover_clean file.file_id file.level) tags

record Handles (tags : List CleanTag) (r : List SsTableId × GensMap) : Type 0 where
  removed : (file : SsTableId) → In file r.0 → IsJustified tags file
  known : Known tags r.1
  sorted : Sorted Before r.1

handle-Handles :
    (tags : List CleanTag) (t : CleanTag) (m : GensMap)
    → In t tags
    → Known tags m
    → Sorted Before m
    → Handles tags (handle t m)
unfolding handle Known
handle-Handles tags (add ts gens) m t h s = record {
  removed = λ file n. In-nil n;
  known =
      λ e n. elim (insert_entry-only ts _ m e s n) [ inl p ↦ rw p (t, λ q. cc) | inr r ↦ h e r.0 ];
  sorted = insert_entry-Sorted ts _ m s;
}
handle-Handles tags (clean ts) m t h s =
    let k = mark-Known tags ts m t h in
    let o = mark-Sorted ts m s in
    record {
      removed = λ file n.
          (let g = sweep-MayGo (mark ts m) file o n in
            inl (g.0.0, g.0.1.gens, (k g.0 g.1).0, g.2, (k g.0 g.1).1 g.3));
      known = λ e n. k e (sweep_rest (mark ts m) e n);
      sorted = sweep-Sorted (mark ts m) o;
    }
handle-Handles tags (recover_clean wal_id level) m t h s = record {
  removed = λ file n. elim (In-cons n) [ inl p ↦ inr (rw p t) | inr r ↦ In-nil r ];
  known = h;
  sorted = s;
}

listen_from :
    (tags ts : List CleanTag) (m : GensMap) (file : SsTableId)
    → ((t : CleanTag) → In t ts → In t tags)
    → Known tags m
    → Sorted Before m
    → In file (listen ts m).0
    → IsJustified tags file
unfolding listen
listen_from tags [] m file sub h s n = In-nil n
listen_from tags (t ∷ ts) m file sub h s n =
    let r = handle-Handles tags t m (sub t (here refl)) h s in
    elim (In-append (handle t m).0 (listen ts (handle t m).1).0 n) [
      | inl l ↦ r.removed file l
      | inr q ↦ listen_from tags ts (handle t m).1 file (λ u v. sub u (there v)) r.known r.sorted q
    ]

-- The cleaner removes a file only if a tag added a version with the file and a tag dropped that version, or
-- a tag of the recovery named the file.
pub listen-IsJustified :
    (tags : List CleanTag) (file : SsTableId) → In file (listen tags []).0 → IsJustified tags file
unfolding Known
listen-IsJustified tags file h = listen_from tags tags [] file (λ t n. n) (λ e n. In-nil n) tt h

-- When a version is dropped, a file is removed only if it is of a version that is dropped, and all versions up
-- to that one, as they then stand in the map, are dropped.
pub handle-MayGo :
    (ts : Timestamp) (m : GensMap) (file : SsTableId)
    → Sorted Before m
    → In file (handle (clean ts) m).0
    → MayGo (mark ts m) file
unfolding handle
handle-MayGo ts m file s h = sweep-MayGo (mark ts m) file (mark-Sorted ts m s) h
