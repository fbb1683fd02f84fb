-- ===== src/Compaction/Building/Minor.antt =====
-- What `minor_compaction` makes of the tables in memory.
use tonbo.Prelude.{
  ℕ, suc, ◌≤◌, ◌≡◌, refl, sym, ap, ◌∙◌, arith, true, Option, none, some, List, [], ◌∷◌, ◌++◌, map,
  All, In, subst, append_assoc, append-nil,
}
use tonbo.Prelude.In.{here, there}
use tonbo.Prelude.Member.{In-nil}
use tonbo.Prelude.Result.{Result, ok, ok-injective}
use tonbo.Key.{Key}
use tonbo.Timestamp.{max_timestamp}
use tonbo.Scope.{Scope, FileId, contains}
use tonbo.Stream.{Entry}
use tonbo.Stream.Merge.{remaining}
use tonbo.Stream.Merge.Pull.{IsOk, AreOk, AreSorted}
use tonbo.Stream.Merge.Scan.{Holds, IsScan, merge-IsScan}
use tonbo.Compaction.{CompactionError}
use tonbo.Compaction.Building.{
  push_rows, nothing_built, merged_rows, polled, batch_streams, batch_wals, or_no_ids, unless_empty,
  minor_compaction, build_single, build_table, with_wals,
}
use tonbo.Compaction.Building.Tables.{of_rows, push_row-of_rows}
use tonbo.Compaction.Building.Ranges.{AreAscending, bind-ok, build_table-IsTable, IsTable-contains}

module _ {ℓ κ} {K : Type ℓ} {R : Type κ} ⦃k : Key K⦄ where
  -- the rows of a merge are a scan of the streams
  pub merged_rows-IsScan :
      (ss : List (List (Result (Entry K R) CompactionError)))
      → AreSorted none 0 ss
      → AreOk ss
      → (out : List (Entry K R)) × (merged_rows ss ≡ ok out) × IsScan none max_timestamp ss out
  unfolding merged_rows
  merged_rows-IsScan ss sorted are_ok =
      let m = merge-IsScan ss max_timestamp none sorted are_ok in
      (m.1, rw m.2 (ap polled (m.4 none (suc (suc (remaining ss))) (omega arith))), m.3)

module _ {ℓ κ} {K : Type ℓ} {R : Type κ} where
  push_rows-of_rows :
      (es rows : List (Entry K R)) → push_rows es (of_rows rows) ≡ of_rows (rows ++ es)
  push_rows-of_rows [] rows = ap of_rows (sym (append-nil rows))
  push_rows-of_rows (e ∷ es) rows =
      ap (push_rows es) (push_row-of_rows e rows)
      ∙ push_rows-of_rows es (rows ++ e ∷ [])
      ∙ ap of_rows (append_assoc rows (e ∷ []) es)

  map_ok : List (Entry K R) → List (Result (Entry K R) CompactionError)
  map_ok es = map ok es

  In-map_ok : (e : Entry K R) (es : List (Entry K R)) → In e es → In (ok e) (map_ok es)
  unfolding map_ok
  In-map_ok e [] m = In-nil m
  In-map_ok e (x ∷ es) (here p) = here (ap ok p)
  In-map_ok e (x ∷ es) (there m) = there (In-map_ok e es m)

  -- a batch has the row
  abbrev HasRow {ν} :
      {T : Type ν}
      → (T → List (Entry K R))
      → Entry K R
      → List (Option FileId × T)
      → Type (ℓ ⊔ κ ⊔ ν)
  HasRow {T = T} read_rows e batches = (b : Option FileId × T) × In b batches × In e (read_rows b.1)

module _ {ℓ κ} {K : Type ℓ} {R : Type κ} ⦃k : Key K⦄ where
  map_ok-All : (es : List (Entry K R)) → All IsOk (map_ok es)
  unfolding map_ok
  map_ok-All [] = tt
  map_ok-All (e ∷ es) = (tt, map_ok-All es)

  module _ {ν} {T : Type ν} (read_rows : T → List (Entry K R)) where
    batch_streams-AreOk :
        (batches : List (Option FileId × T)) → AreOk (batch_streams read_rows batches)
    unfolding map_ok
    batch_streams-AreOk [] = tt
    batch_streams-AreOk (b ∷ bs) = (map_ok-All (read_rows b.1), batch_streams-AreOk bs)

    HasRow-Holds :
        (e : Entry K R) (batches : List (Option FileId × T)) (b : Option FileId × T)
        → In b batches
        → In e (read_rows b.1)
        → Holds e (batch_streams read_rows batches)
    unfolding map_ok
    HasRow-Holds e [] b n m = In-nil n
    HasRow-Holds e (c ∷ bs) b (here p) m = (
      map_ok (read_rows c.1),
      here refl,
      In-map_ok e (read_rows c.1) (subst (λ z. In e (read_rows z.1)) p m),
    )
    HasRow-Holds e (c ∷ bs) b (there n) m = let h = HasRow-Holds e bs b n m in (h.0, there h.1, h.2)

module _ {ℓ κ μ} {K : Type ℓ} {R : Type κ} {W : Type μ} ⦃k : Key K⦄
    (write : ℕ → List (Entry K R) → W → Result (FileId × ℕ × W) CompactionError) where
  -- the table of some rows, with the ids of logs
  abbrev IsTableOf : List FileId → List (Entry K R) → Scope K → Type (ℓ ⊔ κ)
  IsTableOf ids es s =
      (s.wal_ids ≡ unless_empty ids) × ((e : Entry K R) → In e es → contains s e.key.value ≡ true)

  build_single-IsTableOf :
      (ids : List FileId) (o : Entry K R) (os : List (Entry K R)) (w : W) (r : Option (Scope K) × W)
      → AreAscending (o ∷ os)
      → build_single write ids (of_rows (o ∷ os)) w ≡ ok r
      → (s : Scope K) × (r.0 ≡ some s) × IsTableOf ids (o ∷ os) s
  unfolding build_single
  build_single-IsTableOf ids o os w r asc h =
      let t = bind-ok (build_table write 0 (of_rows (o ∷ os)) w) _ h in
      let s = build_table-IsTable write 0 o os w t.0 t.1 in
      let q =
        sym (ap (λ (z : Option (Scope K) × W). z.0) (ok-injective _ r t.2))
        ∙ ap (with_wals ids) s.1 in
      (
        record (s.0) { wal_ids = unless_empty ids },
        q,
        (
          refl,
          λ e m.
              IsTable-contains o os _ e (record { first_is = s.2.first_is; last_is = s.2.last_is })
                asc m,
        ),
      )

  -- the rows that are merged have the row, in the table that is made of them
  build_single-covers :
      (ids : List FileId) (out : List (Entry K R)) (w : W) (r : Option (Scope K) × W)
      (e : Entry K R)
      → AreAscending out
      → build_single write ids (push_rows out nothing_built) w ≡ ok r
      → In e out
      → (s : Scope K) × (r.0 ≡ some s)
        × (s.wal_ids ≡ unless_empty ids)
        × (contains s e.key.value ≡ true)
  build_single-covers ids [] w r e asc h m = In-nil m
  build_single-covers ids (o ∷ os) w r e asc h m =
      let p = ap (λ b. build_single write ids b w) (push_rows-of_rows (o ∷ os) []) in
      let t = build_single-IsTableOf ids o os w r asc (sym p ∙ h) in (t.0, t.1, t.2.0, t.2.1 e m)

  -- Where the rows of each table in memory are in order, and a minor compaction succeeds, then it makes
  -- a table if one of them has a row, the range of the table has the key of each row, and the table
  -- names the logs that were recovered and those of the tables in memory.
  pub minor_compaction-covers {ν} :
      {T : Type ν} (read_rows : T → List (Entry K R)) (recover_wal_ids : Option (List FileId))
      (batches : List (Option FileId × T)) (w : W) (r : Option (Scope K) × W)
      (b : Option FileId × T) (e : Entry K R)
      → AreSorted none 0 (batch_streams read_rows batches)
      → minor_compaction write read_rows recover_wal_ids batches w ≡ ok r
      → In b batches
      → In e (read_rows b.1)
      → e.key.ts ≤ max_timestamp
      → (s : Scope K) × (r.0 ≡ some s)
        × (s.wal_ids ≡ unless_empty (or_no_ids recover_wal_ids ++ batch_wals batches))
        × (contains s e.key.value ≡ true)
  unfolding minor_compaction
  minor_compaction-covers read_rows recover_wal_ids [] w r b e sorted h n m le = In-nil n
  minor_compaction-covers read_rows recover_wal_ids (c ∷ bs) w r b e sorted h n m le =
      let scan =
        merged_rows-IsScan (batch_streams read_rows (c ∷ bs)) sorted
          (batch_streams-AreOk read_rows (c ∷ bs)) in
      let rows = bind-ok (merged_rows (batch_streams read_rows (c ∷ bs))) _ h in
      let same = ok-injective scan.0 rows.0 (sym scan.1 ∙ rows.1) in
      let x = scan.2.complete e (HasRow-Holds read_rows e (c ∷ bs) b n m) le in
      let t =
        build_single-covers _ rows.0 w r x.0 (subst AreAscending same scan.2.strict) rows.2
          (subst (In x.0) same x.1) in
      (t.0, t.1, t.2, subst (λ key. contains t.0 key ≡ true) x.2 t.3)
