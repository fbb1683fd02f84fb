-- ===== src/Storage/Freeze.antt =====
-- src/inmem/immutable.rs: `ImmutableMemTable::new`, and that its reads are those of the mutable table
-- where the range of its `BTreeMap` does not panic. No table without an entry is frozen.
use tonbo.Prelude.{
  ℕ, suc, ◌+◌, ◌%◌, ◌≤◌, ◌<◌, ◌≡◌, refl, sym, ap, ◌∙◌, subst, arith, Bool, true, false, Option,
  none, some, List, [], ◌∷◌, ◌++◌, map, length, get_elem?, rev, All, Sorted, gt, append_assoc,
  append-nil, length-append, leb, if◌then◌else◌,
}
use tonbo.Key.{Key, ◌≺◌}
use tonbo.Timestamp.{Timestamp, Ts, ts_key, new, epoch, max_timestamp}
use tonbo.Scope.{Bound, included, excluded}
use tonbo.Stream.{Order, asc, desc}
use tonbo.OrderedMap.{OrderedMap, Before, first, select, keep, is_within, range_panics}
use tonbo.OrderedMap.Tree.{Tree, insert_entry, b_tree_map}
use tonbo.Memtable.{get, scan, check_conflict, directed, is_some, lower_bound, upper_bound}
use tonbo.Storage.{
  ImmutableMemTable, with_row, with_rows, row, immutable_get, immutable_scan, immutable_conflict,
}

module _ {ℓ κ} {K : Type ℓ} {V : Type κ} ⦃k : Key K⦄ where
  -- The index of the rows: `index.insert(key, offset as u32)` for each entry.
  unfoldable pub fill_index : ℕ → List (K × V) → Tree K ℕ → Tree K ℕ
  fill_index offset [] index = index
  fill_index offset (e ∷ es) index =
      fill_index (suc offset) es (b_tree_map.insert e.0 (offset % 4294967296) index)

module _ {ℓ κ} {K : Type ℓ} {R : Type κ} ⦃k : Key K⦄ where
  -- `mutable.into_iter()` yields the entries in order
  unfoldable pub freeze : List (Ts K × Option R) → ImmutableMemTable R (Tree (Ts K) ℕ)
  freeze entries = record {
    rows = map (λ e. e.1) entries;
    index = fill_index 0 entries b_tree_map.empty;
  }

module _ {ℓ κ} {K : Type ℓ} {V : Type κ} ⦃k : Key K⦄ where
  numbered : ℕ → List (K × V) → List (K × ℕ)
  numbered i [] = []
  numbered i (e ∷ es) = (e.0, i % 4294967296) ∷ numbered (suc i) es

module _ {ℓ} {K : Type ℓ} ⦃k : Key K⦄ where
  cmp_after : (a b : K) → b ≺ a → k.cmp a b ≡ gt
  cmp_after a b h = ground (arith, k.cmp_swap b a)

module _ {ℓ κ} {K : Type ℓ} {V : Type κ} ⦃k : Key K⦄ where
  -- a key after all others is inserted at the end
  insert_entry-last :
      (a : K) (v : V) (es : List (K × V))
      → All (λ (e : K × V). e.0 ≺ a) es
      → insert_entry a v es ≡ es ++ (a, v) ∷ []
  unfolding insert_entry
  insert_entry-last a v [] h = refl
  insert_entry-last a v (e ∷ es) h = rw (cmp_after a e.0 h.0, insert_entry-last a v es h.1) refl

module _ {ℓ κ} {K : Type ℓ} {V : Type κ} ⦃k : Key K⦄ where
  -- all keys of the index are before those of the entries
  Precede : List (K × ℕ) → List (K × V) → Type 0
  Precede xs es = All (λ (x : K × ℕ). All (λ (e : K × V). x.0 ≺ e.0) es) xs

  nothing_before : (es : List (K × V)) → Precede [] es
  unfolding Precede
  nothing_before es = tt

  Precede-first :
      (xs : List (K × ℕ)) (e : K × V) (es : List (K × V))
      → Precede xs (e ∷ es)
      → All (λ (x : K × ℕ). x.0 ≺ e.0) xs
  unfolding Precede
  Precede-first [] e es h = tt
  Precede-first (x ∷ xs) e es h = (h.0.0, Precede-first xs e es h.1)

  Precede-next :
      (xs : List (K × ℕ)) (e : K × V) (i : ℕ) (es : List (K × V))
      → Precede xs (e ∷ es)
      → All (Before e) es
      → Precede (xs ++ (e.0, i) ∷ []) es
  unfolding Precede
  Precede-next [] e i es h a = (a, tt)
  Precede-next (x ∷ xs) e i es h a = (h.0.1, Precede-next xs e i es h.1 a)

  fill_index-numbered :
      (i : ℕ) (es : List (K × V)) (t : Tree K ℕ)
      → Precede t.list es
      → Sorted Before es
      → (fill_index i es t).list ≡ t.list ++ numbered i es
  unfolding fill_index numbered b_tree_map
  fill_index-numbered i [] t h s = sym (append-nil t.list)
  fill_index-numbered i (e ∷ es) t h s =
      let last = insert_entry-last e.0 (i % 4294967296) t.list (Precede-first t.list e es h) in
      let next =
        subst (λ z. Precede z es) (sym last) (Precede-next t.list e (i % 4294967296) es h s.0) in
      fill_index-numbered (suc i) es (b_tree_map.insert e.0 (i % 4294967296) t) next s.1
      ∙ ap (λ z. z ++ numbered (suc i) es) last
      ∙ append_assoc t.list ((e.0, i % 4294967296) ∷ []) (numbered (suc i) es)

module _ {ℓ} {A : Type ℓ} where
  get_elem?-append : (xs ys : List A) (a : A) → get_elem? (xs ++ a ∷ ys) (length xs) ≡ some a
  get_elem?-append [] ys a = refl
  get_elem?-append (x ∷ xs) ys a = get_elem?-append xs ys a

module _ {ℓ κ} {A : Type ℓ} {B : Type κ} (f : A → B) where
  map-append : (xs ys : List A) → map f (xs ++ ys) ≡ map f xs ++ map f ys
  map-append [] ys = refl
  map-append (x ∷ xs) ys = ap (λ t. f x ∷ t) (map-append xs ys)

  map-rev : (xs : List A) → map f (rev xs) ≡ rev (map f xs)
  map-rev [] = refl
  map-rev (x ∷ xs) = map-append (rev xs) (x ∷ []) ∙ ap (λ t. t ++ f x ∷ []) (map-rev xs)

  map-directed :
      (order : Option Order) (xs : List A) → map f (directed order xs) ≡ directed order (map f xs)
  map-directed none xs = refl
  map-directed (some asc) xs = refl
  map-directed (some desc) xs = map-rev xs

  is_some-map : (xs : List A) → is_some (first (map f xs)) ≡ is_some (first xs)
  is_some-map [] = refl
  is_some-map (x ∷ xs) = refl

module _ {ℓ} {K : Type ℓ} ⦃k : Key K⦄ where
  -- the range of a key at a timestamp is proper
  get_range :
      (key : K) (ts : Timestamp)
      → range_panics (included (new key ts)) (included (new key epoch)) ≡ false
  get_range key ts = rw (k.cmp_self key) (ground arith)

  -- that of a check of a conflict is not at the last timestamp
  conflict_range :
      (key : K) (ts : Timestamp)
      → range_panics (excluded (new key max_timestamp)) (excluded (new key ts))
        ≡ leb max_timestamp ts
  conflict_range key ts = rw (k.cmp_self key) (ground arith)

whole_offset : (n : ℕ) → n < 4294967296 → n % 4294967296 ≡ n
whole_offset n h = omega arith

module _ {ℓ κ} {K : Type ℓ} {R : Type κ} ⦃k : Key K⦄ where
  with_rows-first :
      (rows : List (Option R)) (xs : List (Ts K × ℕ))
      → with_rows rows (first xs) ≡ first (map (with_row rows) xs)
  with_rows-first rows [] = refl
  with_rows-first rows (x ∷ xs) = refl

  map-keep :
      (rows : List (Option R)) (b : Bool) (x : Ts K × ℕ) (e : Ts K × Option R)
      (xs : List (Ts K × ℕ)) (es : List (Ts K × Option R))
      → with_row rows x ≡ e
      → map (with_row rows) xs ≡ es
      → map (with_row rows) (keep b x xs) ≡ keep b e es
  map-keep rows true x e xs es p q = rw (p, q) refl
  map-keep rows false x e xs es p q = q

  -- the rows of the index are those of the entries
  map-select :
      (lo hi : Bound (Ts K)) (before : List (Option R)) (es : List (Ts K × Option R))
      → length before + length es ≤ 4294967296
      → map (with_row (before ++ map (λ e. e.1) es)) (select lo hi (numbered (length before) es))
        ≡ select lo hi es
  unfolding select numbered
  map-select lo hi before [] h = refl
  map-select lo hi before (e ∷ es) h =
      let rest = map (λ (x : Ts K × Option R). x.1) es in
      let len = length-append before (e.1 ∷ []) in
      let here_row : with_row (before ++ e.1 ∷ rest) (e.0, length before % 4294967296) ≡ e =
        ap (λ n. (e.0, row (get_elem? (before ++ e.1 ∷ rest) n)))
          (whole_offset (length before) (omega arith))
        ∙ ap (λ o. (e.0, row o)) (get_elem?-append before rest e.1) in
      let next =
        ap (λ rows. map (with_row rows) (select lo hi (numbered (suc (length before)) es)))
          (sym (append_assoc before (e.1 ∷ []) rest))
        ∙ ap (λ n. map (with_row ((before ++ e.1 ∷ []) ++ rest)) (select lo hi (numbered n es)))
            (omega (arith, len))
        ∙ map-select lo hi (before ++ e.1 ∷ []) es (omega (arith, len)) in
      map-keep (before ++ e.1 ∷ rest) (is_within lo hi e.0) _ e _ _ here_row next

  module _ {μ} {M : Type μ} (m : OrderedMap (Ts K) (Option R) M) where
    -- the entries that are frozen
    abbrev pub frozen : M → ImmutableMemTable R (Tree (Ts K) ℕ)
    frozen t = freeze (m.entries t)

    frozen-range :
        (lo hi : Bound (Ts K)) (t : M)
        → length (m.entries t) ≤ 4294967296
        → map (with_row (frozen t).rows) (b_tree_map.range lo hi (frozen t).index) ≡ m.range lo hi t
    unfolding freeze b_tree_map
    frozen-range lo hi t h =
        ap (λ z. map (with_row (frozen t).rows) (select lo hi z))
          (fill_index-numbered 0 (m.entries t) b_tree_map.empty (nothing_before (m.entries t))
            (m.entries_sorted t))
        ∙ map-select lo hi [] (m.entries t) (omega arith)
        ∙ sym (m.range-select lo hi t)

    -- Where a mutable table that has an entry has no more of them than an offset of 32 bits can tell apart, the
    -- immutable table that it is frozen to has the same answers: to the reads of a key at a timestamp, whose
    -- range does not panic; to scans in both directions, unless the range of their bounds panics; and to the
    -- check of a conflict, unless the timestamp is the last one, at which the range panics.
    pub freeze_reads :
        (t : M) (key : K) (ts : Timestamp) (lo hi : Bound K) (order : Option Order)
        → 0 < length (m.entries t)
        → length (m.entries t) ≤ 4294967296
        → (immutable_get b_tree_map key ts (frozen t) ≡ get m key ts t)
          × (range_panics (included (new key ts)) (included (new key epoch)) ≡ false)
          × (immutable_scan b_tree_map lo hi ts order (frozen t) ≡ (
              if range_panics (lower_bound ts lo) (upper_bound ts hi)
              then none
              else some (scan m lo hi ts order t)))
          × (immutable_conflict b_tree_map key ts (frozen t)
              ≡ (if leb max_timestamp ts then none else some (check_conflict m key ts t)))
    unfolding get scan check_conflict immutable_scan immutable_conflict
    freeze_reads t key ts lo hi order pos h = (
      with_rows-first (frozen t).rows _ ∙ ap first (frozen-range _ _ t h),
      get_range key ts,
      ap (λ z. if range_panics (lower_bound ts lo) (upper_bound ts hi) then none else some z)
          (map-directed (with_row (frozen t).rows) order _
            ∙ ap (directed order) (frozen-range _ _ t h)),
      ap (λ b. if b then none else some (check_conflict b_tree_map key ts (frozen t).index))
            (conflict_range key ts)
          ∙ ap (λ z. if leb max_timestamp ts then none else some z)
              (sym (is_some-map (with_row (frozen t).rows) _)
                ∙ ap (λ z. is_some (first z)) (frozen-range _ _ t h)),
    )
