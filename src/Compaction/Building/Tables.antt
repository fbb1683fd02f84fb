-- ===== src/Compaction/Building/Tables.antt =====
-- What the tables of `build_tables` hold, and their ranges.
use tonbo.Prelude.{
  lt→ltb, ltb→lt, ℕ, ◌<◌, Bool, true, false, Option, none, some, List, [], ◌∷◌, ◌++◌, map, leb, ltb,
  ◌≡◌, refl, sym, ap, ◌∙◌, arith, All, append_assoc,
}
use tonbo.Prelude.Result.{Result, ok, err, ◌>>=◌}
use tonbo.Scope.{FileId}
use tonbo.Stream.{Entry}
use tonbo.Version.Edit.{VersionEdit}
use tonbo.Compaction.{CompactionError}
use tonbo.Compaction.Building.{
  Building, nothing_built, or_first, push_row, build_table, build_loop, build_tables,
}

module _ {ℓ κ} {K : Type ℓ} {R : Type κ} where
  abbrev pub concat : List (List (Entry K R)) → List (Entry K R)
  concat [] = []
  concat (c ∷ cs) = c ++ concat cs

  -- the first key of some rows, and the last one
  abbrev pub first_key : List (Entry K R) → Option K
  first_key [] = none
  first_key (e ∷ es) = some e.key.value

  abbrev pub last_key : List (Entry K R) → Option K
  last_key [] = none
  last_key (e ∷ []) = some e.key.value
  last_key (e ∷ f ∷ es) = last_key (f ∷ es)

  -- the variables of the loop are those of the rows
  abbrev pub of_rows : List (Entry K R) → Building K R
  of_rows es = record { builder = es; min = first_key es; max = last_key es }

  or_first-first_key :
      (es : List (Entry K R)) (e : Entry K R)
      → or_first (first_key es) e.key.value ≡ first_key (es ++ e ∷ [])
  or_first-first_key [] e = refl
  or_first-first_key (x ∷ es) e = refl

  last_key-append :
      (es : List (Entry K R)) (e : Entry K R) → last_key (es ++ e ∷ []) ≡ some e.key.value
  last_key-append [] e = refl
  last_key-append (x ∷ []) e = refl
  last_key-append (x ∷ y ∷ es) e = last_key-append (y ∷ es) e

  pub push_row-of_rows :
      (e : Entry K R) (es : List (Entry K R)) → push_row e (of_rows es) ≡ of_rows (es ++ e ∷ [])
  push_row-of_rows e es = rw (or_first-first_key es e, last_key-append es e) refl

bind-cong {ℓ κ μ} :
    {A : Type ℓ} {B : Type κ} {E : Type μ} (m : Result A E) (f g : A → Result B E)
    → ((a : A) → f a ≡ g a)
    → (m >>= f) ≡ (m >>= g)
bind-cong (ok a) f g h = h a
bind-cong (err e) f g h = refl

module _ {ℓ} {A : Type ℓ} where
  abbrev pub IsCons : List A → Type 0
  IsCons [] = ⊥
  IsCons (a ∷ as') = Unit

module _ {ℓ κ μ} {K : Type ℓ} {R : Type κ} {W : Type μ}
    (write : ℕ → List (Entry K R) → W → Result (FileId × ℕ × W) CompactionError) where
  -- tables of given rows, one after the other
  unfoldable pub write_tables :
      ℕ → List (List (Entry K R)) → W → Result (List (VersionEdit K) × W) CompactionError
  write_tables level [] w = ok ([], w)
  write_tables level (c ∷ cs) w = build_table write level (of_rows c) w >>= λ t.
      write_tables level cs t.1 >>= λ r. ok (t.0 ∷ r.0, r.1)

  module _ (written_size : List (Entry K R) → ℕ) (max_sst_file_size : ℕ) where
    -- the rows of each table, where `rows` have been pushed and `es` are to come
    split_rows : List (Entry K R) → List (Entry K R) → List (List (Entry K R))
    split_rows rows [] = elim (ltb 0 (written_size rows)) [ true ↦ rows ∷ [] | false ↦ [] ]
    split_rows rows (e ∷ es) = elim (leb max_sst_file_size (written_size (rows ++ e ∷ []))) [
      | true ↦ (rows ++ e ∷ []) ∷ split_rows [] es
      | false ↦ split_rows (rows ++ e ∷ []) es
    ]

    build_last :
        (level : ℕ) (rows : List (Entry K R)) (w : W) (c : Bool)
        → (elim c [
          | true ↦ build_table write level (of_rows rows) w >>= λ t. ok (t.0 ∷ [], t.1)
          | false ↦ ok ([], w)
        ])
          ≡ write_tables level (elim c [ true ↦ rows ∷ [] | false ↦ [] ]) w
    unfolding write_tables
    build_last level rows w true = refl
    build_last level rows w false = refl

    build_step :
        (level : ℕ) (b : Building K R) (rows es : List (Entry K R)) (w : W) (c : Bool)
        → b ≡ of_rows rows
        → ((u : W)
            → build_loop write written_size max_sst_file_size level (map ok es) nothing_built u
              ≡ write_tables level (split_rows [] es) u)
        → build_loop write written_size max_sst_file_size level (map ok es) b w
          ≡ write_tables level (split_rows rows es) w
        → (elim c [
          | true ↦ build_table write level b w >>= λ t.
              build_loop write written_size max_sst_file_size level (map ok es) nothing_built t.1
              >>= λ r. ok (t.0 ∷ r.0, r.1)
          | false ↦ build_loop write written_size max_sst_file_size level (map ok es) b w
        ])
          ≡ write_tables level
              (elim c [ true ↦ rows ∷ split_rows [] es | false ↦ split_rows rows es ])
              w
    unfolding write_tables
    build_step level b rows es w true p f g =
        ap
          (λ z. build_table write level z w >>= λ t.
            build_loop write written_size max_sst_file_size level (map ok es) nothing_built t.1
            >>= λ r. ok (t.0 ∷ r.0, r.1))
          p
        ∙ bind-cong (build_table write level (of_rows rows) w) _ _
            (λ t. ap (λ r. r >>= λ z. ok (t.0 ∷ z.0, z.1)) (f t.1))
    build_step level b rows es w false p f g = g

    build_loop-split_rows :
        (level : ℕ) (rows es : List (Entry K R)) (w : W)
        → build_loop write written_size max_sst_file_size level (map ok es) (of_rows rows) w
          ≡ write_tables level (split_rows rows es) w
    unfolding build_loop split_rows
    build_loop-split_rows level rows [] w = build_last level rows w (ltb 0 (written_size rows))
    build_loop-split_rows level rows (e ∷ es) w =
        build_step level (push_row e (of_rows rows)) (rows ++ e ∷ []) es w
          (leb max_sst_file_size (written_size (rows ++ e ∷ []))) (push_row-of_rows e rows)
          (λ u. build_loop-split_rows level [] es u)
          (ap (λ b. build_loop write written_size max_sst_file_size level (map ok es) b w)
              (push_row-of_rows e rows)
            ∙ build_loop-split_rows level (rows ++ e ∷ []) es w)

    module _ (sized : (e : Entry K R) (es : List (Entry K R)) → 0 < written_size (e ∷ es)) where
      no_rows : (rows : List (Entry K R)) → ltb 0 (written_size rows) ≡ false → rows ≡ []
      no_rows [] h = refl
      no_rows (x ∷ rows) h = (let t = lt→ltb 0 (written_size (x ∷ rows)) (sized x rows) in cc)

      concat_last :
          (rows : List (Entry K R)) (c : Bool)
          → (c ≡ false → rows ≡ [])
          → concat (elim c [ true ↦ rows ∷ [] | false ↦ [] ]) ≡ rows ++ []
      concat_last rows true h = refl
      concat_last rows false h = sym (ap (λ t. t ++ []) (h refl))

      concat_step :
          (rows es : List (Entry K R)) (c : Bool)
          → concat (split_rows [] es) ≡ es
          → concat (split_rows rows es) ≡ rows ++ es
          → concat (elim c [ true ↦ rows ∷ split_rows [] es | false ↦ split_rows rows es ])
            ≡ rows ++ es
      concat_step rows es true f g = ap (λ t. rows ++ t) f
      concat_step rows es false f g = g

      -- no row is lost, where rows that are held have a size
      concat-split_rows : (rows es : List (Entry K R)) → concat (split_rows rows es) ≡ rows ++ es
      unfolding split_rows
      concat-split_rows rows [] = concat_last rows (ltb 0 (written_size rows)) (no_rows rows)
      concat-split_rows rows (e ∷ es) =
          concat_step (rows ++ e ∷ []) es (leb max_sst_file_size (written_size (rows ++ e ∷ [])))
            (concat-split_rows [] es) (concat-split_rows (rows ++ e ∷ []) es)
          ∙ append_assoc rows (e ∷ []) es

    IsCons-append : (rows : List (Entry K R)) (e : Entry K R) → IsCons (rows ++ e ∷ [])
    IsCons-append [] e = tt
    IsCons-append (x ∷ rows) e = tt

    last_part_filled :
        (rows : List (Entry K R)) (c : Bool)
        → (c ≡ true → IsCons rows)
        → All IsCons (elim c [ true ↦ rows ∷ [] | false ↦ [] ])
    last_part_filled rows true h = (h refl, tt)
    last_part_filled rows false h = tt

    has_rows :
        (rows : List (Entry K R))
        → written_size [] ≡ 0
        → ltb 0 (written_size rows) ≡ true
        → IsCons rows
    has_rows [] z h = (let t = ltb→lt 0 (written_size []) h in absurd (omega arith))
    has_rows (x ∷ rows) z h = tt

    next_part_filled :
        (rows es : List (Entry K R)) (c : Bool)
        → IsCons rows
        → All IsCons (split_rows [] es)
        → All IsCons (split_rows rows es)
        → All IsCons (elim c [ true ↦ rows ∷ split_rows [] es | false ↦ split_rows rows es ])
    next_part_filled rows es true h f g = (h, f)
    next_part_filled rows es false h f g = g

    -- no table is empty
    split_rows-All :
        (rows es : List (Entry K R)) → written_size [] ≡ 0 → All IsCons (split_rows rows es)
    unfolding split_rows
    split_rows-All rows [] z = last_part_filled rows (ltb 0 (written_size rows)) (has_rows rows z)
    split_rows-All rows (e ∷ es) z =
        next_part_filled (rows ++ e ∷ []) es (leb max_sst_file_size (written_size (rows ++ e ∷ [])))
          (IsCons-append rows e) (split_rows-All [] es z) (split_rows-All (rows ++ e ∷ []) es z)

    -- Where the builder says that it has a size exactly if it holds rows, the rows are divided, in their
    -- order and without a loss, and `build_tables` writes one table after the other: for each part, which
    -- is not empty, a file of its rows and an edit with its first and its last key.
    pub build_tables-Divides :
        (level : ℕ) (es : List (Entry K R)) (w : W)
        → written_size [] ≡ 0
        → ((e : Entry K R) (rows : List (Entry K R)) → 0 < written_size (e ∷ rows))
        → (parts : List (List (Entry K R))) × (concat parts ≡ es)
          × All IsCons parts
          × (build_tables write written_size max_sst_file_size level (map ok es) w
              ≡ write_tables level parts w)
    unfolding build_tables
    build_tables-Divides level es w zero_size sized = (
      split_rows [] es,
      concat-split_rows sized [] es,
      split_rows-All [] es zero_size,
      build_loop-split_rows level [] es w,
    )
