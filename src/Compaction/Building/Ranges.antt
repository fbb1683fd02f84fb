-- ===== src/Compaction/Building/Ranges.antt =====
-- The ranges of the tables of `build_tables`.
use tonbo.Prelude.{
  ℕ, ◌<◌, true, Option, none, some, List, [], ◌∷◌, ◌++◌, map, ◌≡◌, refl, sym, ap, ◌∙◌, some-eq, All,
  Sorted, In, inl, inr, subst,
}
use tonbo.Prelude.In.{here, there}
use tonbo.Prelude.Member.{In-nil, In-append, All-In, All-of_In, In-append_left, In-append_right}
use tonbo.Prelude.Result.{Result, ok, err, ◌>>=◌, ok-injective}
use tonbo.Key.{Key, ◌≺◌, ◌≼◌}
use tonbo.Key.Order.{≼_of_≺, ≼_refl}
use tonbo.Scope.{Scope, FileId, contains}
use tonbo.Stream.{Entry}
use tonbo.Version.Edit.{VersionEdit, add}
use tonbo.Version.Search.{IsDisjoint}
use tonbo.Compaction.{CompactionError, ok_or_empty}
use tonbo.Compaction.Building.{build_table, build_tables}
use tonbo.Compaction.Building.Tables.{
  IsCons, concat, of_rows, last_key, write_tables, build_tables-Divides,
}

-- what a result that is there was made of
pub bind-ok {ℓ κ μ} :
    {A : Type ℓ} {B : Type κ} {E : Type μ} (m : Result A E) (f : A → Result B E) {b : B}
    → (m >>= f) ≡ ok b
    → (a : A) × (m ≡ ok a) × (f a ≡ ok b)
bind-ok (ok a) f h = (a, refl, h)
bind-ok (err e) f h = cc

module _ {ℓ κ} {A : Type ℓ} (L : A → A → Type κ) where
  Sorted-append_right : (xs ys : List A) → Sorted L (xs ++ ys) → Sorted L ys
  Sorted-append_right [] ys s = s
  Sorted-append_right (x ∷ xs) ys s = Sorted-append_right xs ys s.1

  Sorted-append_left : (xs ys : List A) → Sorted L (xs ++ ys) → Sorted L xs
  Sorted-append_left [] ys s = tt
  Sorted-append_left (x ∷ xs) ys s = (
    All-of_In xs (λ a m. All-In (L x) (xs ++ ys) s.0 (In-append_left xs ys m)),
    Sorted-append_left xs ys s.1,
  )

  Sorted-across : (xs ys : List A) (a b : A) → Sorted L (xs ++ ys) → In a xs → In b ys → L a b
  Sorted-across [] ys a b s m n = In-nil m
  Sorted-across (x ∷ xs) ys a b s (here p) n =
      subst (λ t. L t b) (sym p) (All-In (L x) (xs ++ ys) s.0 (In-append_right xs ys n))
  Sorted-across (x ∷ xs) ys a b s (there m) n = Sorted-across xs ys a b s.1 m n

module _ {ℓ} {K : Type ℓ} where
  -- the tables that are added
  abbrev pub scopes_of : List (VersionEdit K) → List (Scope K)
  scopes_of [] = []
  scopes_of (add level s ∷ es) = s ∷ scopes_of es
  scopes_of (_ ∷ es) = scopes_of es

module _ {ℓ κ} {K : Type ℓ} {R : Type κ} where
  pub last_row : Entry K R → List (Entry K R) → Entry K R
  last_row e [] = e
  last_row e (f ∷ es) = last_row f es

  last_key-last_row :
      (e : Entry K R) (es : List (Entry K R)) → last_key (e ∷ es) ≡ some (last_row e es).key.value
  unfolding last_row
  last_key-last_row e [] = refl
  last_key-last_row e (f ∷ es) = last_key-last_row f es

  last_row-In : (e : Entry K R) (es : List (Entry K R)) → In (last_row e es) (e ∷ es)
  unfolding last_row
  last_row-In e [] = here refl
  last_row-In e (f ∷ es) = there (last_row-In f es)

module _ {ℓ κ} {K : Type ℓ} {R : Type κ} ⦃k : Key K⦄ where
  abbrev pub Comes : Entry K R → Entry K R → Type 0
  Comes x y = x.key.value ≺ y.key.value

  -- the rows are of different keys, in their order
  abbrev pub AreAscending : List (Entry K R) → Type 0
  AreAscending es = Sorted Comes es

  last_row-greatest :
      (e : Entry K R) (es : List (Entry K R)) (x : Entry K R)
      → AreAscending (e ∷ es)
      → In x (e ∷ es)
      → x.key.value ≼ (last_row e es).key.value
  unfolding last_row
  last_row-greatest e [] x s (here p) = rw p (≼_refl e.key.value)
  last_row-greatest e [] x s (there m) = In-nil m
  last_row-greatest e (f ∷ es) x s (here p) = rw p (
      ≼_of_≺ e.key.value (last_row f es).key.value
        (All-In (λ (y : Entry K R). e.key.value ≺ y.key.value) (f ∷ es) s.0 (last_row-In f es)))
  last_row-greatest e (f ∷ es) x s (there m) = last_row-greatest f es x s.1 m

  first_row-least :
      (e : Entry K R) (es : List (Entry K R)) (x : Entry K R)
      → AreAscending (e ∷ es)
      → In x (e ∷ es)
      → e.key.value ≼ x.key.value
  first_row-least e es x s (here p) = rw p (≼_refl e.key.value)
  first_row-least e es x s (there m) =
      ≼_of_≺ e.key.value x.key.value
        (All-In (λ (y : Entry K R). e.key.value ≺ y.key.value) es s.0 m)

  -- the table of some rows
  pub record IsTable (e : Entry K R) (es : List (Entry K R)) (s : Scope K) : Type ℓ where
    pub first_is : s.min ≡ e.key.value
    pub last_is : s.max ≡ (last_row e es).key.value

  pub IsTable-contains :
      (e : Entry K R) (es : List (Entry K R)) (s : Scope K) (x : Entry K R)
      → IsTable e es s
      → AreAscending (e ∷ es)
      → In x (e ∷ es)
      → contains s x.key.value ≡ true
  unfolding contains
  IsTable-contains e es s x t o m =
      let lo = first_row-least e es x o m in
      let hi = last_row-greatest e es x o m in rw (t.first_is, t.last_is, lo, hi) refl

  -- a table for each part
  data AreTables : List (List (Entry K R)) → List (Scope K) → Type (ℓ ⊔ κ) where
    no_more : AreTables [] []
    one_more :
        {e : Entry K R} {es : List (Entry K R)} {s : Scope K} {parts : List (List (Entry K R))}
        {ss : List (Scope K)}
        → IsTable e es s
        → AreTables parts ss
        → AreTables ((e ∷ es) ∷ parts) (s ∷ ss)

  IsTable-le :
      (e : Entry K R) (es : List (Entry K R)) (s : Scope K)
      → IsTable e es s
      → AreAscending (e ∷ es)
      → s.min ≼ s.max
  IsTable-le e es s t o =
      let h = last_row-greatest e es e o (here refl) in rw (t.first_is, t.last_is) h

  IsTable-after :
      (e : Entry K R) (es : List (Entry K R)) (s : Scope K) (x : Entry K R)
      → IsTable e es s
      → (rest : List (Entry K R)) → AreAscending ((e ∷ es) ++ rest)
      → In x rest
      → s.max ≺ x.key.value
  IsTable-after e es s x t rest o m =
      let h = Sorted-across Comes (e ∷ es) rest (last_row e es) x o (last_row-In e es) m in
      rw t.last_is h

  AreTables-above :
      (hi : K) (parts : List (List (Entry K R))) (ss : List (Scope K))
      → AreTables parts ss
      → ((x : Entry K R) → In x (concat parts) → hi ≺ x.key.value)
      → All (λ (s : Scope K). hi ≺ s.min) ss
  AreTables-above hi _ _ no_more f = tt
  AreTables-above hi _ _ (one_more {e} {es} {s} {parts} {ss} t ts) f = (
    rw t.first_is (f e (here refl)),
    AreTables-above hi parts ss ts (λ x m. f x (there (In-append_right es (concat parts) m))),
  )

  AreTables-IsDisjoint :
      (parts : List (List (Entry K R))) (ss : List (Scope K))
      → AreTables parts ss
      → AreAscending (concat parts)
      → IsDisjoint ss
  AreTables-IsDisjoint _ _ no_more o = (tt, tt)
  AreTables-IsDisjoint _ _ (one_more {e} {es} {s} {parts} {ss} t ts) o =
      let rest =
        AreTables-IsDisjoint parts ss ts (Sorted-append_right Comes (e ∷ es) (concat parts) o) in
      let low = IsTable-le e es s t (Sorted-append_left Comes (e ∷ es) (concat parts) o) in
      (
        (low, rest.0),
        (
          AreTables-above s.max parts ss ts (λ x m. IsTable-after e es s x t (concat parts) o m),
          rest.1,
        ),
      )

  AreTables-contain :
      (parts : List (List (Entry K R))) (ss : List (Scope K)) (x : Entry K R)
      → AreTables parts ss
      → AreAscending (concat parts)
      → In x (concat parts)
      → (s : Scope K) × In s ss × (contains s x.key.value ≡ true)
  AreTables-contain _ _ x no_more o m = In-nil m
  AreTables-contain _ _ x (one_more {e} {es} {s} {parts} {ss} t ts) o m =
      elim (In-append (e ∷ es) (concat parts) m) [
        | inl l ↦ (
          s,
          here refl,
          IsTable-contains e es s x t (Sorted-append_left Comes (e ∷ es) (concat parts) o) l,
        )
        | inr r ↦
            let h =
              AreTables-contain parts ss x ts (Sorted-append_right Comes (e ∷ es) (concat parts) o)
                r in
            (h.0, there h.1, h.2)
      ]

module _ {ℓ κ μ} {K : Type ℓ} {R : Type κ} {W : Type μ} ⦃k : Key K⦄
    (write : ℕ → List (Entry K R) → W → Result (FileId × ℕ × W) CompactionError) where
  built-IsTable :
      (level : ℕ) (e : Entry K R) (es : List (Entry K R)) (f : FileId × ℕ × W) (hi : Option K)
      (r : VersionEdit K × W)
      → hi ≡ some (last_row e es).key.value
      → (ok_or_empty hi >>= λ m. ok (
        add level
            (record { min = e.key.value; max = m; gen = f.0; wal_ids = none; file_size = f.1 }),
        f.2,
      ))
        ≡ ok r
      → (s : Scope K) × (r.0 ≡ add level s) × IsTable e es s
  built-IsTable level e es f none r p h = cc
  built-IsTable level e es f (some m) r p h = (
    record { min = e.key.value; max = m; gen = f.0; wal_ids = none; file_size = f.1 },
    sym (ap (λ (t : VersionEdit K × W). t.0) (ok-injective _ r h)),
    record { first_is = refl; last_is = some-eq m _ p },
  )

  pub build_table-IsTable :
      (level : ℕ) (e : Entry K R) (es : List (Entry K R)) (w : W) (r : VersionEdit K × W)
      → build_table write level (of_rows (e ∷ es)) w ≡ ok r
      → (s : Scope K) × (r.0 ≡ add level s) × IsTable e es s
  unfolding build_table
  build_table-IsTable level e es w r h =
      let f = bind-ok (write level (e ∷ es) w) _ h in
      built-IsTable level e es f.0 (last_key (e ∷ es)) r (last_key-last_row e es) f.2

  write_tables-AreTables :
      (level : ℕ) (parts : List (List (Entry K R))) (w : W) (r : List (VersionEdit K) × W)
      → All IsCons parts
      → write_tables write level parts w ≡ ok r
      → AreTables parts (scopes_of r.0)
  unfolding write_tables
  write_tables-AreTables level [] w r c h =
      subst (λ z. AreTables {R = R} [] (scopes_of z.0)) (ok-injective ([], w) r h) AreTables.no_more
  write_tables-AreTables level ([] ∷ parts) w r c h = elim c.0 [ ]
  write_tables-AreTables level ((e ∷ es) ∷ parts) w r c h =
      let t = bind-ok (build_table write level (of_rows (e ∷ es)) w) _ h in
      let s = build_table-IsTable level e es w t.0 t.1 in
      let u = bind-ok (write_tables write level parts t.0.1) _ t.2 in
      let rest = write_tables-AreTables level parts t.0.1 u.0 c.1 u.1 in
      subst (λ z. AreTables ((e ∷ es) ∷ parts) (scopes_of z.0)) (ok-injective _ r u.2)
        (subst (λ z. AreTables ((e ∷ es) ∷ parts) (scopes_of (z ∷ u.0.0))) (sym s.1)
          (AreTables.one_more s.2 rest))

  module _ (written_size : List (Entry K R) → ℕ) (max_sst_file_size : ℕ) where
    -- Where the builder says that it has a size exactly if it holds rows, and the rows are of different
    -- keys in their order: the tables that `build_tables` adds are disjoint and in order, and each row
    -- is in the range of one of them.
    pub build_tables-IsDisjoint :
        (level : ℕ) (es : List (Entry K R)) (w : W) (r : List (VersionEdit K) × W)
        → written_size [] ≡ 0
        → ((e : Entry K R) (rows : List (Entry K R)) → 0 < written_size (e ∷ rows))
        → AreAscending es
        → build_tables write written_size max_sst_file_size level (map ok es) w ≡ ok r
        → IsDisjoint (scopes_of r.0)
          × ((e : Entry K R)
              → In e es
              → (s : Scope K) × In s (scopes_of r.0) × (contains s e.key.value ≡ true))
    build_tables-IsDisjoint level es w r zero_size sized o h =
        let d =
          build_tables-Divides write written_size max_sst_file_size level es w zero_size sized in
        let t = write_tables-AreTables level d.0 w r d.2 (sym d.3 ∙ h) in
        let p = subst AreAscending (sym d.1) o in
        (
          AreTables-IsDisjoint d.0 (scopes_of r.0) t p,
          λ e m. AreTables-contain d.0 (scopes_of r.0) e t p (subst (In e) (sym d.1) m),
        )
