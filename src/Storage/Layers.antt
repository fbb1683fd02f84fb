-- ===== src/Storage/Layers.antt =====
-- `DbStorage::get` finds the newest version in memory.
use tonbo.Prelude.{
  ℕ, ◌≤◌, ◌<◌, ◌≡◌, refl, Option, none, some, List, [], ◌∷◌, ◌++◌, arith, In, rev, inl, inr, ◌⊎◌,
  ap, sym, ◌∙◌,
}
use tonbo.Prelude.In.{here, there}
use tonbo.Prelude.Member.{In-nil, In-append, In-append_left, In-append_right}
use tonbo.Prelude.Result.{Result, ok}
use tonbo.Key.{Key}
use tonbo.Timestamp.{Timestamp, Ts, ts_key, new}
use tonbo.Scope.{FileId}
use tonbo.Version.{Version, query}
use tonbo.OrderedMap.{OrderedMap}
use tonbo.Memtable.Lookup.{IsNewest, get-IsNewest}
use tonbo.Storage.{
  ImmutableMemTable, DbStorage, with_row, with_rows, immutables_get, memory_get, storage_get,
  or_else, or_query,
}

after_not_before : (a b : ℕ) → a < b → b ≤ a → ⊥
after_not_before a b h l = omega arith

abbrev pub map_rows {ℓ κ} :
    {K : Type ℓ} {R : Type κ} → List (Option R) → List (Ts K × ℕ) → List (Ts K × Option R)
map_rows rows [] = []
map_rows rows (e ∷ es) = with_row rows e ∷ map_rows rows es

module _ {ℓ κ} {K : Type ℓ} {V : Type κ} where
  -- the versions of one key in the first list are newer than those in the second
  abbrev pub IsAbove : List (Ts K × V) → List (Ts K × V) → Type (ℓ ⊔ κ)
  IsAbove es fs = (e f : Ts K × V) → In e es → In f fs → e.0.value ≡ f.0.value → f.0.ts < e.0.ts

  -- A version that is newest in the first list is newest in both.
  IsNewest-above :
      (key : K) (ts : Timestamp) (es fs : List (Ts K × V)) (e : Ts K × V)
      → IsAbove es fs
      → IsNewest key ts es (some e)
      → IsNewest key ts (es ++ fs) (some e)
  IsNewest-above key ts es fs e above h = (
    In-append_left es fs h.0,
    h.1,
    h.2,
    λ d m p l. elim (In-append es fs m) [
      | inl n ↦ h.3 d n p l
      | inr n ↦ (let q = above e d h.0 n (h.1 ∙ sym p) in omega arith)
    ],
  )

  IsNewest-below :
      (key : K) (ts : Timestamp) (es fs : List (Ts K × V)) (r : Option (Ts K × V))
      → IsNewest key ts es none
      → IsNewest key ts fs r
      → IsNewest key ts (es ++ fs) r
  IsNewest-below key ts es fs none out h =
      λ e m p. elim (In-append es fs m) [ inl n ↦ out e n p | inr n ↦ h e n p ]
  IsNewest-below key ts es fs (some a) out h = (
    In-append_right es fs h.0,
    h.1,
    h.2,
    λ d m p l. elim (In-append es fs m) [
      | inl n ↦ elim (after_not_before _ _ (out d n p) l) [ ]
      | inr n ↦ h.3 d n p l
    ],
  )

  pub IsNewest-of_layers :
      (key : K) (ts : Timestamp) (es fs : List (Ts K × V)) (a b : Option (Ts K × V))
      → IsAbove es fs
      → IsNewest key ts es a
      → IsNewest key ts fs b
      → IsNewest key ts (es ++ fs) (or_else a b)
  IsNewest-of_layers key ts es fs (some e) b above h l = IsNewest-above key ts es fs e above h
  IsNewest-of_layers key ts es fs none b above h l = IsNewest-below key ts es fs b h l

module _ {ℓ κ} {K : Type ℓ} {R : Type κ} where
  pub In-map_rows :
      (rows : List (Option R)) (es : List (Ts K × ℕ)) (e : Ts K × ℕ)
      → In e es
      → In (with_row rows e) (map_rows rows es)
  In-map_rows rows [] e m = In-nil m
  In-map_rows rows (x ∷ es) e (here p) = here (ap (with_row rows) p)
  In-map_rows rows (x ∷ es) e (there m) = there (In-map_rows rows es e m)

  pub map_rows-In :
      (rows : List (Option R)) (es : List (Ts K × ℕ)) (d : Ts K × Option R)
      → In d (map_rows rows es)
      → (e : Ts K × ℕ) × In e es × (d.0 ≡ e.0)
  map_rows-In rows [] d m = In-nil m
  map_rows-In rows (x ∷ es) d (here p) = (x, here refl, ap (λ (t : Ts K × Option R). t.0) p)
  map_rows-In rows (x ∷ es) d (there m) = let w = map_rows-In rows es d m in (w.0, there w.1, w.2)

  IsNewest-of_rows :
      (rows : List (Option R)) (key : K) (ts : Timestamp) (es : List (Ts K × ℕ))
      (r : Option (Ts K × ℕ))
      → IsNewest key ts es r
      → IsNewest key ts (map_rows rows es) (with_rows rows r)
  IsNewest-of_rows rows key ts es none h = λ d m p.
      let w = map_rows-In rows es d m in
      let q = ap (λ (t : Ts K). t.ts) w.2 in
      let b = h w.0 w.1 (sym (ap (λ (t : Ts K). t.value) w.2) ∙ p) in rw q b
  IsNewest-of_rows rows key ts es (some a) h = (
    In-map_rows rows es a h.0,
    h.1,
    h.2,
    λ d m p l.
        let w = map_rows-In rows es d m in
        let q = ap (λ (t : Ts K). t.ts) w.2 in
        rw q (h.3 w.0 w.1 (sym (ap (λ (t : Ts K). t.value) w.2) ∙ p) (rw (sym q) l)),
  )

module _ {ℓ κ μ} {K : Type ℓ} {R : Type κ} {N : Type μ} ⦃k : Key K⦄
    (rows_map : OrderedMap (Ts K) ℕ N) where
  abbrev pub rows_of : ImmutableMemTable R N → List (Ts K × Option R)
  rows_of t = map_rows t.rows (rows_map.entries t.index)

  -- the versions of the immutable tables, the newest table first
  abbrev pub immutable_contents :
      List (Option FileId × ImmutableMemTable R N) → List (Ts K × Option R)
  immutable_contents [] = []
  immutable_contents (t ∷ ts) = rows_of t.1 ++ immutable_contents ts

  abbrev pub AreLayered : List (Option FileId × ImmutableMemTable R N) → Type (ℓ ⊔ κ)
  AreLayered [] = Unit
  AreLayered (t ∷ ts) = IsAbove (rows_of t.1) (immutable_contents ts) × AreLayered ts

  immutables_get-IsNewest :
      (key : K) (ts : Timestamp) (ts' : List (Option FileId × ImmutableMemTable R N))
      → AreLayered ts'
      → IsNewest key ts (immutable_contents ts') (immutables_get rows_map key ts ts')
  immutables_get-IsNewest key ts [] l = λ e m p. In-nil m
  immutables_get-IsNewest key ts (t ∷ ts') l =
      IsNewest-of_layers key ts (rows_of t.1) (immutable_contents ts') _ _ l.0
        (IsNewest-of_rows t.1.rows key ts (rows_map.entries t.1.index) _
          (get-IsNewest rows_map key ts t.1.index))
        (immutables_get-IsNewest key ts ts' l.1)

module _ {ℓ κ μ ν ξ} {K : Type ℓ} {R : Type κ} {M : Type μ} {N : Type ν} {W : Type ξ} ⦃k : Key K⦄
    (map : OrderedMap (Ts K) (Option R) M) (rows_map : OrderedMap (Ts K) ℕ N) where
  -- all versions in memory
  abbrev pub contents : DbStorage R M N W → List (Ts K × Option R)
  contents s = map.entries s.mutable.data_map ++ immutable_contents rows_map (rev s.immutables)

  -- of a key, each table has newer versions than the tables before it
  pub record IsLayered (s : DbStorage R M N W) : Type (ℓ ⊔ κ) where
    pub mutable_above :
        IsAbove (map.entries s.mutable.data_map) (immutable_contents rows_map (rev s.immutables))
    pub immutables_above : AreLayered rows_map (rev s.immutables)

  -- Where, of a key, each table in memory has newer versions than the tables before it, what is read
  -- in memory is the newest version of the key up to the timestamp, of all versions in memory, and
  -- where none is found there is none.
  pub memory_get-IsNewest :
      (key : K) (ts : Timestamp) (s : DbStorage R M N W)
      → IsLayered s
      → IsNewest key ts (contents s) (memory_get map rows_map key ts s)
  memory_get-IsNewest key ts s l =
      IsNewest-of_layers key ts (map.entries s.mutable.data_map) _ _ _ l.mutable_above
        (get-IsNewest map key ts s.mutable.data_map)
        (immutables_get-IsNewest rows_map key ts (rev s.immutables) l.immutables_above)

  -- The answer of a read is that of the memory, or of the tables of the version.
  abbrev pub Answers {χ} :
      {X : Type χ}
      → K
      → Timestamp
      → DbStorage R M N W
      → Result (Option (Ts K × Option R)) X
      → Result (Option (Ts K × Option R)) X
      → Type (ℓ ⊔ κ ⊔ χ)
  Answers key ts s queried result =
      ((e : Ts K × Option R) × IsNewest key ts (contents s) (some e) × (result ≡ ok (some e)))
      ⊎ (IsNewest key ts (contents s) none × (result ≡ queried))

  Answers-of {χ} :
      {X : Type χ} (key : K) (ts : Timestamp) (s : DbStorage R M N W) (r : Option (Ts K × Option R))
      (queried : Result (Option (Ts K × Option R)) X)
      → IsNewest key ts (contents s) r
      → Answers key ts s queried (or_query r queried)
  Answers-of key ts s (some e) queried h = inl (e, h, refl)
  Answers-of key ts s none queried h = inr (h, refl)

  -- Where, of a key, each table in memory has newer versions than the tables before it, a read
  -- returns the newest version of the key up to the timestamp, of all versions in memory, whether it
  -- is a value or a removal; and if the memory has none, it returns what the query of the version
  -- does.
  pub storage_get-Answers {χ} :
      {X : Type χ} (table_query : ℕ → FileId → Ts K → Result (Option (Ts K × Option R)) X)
      (v : Version K) (key : K) (ts : Timestamp) (s : DbStorage R M N W)
      → IsLayered s
      → Answers key ts s
          (query table_query (new key ts) v.level_slice)
          (storage_get map rows_map table_query v key ts s)
  unfolding storage_get
  storage_get-Answers table_query v key ts s l =
      Answers-of key ts s _ (query table_query (new key ts) v.level_slice)
        (memory_get-IsNewest key ts s l)
