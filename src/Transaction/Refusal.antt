-- ===== src/Transaction/Refusal.antt =====
-- When `commit` refuses.
use tonbo.Prelude.{
  ℕ, ◌<◌, ◌≡◌, refl, Bool, true, false, Option, none, some, List, [], ◌∷◌, ◌++◌, In, inl, inr, ◌⊎◌,
  ◌↔◌, ◌||◌, rev, if◌then◌else◌, subst,
}
use tonbo.Prelude.In.{here, there}
use tonbo.Prelude.Member.{In-nil, In-append, In-append_left, In-append_right}
use tonbo.Prelude.Result.{Result, err}
use tonbo.Key.{Key}
use tonbo.Timestamp.{Timestamp, Ts, ts_key, max_timestamp}
use tonbo.Scope.{FileId}
use tonbo.Version.{Version}
use tonbo.OrderedMap.{OrderedMap}
use tonbo.Memtable.{Log, TriggerType, check_conflict}
use tonbo.Memtable.Conflict.{IsNewer, check_conflict-IsNewer}
use tonbo.Storage.{ImmutableMemTable, DbStorage, storage_conflict, any_conflict, with_row}
use tonbo.Storage.Layers.{contents, immutable_contents, rows_of, map_rows, In-map_rows, map_rows-In}
use tonbo.Transaction.{
  CommitError, Committed, write_conflict, unless_conflict, find_conflict, commit_writes, commit,
}

-- a test of two is a choice between what they test
either_iff {ℓ κ} :
    {P : Type ℓ} {Q : Type κ} (a b : Bool)
    → ((a ≡ true) ↔ P)
    → ((b ≡ true) ↔ Q)
    → ((a || b) ≡ true) ↔ (P ⊎ Q)
either_iff true b p q = (λ e. inl (p.0 refl), λ e. refl)
either_iff false b p q =
    (λ e. inr (q.0 e), λ e. elim e [ inl l ↦ (let z = p.1 l in cc) | inr r ↦ q.1 r ])

module _ {ℓ κ} {K : Type ℓ} {V : Type κ} where
  -- a version of the key that is newer than the timestamp
  abbrev pub HasNewer : K → Timestamp → List (Ts K × V) → Type (ℓ ⊔ κ)
  HasNewer key ts es = (e : Ts K × V) × In e es × IsNewer key ts e

  newer_of_two :
      (key : K) (ts : Timestamp) (es fs : List (Ts K × V))
      → HasNewer key ts es ⊎ HasNewer key ts fs
      → HasNewer key ts (es ++ fs)
  newer_of_two key ts es fs (inl w) = (w.0, In-append_left es fs w.1, w.2)
  newer_of_two key ts es fs (inr w) = (w.0, In-append_right es fs w.1, w.2)

  two_of_newer :
      (key : K) (ts : Timestamp) (es fs : List (Ts K × V))
      → HasNewer key ts (es ++ fs)
      → HasNewer key ts es ⊎ HasNewer key ts fs
  two_of_newer key ts es fs w = elim (In-append es fs w.1) [
    | inl l ↦ inl (w.0, l, w.2)
    | inr r ↦ inr (w.0, r, w.2)
  ]

module _ {ℓ κ} {K : Type ℓ} {R : Type κ} where
  newer_of_rows :
      (rows : List (Option R)) (key : K) (ts : Timestamp) (es : List (Ts K × ℕ))
      → HasNewer key ts es
      → HasNewer key ts (map_rows rows es)
  newer_of_rows rows key ts es w = (with_row rows w.0, In-map_rows rows es w.0 w.1, w.2)

  rows_of_newer :
      (rows : List (Option R)) (key : K) (ts : Timestamp) (es : List (Ts K × ℕ))
      → HasNewer key ts (map_rows rows es)
      → HasNewer key ts es
  rows_of_newer rows key ts es w =
      let r = map_rows-In rows es w.0 w.1 in
      (r.0, r.1, subst (λ (t : Ts K). (t.value ≡ key) × ts < t.ts × t.ts < max_timestamp) r.2 w.2)

module _ {ℓ κ μ} {K : Type ℓ} {R : Type κ} {N : Type μ} ⦃k : Key K⦄
    (rows_map : OrderedMap (Ts K) ℕ N) where
  any_conflict-HasNewer :
      (key : K) (ts : Timestamp) (ts' : List (Option FileId × ImmutableMemTable R N))
      → (any_conflict rows_map key ts ts' ≡ true)
        ↔ HasNewer key ts (immutable_contents rows_map ts')
  any_conflict-HasNewer key ts [] = (λ p. cc, λ w. In-nil w.1)
  any_conflict-HasNewer key ts (t ∷ ts') =
      let h =
        either_iff (check_conflict rows_map key ts t.1.index) (any_conflict rows_map key ts ts')
          (check_conflict-IsNewer rows_map key ts t.1.index) (any_conflict-HasNewer key ts ts') in
      (
        λ p.
            newer_of_two key ts (rows_of rows_map t.1) (immutable_contents rows_map ts')
              (elim (h.0 p) [
                | inl w ↦ inl (newer_of_rows t.1.rows key ts (rows_map.entries t.1.index) w)
                | inr w ↦ inr w
              ]),
        λ w.
            h.1
              (elim (two_of_newer key ts (rows_of rows_map t.1) (immutable_contents rows_map ts')
                w) [
                  | inl l ↦ inl (rows_of_newer t.1.rows key ts (rows_map.entries t.1.index) l)
                  | inr r ↦ inr r
                ]),
      )

module _ {ℓ κ μ ν ξ} {K : Type ℓ} {R : Type κ} {M : Type μ} {N : Type ν} {W : Type ξ} ⦃k : Key K⦄
    (skip_map : OrderedMap (Ts K) (Option R) M) (rows_map : OrderedMap (Ts K) ℕ N) where
  storage_conflict-HasNewer :
      (key : K) (ts : Timestamp) (s : DbStorage R M N W)
      → (storage_conflict skip_map rows_map key ts s ≡ true)
        ↔ HasNewer key ts (contents skip_map rows_map s)
  storage_conflict-HasNewer key ts s =
      let h =
        either_iff (check_conflict skip_map key ts s.mutable.data_map)
          (any_conflict rows_map key ts (rev s.immutables))
          (check_conflict-IsNewer skip_map key ts s.mutable.data_map)
          (any_conflict-HasNewer rows_map key ts (rev s.immutables)) in
      (
        λ p. newer_of_two key ts (skip_map.entries s.mutable.data_map) _ (h.0 p),
        λ w. h.1 (two_of_newer key ts (skip_map.entries s.mutable.data_map) _ w),
      )

  -- what the search for a conflict finds
  abbrev Finds : Timestamp → DbStorage R M N W → List (K × Option R) → Option K → Type (ℓ ⊔ κ)
  Finds ts s writes none =
      (e : K × Option R) → In e writes → ¬ HasNewer e.0 ts (contents skip_map rows_map s)
  Finds ts s writes (some key) =
      (e : K × Option R) × In e writes
      × (e.0 ≡ key)
      × HasNewer key ts (contents skip_map rows_map s)

  Finds-skip :
      (ts : Timestamp) (s : DbStorage R M N W) (e : K × Option R) (es : List (K × Option R))
      (o : Option K)
      → storage_conflict skip_map rows_map e.0 ts s ≡ false
      → Finds ts s es o
      → Finds ts s (e ∷ es) o
  Finds-skip ts s e es none out f = λ d m w. elim m [
    | here p ↦
        let q =
          (storage_conflict-HasNewer e.0 ts s).1
            (subst (λ (t : K × Option R). HasNewer t.0 ts (contents skip_map rows_map s)) p w) in
        cc
    | there n ↦ f d n w
  ]
  Finds-skip ts s e es (some key) out f = (f.0, there f.1, f.2, f.3)

  Finds-step :
      (ts : Timestamp) (s : DbStorage R M N W) (e : K × Option R) (es : List (K × Option R))
      (c : Bool) (o : Option K)
      → storage_conflict skip_map rows_map e.0 ts s ≡ c
      → Finds ts s es o
      → Finds ts s (e ∷ es) (if c then some e.0 else o)
  Finds-step ts s e es true o p f = (e, here refl, refl, (storage_conflict-HasNewer e.0 ts s).0 p)
  Finds-step ts s e es false o p f = Finds-skip ts s e es o p f

  find_conflict-Finds :
      (ts : Timestamp) (s : DbStorage R M N W) (writes : List (K × Option R))
      → Finds ts s writes (find_conflict skip_map rows_map ts s writes)
  unfolding find_conflict
  find_conflict-Finds ts s [] = λ e m w. In-nil m
  find_conflict-Finds ts s (e ∷ es) =
      Finds-step ts s e es (storage_conflict skip_map rows_map e.0 ts s) _ refl
        (find_conflict-Finds ts s es)

  module _ {χ} {X : Type χ} (write : Log K R → W → Result W X) (trigger : TriggerType)
      (size_of : R → ℕ) where
    -- either a key that was written since is refused and nothing changes, or none was, and the commit
    -- goes on to the writes
    abbrev pub Decides :
        Timestamp
        → List (K × Option R)
        → DbStorage R M N W
        → Version K
        → Committed (DbStorage R M N W) (Version K) (Result Bool (CommitError K X))
        → Type (ℓ ⊔ κ ⊔ μ ⊔ ν ⊔ ξ ⊔ χ)
    Decides ts writes s v c =
        ((key : K) × Finds ts s writes (some key)
          × (c ≡ record { storage = s; version = v; answer = err (write_conflict key) }))
        ⊎ (Finds ts s writes none
            × (c ≡ commit_writes skip_map write trigger size_of rows_map writes s v))

    unless_conflict-Decides :
        (ts : Timestamp) (writes : List (K × Option R)) (s : DbStorage R M N W) (v : Version K)
        (o : Option K)
        → Finds ts s writes o
        → Decides ts writes s v (
            unless_conflict o s v
              (commit_writes skip_map write trigger size_of rows_map writes s v))
    unless_conflict-Decides ts writes s v (some key) f = inl (key, f, refl)
    unless_conflict-Decides ts writes s v none f = inr (f, refl)

    -- A commit is refused exactly if the memory has a version of a key of the transaction that is
    -- newer than its snapshot, and before the last timestamp there is: it names such a key, and the
    -- storage and the counter stay as they were. Otherwise it goes on to the writes.
    pub commit-Decides :
        (ts : Timestamp) (writes : List (K × Option R)) (s : DbStorage R M N W) (v : Version K)
        → Decides ts writes s v (commit skip_map write trigger size_of rows_map ts writes s v)
    unfolding commit
    commit-Decides ts writes s v =
        unless_conflict-Decides ts writes s v _ (find_conflict-Finds ts s writes)
