-- ===== src/Transaction/Commit.antt =====
-- What `commit` does to the memory, and when it refuses.
use tonbo.Prelude.{
  ℕ, suc, ◌<◌, ◌≡◌, refl, ap, ◌∙◌, Bool, Option, none, some, List, [], ◌∷◌, ◌++◌, arith, In, Sorted,
  length, take, drop, subst, ◌-◌,
}
use tonbo.Prelude.Result.{Result, ok, err}
use tonbo.Key.{Key}
use tonbo.Timestamp.{Timestamp, Ts, ts_key, new}
use tonbo.Version.{Version, increase_ts}
use tonbo.OrderedMap.{OrderedMap, Before}
use tonbo.Memtable.{
  LogType, middle, last_part, Log, WriteResult, continue, TriggerType, MutableMemTable, append,
  after_log, get,
}
use tonbo.Memtable.Writes.{insert_all, get-insert_all, get-insert_all_before}
use tonbo.Storage.{DbStorage}
use tonbo.Transaction.{
  CommitError, Committed, framed, with_type, one, unless_conflict, answer_of, after_append,
  append_all, commit_writes, commit,
}

abbrev writes_of {ℓ} : {A : Type ℓ} → List (LogType × A) → List A
writes_of [] = []
writes_of (e ∷ es) = e.1 ∷ writes_of es

frames_writes {ℓ} :
    {A : Type ℓ} (b : A) (l : List A)
    → writes_of (
        with_type middle (take (length l) (b ∷ l))
        ++ with_type last_part (one (drop (length l) (b ∷ l))))
      ≡ b ∷ l
frames_writes b [] = refl
frames_writes b (c ∷ l) = ap (λ t. b ∷ t) (frames_writes c l)

less_two : (n : ℕ) → suc (suc n) - 2 ≡ n
less_two n = omega arith

-- the frames hold the writes in their order
framed-writes {ℓ} : {A : Type ℓ} (es : List A) → writes_of (framed es) ≡ es
unfolding framed
framed-writes [] = refl
framed-writes (a ∷ []) = refl
framed-writes (a ∷ b ∷ l) =
    ap (λ t. a ∷ t)
      (ap
          (λ n.
            writes_of
              (with_type middle (take n (b ∷ l)) ++ with_type last_part (one (drop n (b ∷ l)))))
          {y = length l} (less_two (length l))
        ∙ frames_writes b l)

module _ {ℓ κ μ ξ χ} {K : Type ℓ} {R : Type κ} {M : Type μ} {W : Type ξ} {X : Type χ} ⦃k : Key K⦄
    (skip_map : OrderedMap (Ts K) (Option R) M) (write : Log K R → W → Result W X)
    (trigger : TriggerType) (size_of : R → ℕ) where
  -- an append that succeeds is an insertion, and one that fails leaves the table
  after_log-insert :
      (key : K) (ts : Timestamp) (value : Option R) (t : MutableMemTable M W)
      (next : WriteResult → MutableMemTable M W → MutableMemTable M W × Result WriteResult X)
      (logged : Result (Option W) X) (P : MutableMemTable M W × Result WriteResult X → Type μ)
      → ((x : X) → P (t, err x))
      → ((r : WriteResult) (t' : MutableMemTable M W)
          → t'.data_map ≡ skip_map.insert (new key ts) value t.data_map
          → P (next r t'))
      → P (after_append t next (after_log skip_map write trigger size_of key ts value t logged))
  after_log-insert key ts value t next (err x) P f g = f x
  after_log-insert key ts value t next (ok w) P f g = g _ _ refl

  -- if all writes succeed, the table has them all
  abbrev Inserts :
      Timestamp → List (K × Option R) → M → MutableMemTable M W × Result WriteResult X → Type μ
  Inserts ts es m (t, err x) = Unit
  Inserts ts es m (t, ok r) = t.data_map ≡ insert_all skip_map ts es m

  append_all-Inserts :
      (last : WriteResult) (es : List (LogType × (K × Option R))) (ts : Timestamp)
      (t : MutableMemTable M W)
      → Inserts ts
          (writes_of es)
          t.data_map
          (append_all skip_map write trigger size_of last es ts t)
  unfolding append_all append
  append_all-Inserts last [] ts t = refl
  append_all-Inserts last (e ∷ es) ts t =
      after_log-insert e.1.0 ts e.1.1 t _ _ (Inserts ts (writes_of (e ∷ es)) t.data_map) (λ x. tt)
        (λ r t' p.
          subst
            (λ m.
              Inserts ts (writes_of es) m (append_all skip_map write trigger size_of r es ts t'))
            p (append_all-Inserts r es ts t'))

  of_Inserts :
      {A : Type ℓ} (ts : Timestamp) (es : List (K × Option R)) (m : M)
      (r : MutableMemTable M W × Result WriteResult X) (b : Bool)
      → Inserts ts es m r
      → answer_of {K = A} r.1 ≡ ok b
      → r.0.data_map ≡ insert_all skip_map ts es m
  of_Inserts ts es m (t, err x) b h p = cc
  of_Inserts ts es m (t, ok r) b h p = h

  module _ {ν} {N : Type ν} (rows_map : OrderedMap (Ts K) ℕ N) where
    writes-insert :
        (writes : List (K × Option R)) (s : DbStorage R M N W) (v : Version K) (b : Bool)
        → (commit_writes skip_map write trigger size_of rows_map writes s v).answer ≡ ok b
        → (commit_writes skip_map write trigger size_of rows_map writes s
            v).storage.mutable.data_map
          ≡ insert_all skip_map (increase_ts v).0 writes s.mutable.data_map
    unfolding commit_writes
    writes-insert [] s v b p = refl
    writes-insert (e ∷ es) s v b p =
        of_Inserts (increase_ts v).0 (e ∷ es) s.mutable.data_map
          (append_all skip_map write trigger size_of continue (framed (e ∷ es)) (increase_ts v).0
            s.mutable)
          b
          (subst
            (λ w. Inserts (increase_ts v).0 w s.mutable.data_map (
              append_all skip_map write trigger size_of continue (framed (e ∷ es)) (increase_ts v).0
                s.mutable))
            (framed-writes (e ∷ es))
            (append_all-Inserts continue (framed (e ∷ es)) (increase_ts v).0 s.mutable))
          p

    unless_conflict-insert :
        (o : Option K) (m : M) (s : DbStorage R M N W) (v : Version K)
        (c : Committed (DbStorage R M N W) (Version K) (Result Bool (CommitError K X))) (b : Bool)
        → (c.answer ≡ ok b → c.storage.mutable.data_map ≡ m)
        → (unless_conflict o s v c).answer ≡ ok b
        → (unless_conflict o s v c).storage.mutable.data_map ≡ m
    unless_conflict-insert (some key) m s v c b f p = cc
    unless_conflict-insert none m s v c b f p = f p

    commit-insert :
        (ts : Timestamp) (writes : List (K × Option R)) (s : DbStorage R M N W) (v : Version K)
        (b : Bool)
        → (commit skip_map write trigger size_of rows_map ts writes s v).answer ≡ ok b
        → (commit skip_map write trigger size_of rows_map ts writes s v).storage.mutable.data_map
          ≡ insert_all skip_map (increase_ts v).0 writes s.mutable.data_map
    unfolding commit
    commit-insert ts writes s v b p =
        unless_conflict-insert _ _ s v
          (commit_writes skip_map write trigger size_of rows_map writes s v) b
          (writes-insert writes s v b) p

    -- Where a commit of writes of different keys, in the order of the keys, succeeds, a read of the
    -- mutable table with the new timestamp finds each write, a removal too.
    pub commit_reads_new :
        (ts : Timestamp) (writes : List (K × Option R)) (s : DbStorage R M N W) (v : Version K)
        (b : Bool) (e : K × Option R)
        → Sorted Before writes
        → (commit skip_map write trigger size_of rows_map ts writes s v).answer ≡ ok b
        → In e writes
        → get skip_map e.0
            (increase_ts v).0
            (commit skip_map write trigger size_of rows_map ts writes s v).storage.mutable.data_map
          ≡ some (new e.0 (increase_ts v).0, e.1)
    commit_reads_new ts writes s v b e sorted p m =
        rw (commit-insert ts writes s v b p)
          (get-insert_all skip_map (increase_ts v).0 writes s.mutable.data_map e sorted m)

    -- Where a commit succeeds, a read of the mutable table with a timestamp before the new one finds
    -- what it found before the commit.
    pub commit_reads_old :
        (ts : Timestamp) (writes : List (K × Option R)) (s : DbStorage R M N W) (v : Version K)
        (b : Bool) (key : K) (snapshot : Timestamp)
        → (commit skip_map write trigger size_of rows_map ts writes s v).answer ≡ ok b
        → snapshot < (increase_ts v).0
        → get skip_map key snapshot
            (commit skip_map write trigger size_of rows_map ts writes s v).storage.mutable.data_map
          ≡ get skip_map key snapshot s.mutable.data_map
    commit_reads_old ts writes s v b key snapshot p lt =
        rw (commit-insert ts writes s v b p) (
          get-insert_all_before skip_map key (increase_ts v).0 snapshot writes s.mutable.data_map
            lt)
