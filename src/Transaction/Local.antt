-- ===== src/Transaction/Local.antt =====
-- A transaction reads its own writes, and what it did not write from its snapshot.
use tonbo.Prelude.{
  eq, ℕ, ◌≡◌, ◌≢◌, refl, ap, ◌∙◌, inl, inr, true, false, Bool-cases, Option, none, some, List, [],
  ◌∷◌, arith, if◌then◌else◌,
}
use tonbo.Prelude.Result.{Result, ok, err}
use tonbo.Key.{Key, ◌=?◌}
use tonbo.Key.Order.{cmp_of_eq}
use tonbo.Timestamp.{Timestamp, Ts, ts_key}
use tonbo.Scope.{FileId}
use tonbo.Version.{Version}
use tonbo.OrderedMap.{OrderedMap, lookup, select}
use tonbo.OrderedMap.Lookup.{lookup-insert, lookup-insert_other}
use tonbo.OrderedMap.Tree.{Tree, b_tree_map}
use tonbo.Storage.{DbStorage, snapshot_get, map_ok}
use tonbo.Transaction.{entry, transaction_get, or_snapshot}

-- the writes of a transaction, the newest first
module _ {ℓ κ} {K : Type ℓ} {R : Type κ} ⦃k : Key K⦄ where
  unfoldable pub local_of : List (K × Option R) → Tree K (Option R)
  local_of [] = b_tree_map.empty
  local_of (w ∷ older) = entry w.0 w.1 (local_of older)

  -- the newest write of the key
  unfoldable pub last_write : K → List (K × Option R) → Option (Option R)
  last_write key [] = none
  last_write key (w ∷ older) = if key =? w.0 then some w.1 else last_write key older

module _ {ℓ} {K : Type ℓ} ⦃k : Key K⦄ where
  differs : (a b : K) → (a =? b) ≡ false → a ≢ b
  differs a b h p = absurd (clash (cmp_of_eq a b p))
    where
      clash : k.cmp a b ≡ eq → ⊥
      clash q = ground arith

  is_same : (a b : K) → (a =? b) ≡ true → a ≡ b
  is_same a b h = k.eq_of_cmp a b (ground arith)

-- what is read where the snapshot has a record of the key, or has not
abbrev pub value_of {ℓ κ} : {K : Type ℓ} {R : Type κ} → Option (Ts K × R) → Option R
value_of none = none
value_of (some e) = some e.1

-- a write of the transaction before the snapshot
abbrev pub write_or {ℓ κ} :
    {R : Type ℓ} {X : Type κ} → Option (Option R) → Result (Option R) X → Result (Option R) X
write_or none snapshot = snapshot
write_or (some value) snapshot = ok value

or_snapshot-none {ℓ κ μ} :
    {K : Type ℓ} {R : Type κ} {X : Type μ} (r : Result (Option (Ts K × R)) X)
    → or_snapshot {K = K} none r ≡ map_ok value_of r
or_snapshot-none (ok none) = refl
or_snapshot-none (ok (some e)) = refl
or_snapshot-none (err x) = refl

module _ {ℓ κ μ ν ξ χ} {K : Type ℓ} {R : Type κ} {M : Type μ} {N : Type ν} {W : Type ξ} {X : Type χ}
    ⦃k : Key K⦄ (skip_map : OrderedMap (Ts K) (Option R) M) (rows_map : OrderedMap (Ts K) ℕ N)
    (table_query : ℕ → FileId → Ts K → Result (Option (Ts K × Option R)) X) where
  -- After a write of a key, the transaction reads the value, and none after a removal, whatever the
  -- snapshot has.
  pub transaction_get-entry :
      (local : Tree K (Option R)) (key : K) (value : Option R) (ts : Timestamp) (v : Version K)
      (s : DbStorage R M N W)
      → transaction_get skip_map rows_map table_query (entry key value local) ts v s key ≡ ok value
  unfolding transaction_get
  transaction_get-entry local key value ts v s =
      ap (λ w. or_snapshot w (snapshot_get skip_map rows_map table_query v key ts s))
        (lookup-insert b_tree_map key value local)

  transaction_get-entry_other :
      (local : Tree K (Option R)) (key other : K) (value : Option R) (ts : Timestamp)
      (v : Version K) (s : DbStorage R M N W)
      → other ≢ key
      → transaction_get skip_map rows_map table_query (entry key value local) ts v s other
        ≡ transaction_get skip_map rows_map table_query local ts v s other
  unfolding transaction_get
  transaction_get-entry_other local key other value ts v s ne =
      ap (λ w. or_snapshot w (snapshot_get skip_map rows_map table_query v other ts s))
        (lookup-insert_other b_tree_map key other value local ne)

  transaction_get-empty :
      (key : K) (ts : Timestamp) (v : Version K) (s : DbStorage R M N W)
      → transaction_get skip_map rows_map table_query b_tree_map.empty ts v s key
        ≡ or_snapshot none (snapshot_get skip_map rows_map table_query v key ts s)
  unfolding transaction_get lookup b_tree_map select
  transaction_get-empty key ts v s = refl

  -- A transaction that made a list of writes, which are puts and removals, reads of a key what its last
  -- write of the key says, a removal included; of a key that it did not write, it reads what its
  -- snapshot reads, the failure included.
  pub transaction_get-writes :
      (writes : List (K × Option R)) (key : K) (ts : Timestamp) (v : Version K)
      (s : DbStorage R M N W)
      → transaction_get skip_map rows_map table_query (local_of writes) ts v s key
        ≡ write_or
            (last_write key writes)
            (map_ok value_of (snapshot_get skip_map rows_map table_query v key ts s))
  unfolding local_of last_write
  transaction_get-writes [] key ts v s =
      transaction_get-empty key ts v s
      ∙ or_snapshot-none (snapshot_get skip_map rows_map table_query v key ts s)
  transaction_get-writes (w ∷ older) key ts v s = elim (Bool-cases (key =? w.0)) [
    | inl same ↦ rw same (
        ap (λ z. transaction_get skip_map rows_map table_query (local_of (w ∷ older)) ts v s z)
          (is_same key w.0 same)
        ∙ transaction_get-entry (local_of older) w.0 w.1 ts v s)
    | inr other ↦ rw other (
        transaction_get-entry_other (local_of older) w.0 key w.1 ts v s (differs key w.0 other)
        ∙ transaction_get-writes older key ts v s)
  ]
