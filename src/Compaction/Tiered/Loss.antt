-- ===== src/Compaction/Tiered/Loss.antt =====
-- The rows of a tier that a compaction does not read.
use tonbo.Prelude.{ℕ, suc, ◌-◌, ◌≡◌, ap, subst, List, [], ◌∷◌, In, All, length}
use tonbo.Prelude.In.{here, there}
use tonbo.Prelude.Member.{In-nil, In-append_right}
use tonbo.Prelude.Result.{Result, ok, ◌>>=◌, ok-injective}
use tonbo.Key.{Key, ◌≺◌, ◌≼◌}
use tonbo.Key.Order.{not_≺_of_≼}
use tonbo.Scope.{Scope}
use tonbo.Version.{Version, level}
use tonbo.Version.Edit.{VersionEdit, SsTableId, remove}
use tonbo.Compaction.{CompactionError, Source, table, run, full_scope}
use tonbo.Compaction.Leveled.{removals}
use tonbo.Compaction.Building.Ranges.{bind-ok}
use tonbo.Compaction.Tiered.{tier_sources, compact_scopes, tier_compaction}

module _ {ℓ} {K : Type ℓ} where
  In-removals :
      (i : ℕ) (ss : List (Scope K)) {s : Scope K} → In s ss → In (remove i s.gen) (removals i ss)
  In-removals i [] m = In-nil m
  In-removals i (t ∷ ss) (here p) = here (ap (λ (z : Scope K). remove i z.gen) p)
  In-removals i (t ∷ ss) (there m) = there (In-removals i ss m)

module _ {ℓ} {K : Type ℓ} ⦃k : Key K⦄ where
  -- the key is within what is read: all of a table, and the keys of a run from its first to its last bound
  abbrev pub MayRead : K → Source K → Type 0
  MayRead key (table level gen) = Unit
  MayRead key (run level start end lower upper) = (lower ≼ key) × (key ≼ upper)

module _ {ℓ κ} {K : Type ℓ} {W : Type κ} ⦃k : Key K⦄
    (build_tables : ℕ
      → List (Source K)
      → W
      → Result (List (VersionEdit K) × W) CompactionError) where
  unread :
      (i : ℕ) (scopes : List (Scope K)) (bounds : K × K) (key : K)
      → full_scope scopes ≡ ok bounds
      → bounds.1 ≺ key
      → (sources : List (Source K)) × (tier_sources (suc i) scopes ≡ ok sources)
        × All (λ src. ¬ MayRead key src) sources
  unfolding tier_sources
  unread i scopes bounds key h l = (
    run (suc i) 0 (length scopes - 1) bounds.0 bounds.1 ∷ [],
    ap (λ z. z >>= λ b. ok (run (suc i) 0 (length scopes - 1) b.0 b.1 ∷ [])) h,
    ((λ r. not_≺_of_≼ key bounds.1 r.1 l), tt),
  )

  removed :
      (i target : ℕ) (scopes : List (Scope K)) (w : W)
      (r : List (VersionEdit K) × List SsTableId × W) (s : Scope K)
      → In s scopes
      → compact_scopes build_tables i target scopes w ≡ ok r
      → In (remove i s.gen) r.0
  unfolding compact_scopes
  removed i target [] w r s m h = In-nil m
  removed i target (t ∷ ts) w r s m h =
      let src = bind-ok (tier_sources i (t ∷ ts)) _ h in
      let built = bind-ok (build_tables target src.0 w) _ src.2 in
      subst (In (remove i s.gen))
        (ap (λ (z : List (VersionEdit K) × List SsTableId × W). z.0) (ok-injective _ r built.2))
        (In-append_right built.0.0 (removals i (t ∷ ts)) (In-removals i (t ∷ ts) m))

  -- Of a tier above 0, a compaction does not read the keys after the greatest one of the last table, but it
  -- removes all tables of the tier: a key after that which another table of the tier holds is lost.
  pub tier_compaction-loses :
      (v : Version K) (i target : ℕ) (w : W) (r : List (VersionEdit K) × List SsTableId × W)
      (bounds : K × K) (s : Scope K) (key : K)
      → full_scope (level v.level_slice (suc i)) ≡ ok bounds
      → In s (level v.level_slice (suc i))
      → s.min ≼ key
      → key ≼ s.max
      → bounds.1 ≺ key
      → tier_compaction build_tables v (suc i) target w ≡ ok r
      → (sources : List (Source K)) × (tier_sources (suc i) (level v.level_slice (suc i))
          ≡ ok sources)
        × All (λ src. ¬ MayRead key src) sources
        × In (remove (suc i) s.gen) r.0
  unfolding tier_compaction
  tier_compaction-loses v i target w r bounds s key full m lo hi after h =
      let u = unread i (level v.level_slice (suc i)) bounds key full after in
      (u.0, u.1, u.2, removed (suc i) target (level v.level_slice (suc i)) w r s m h)
