-- ===== src/Compaction/Tiered/Ends.antt =====
-- The rounds of `major_compaction`, and that they end.
use tonbo.Prelude.{
  ◌⊎◌, ℕ, suc, ◌<◌, ◌≡◌, ◌==◌, refl, sym, ap, ◌∙◌, arith, true, Option, none, some, List, [], ◌∷◌,
  ◌++◌, map, length, subst, some-eq,
}
use tonbo.Prelude.Result.{Result, ok, err, ok-injective}
use mathlib.Core.WellFounded.{Acc}
use tonbo.Key.{Key}
use tonbo.Scope.{Scope, FileId}
use tonbo.Version.{Version, level}
use tonbo.Version.Edit.{VersionEdit, SsTableId, add}
use tonbo.VersionSet.{SliceOps, VersionSet}
use tonbo.Compaction.{CompactionError, Source}
use tonbo.Compaction.Leveled.{removals, gens, in_task}
use tonbo.Compaction.Building.Ranges.{bind-ok}
use tonbo.Compaction.Tiered.{
  TieredOptions, TieredTask, task_of, should_major_compact, plan_major, tier_sources,
  compact_scopes, tier_compaction, execute_inputs, update_with, execute_major, major_round,
  major_rounds,
}
use tonbo.Compaction.Tiered.Counts.{Below, Below-Acc}
use tonbo.Compaction.Tiered.Step.{moved, counts, moved-Below}
use tonbo.Compaction.Tiered.Update.{update_with-moved}

module _ {ℓ} {K : Type ℓ} where
  in_task-first :
      (t : Scope K) (files : List FileId) (ts : List (Scope K))
      → in_task (t.gen ∷ files) (t ∷ ts) ≡ t ∷ in_task (t.gen ∷ files) ts
  unfolding in_task
  in_task-first t files ts = (let h : (t.gen == t.gen) ≡ true = ground arith in rw h refl)

  has_one :
      (i : ℕ) (t : Scope K) (ts : List (Scope K)) (ls : List (List (Scope K)))
      → level ls i ≡ t ∷ ts
      → 0 < length (level ls i)
  has_one i t ts ls h = rw h (omega arith)

module _ {ℓ κ} {K : Type ℓ} {W : Type κ}
    (build_tables : ℕ
      → List (Source K)
      → W
      → Result (List (VersionEdit K) × W) CompactionError) where
  -- the tables that are built are those of the tier
  abbrev pub Adds : Type (ℓ ⊔ κ)
  Adds =
      (i : ℕ) (src : List (Source K)) (w : W) (r : List (VersionEdit K) × W)
      → build_tables i src w ≡ ok r
      → (ss : List (Scope K)) × (r.0 ≡ map (add i) ss)

  execute_inputs-tier :
      (v : Version K) (i target : ℕ) (t : Scope K) (ts : List (Scope K)) (w : W)
      → level v.level_slice i ≡ t ∷ ts
      → execute_inputs build_tables v target ((i, gens (t ∷ ts)) ∷ []) w
        ≡ compact_scopes build_tables i target (t ∷ ts) w
  unfolding execute_inputs tier_compaction
  execute_inputs-tier v i target t ts w h =
      ap
        (λ (l : List (Scope K)).
          elim (in_task (gens (t ∷ ts)) l)
            as (λ _. Result (List (VersionEdit K) × List SsTableId × W) CompactionError) [
              | [] ↦ ok ([], [], w)
              | s ∷ ss ↦ compact_scopes build_tables i target l w
            ])
        h
      ∙ rw (in_task-first t (gens ts) ts) refl

  compact_scopes-edits :
      Adds
      → (i target : ℕ) (t : Scope K) (ts : List (Scope K)) (w : W)
        (r : List (VersionEdit K) × List SsTableId × W)
      → compact_scopes build_tables i target (t ∷ ts) w ≡ ok r
      → (ss : List (Scope K)) × (r.0 ≡ map (add target) ss ++ removals i (t ∷ ts))
  unfolding compact_scopes
  compact_scopes-edits adds i target t ts w r h =
      let src = bind-ok (tier_sources i (t ∷ ts)) _ h in
      let built = bind-ok (build_tables target src.0 w) _ src.2 in
      let ss = adds target src.0 w built.0 built.1 in
      (
        ss.0,
        sym (ap (λ (z : List (VersionEdit K) × List SsTableId × W). z.0) (ok-injective _ r built.2))
            ∙ ap (λ z. z ++ removals i (t ∷ ts)) ss.1,
      )

module _ {ℓ κ} {K : Type ℓ} {W : Type κ} ⦃k : Key K⦄ (m : SliceOps (Scope K)) (threshold : ℕ)
    (fresh : W → FileId)
    (build_tables : ℕ → List (Source K) → W → Result (List (VersionEdit K) × W) CompactionError)
    (adds : Adds build_tables) where
  -- a tier that has a table is emptied into the next one, which there is if there is something to merge
  abbrev pub Moves : List (List (Scope K)) → List (List (Scope K)) → Type ℓ
  Moves before after =
      (i : ℕ) × (ss : List (Scope K)) × (0 < length (level before i))
      × ((ss ≡ []) ⊎ (suc i < length before))
      × (after ≡ moved m i ss before)

  execute_task-Moves :
      (s : VersionSet K) (i : ℕ) (l : List (Scope K)) (task : TieredTask) (w : W)
      (r : VersionSet K × W)
      → level s.current.level_slice i ≡ l
      → task_of i (gens l) ≡ some task
      → execute_major m threshold fresh build_tables s task w ≡ ok r
      → Moves s.current.level_slice r.0.current.level_slice
  unfolding execute_major
  execute_task-Moves s i [] task w r h p q = cc
  execute_task-Moves s i (t ∷ ts) task w r h p q =
      let e : execute_major m threshold fresh build_tables s
            (record { input = (i, gens (t ∷ ts)) ∷ []; target_tier = suc i }) w
          ≡ ok r =
        ap (λ z. execute_major m threshold fresh build_tables s z w) (some-eq _ _ p) ∙ q in
      let x =
        bind-ok (execute_inputs build_tables s.current (suc i) ((i, gens (t ∷ ts)) ∷ []) w) _ e in
      let c =
        compact_scopes-edits build_tables adds i (suc i) t ts w x.0
          (sym (execute_inputs-tier build_tables s.current i (suc i) t ts w h) ∙ x.1) in
      let y = bind-ok (update_with m threshold fresh s x.0.0 x.0.1 x.0.2) _ x.2 in
      let u =
        update_with-moved m threshold fresh i c.0 t ts x.0.1 x.0.2 s y.0 h
          (ap (λ z. update_with m threshold fresh s z x.0.1 x.0.2) (sym c.1) ∙ y.1) in
      let after =
        ap (λ (z : VersionSet K × W). z.0.current.level_slice) (sym (ok-injective _ r y.2)) ∙ u.1 in
      (i, c.0, has_one i t ts s.current.level_slice h, u.0, after)

  plan_case-Moves :
      (s : VersionSet K) (i : ℕ) (w : W) (r : VersionSet K × W) (task : Option TieredTask)
      → plan_major s.current i ≡ task
      → (elim task [
        | none ↦ none
        | some t ↦ some (execute_major m threshold fresh build_tables s t w)
      ])
        ≡ some (ok r)
      → Moves s.current.level_slice r.0.current.level_slice
  unfolding plan_major
  plan_case-Moves s i w r none p q = cc
  plan_case-Moves s i w r (some t) p q =
      execute_task-Moves s i (level s.current.level_slice i) t w r refl p (some-eq _ _ q)

  named_case-Moves :
      (o : TieredOptions) (s : VersionSet K) (w : W) (r : VersionSet K × W) (named : Option ℕ)
      → (elim named [
        | none ↦ none
        | some tier ↦ elim (plan_major s.current tier) [
          | none ↦ none
          | some task ↦ some (execute_major m threshold fresh build_tables s task w)
        ]
      ])
        ≡ some (ok r)
      → Moves s.current.level_slice r.0.current.level_slice
  named_case-Moves o s w r none q = cc
  named_case-Moves o s w r (some i) q = plan_case-Moves s i w r (plan_major s.current i) refl q

  pub major_round-Moves :
      (o : TieredOptions) (s : VersionSet K) (w : W) (r : VersionSet K × W)
      → major_round m threshold fresh build_tables o s w ≡ some (ok r)
      → Moves s.current.level_slice r.0.current.level_slice
  unfolding major_round
  major_round-Moves o s w r q = named_case-Moves o s w r (should_major_compact o s.current) q

  -- the loop has a result
  abbrev pub Ends : TieredOptions → VersionSet K → W → Type (ℓ ⊔ κ)
  Ends o s w =
      (fuel : ℕ) × (r : Result (VersionSet K × W) CompactionError) × (major_rounds m threshold fresh
          build_tables o fuel s w
        ≡ some r)

  Ends-of_round :
      (o : TieredOptions) (s : VersionSet K) (w : W)
      (round : Option (Result (VersionSet K × W) CompactionError))
      → major_round m threshold fresh build_tables o s w ≡ round
      → ((r : VersionSet K × W)
          → Below (counts m r.0.current.level_slice) (counts m s.current.level_slice)
          → Ends o r.0 r.1)
      → Ends o s w
  unfolding major_rounds
  Ends-of_round o s w none p f = (1, ok (s, w), rw (p, major_rounds) refl)
  Ends-of_round o s w (some (err x)) p f = (1, err x, rw (p, major_rounds) refl)
  Ends-of_round o s w (some (ok r)) p f =
      let moves = major_round-Moves o s w r p in
      let below = moved-Below m moves.0 moves.1 s.current.level_slice moves.2 in
      let t =
        f r
          (subst (λ z. Below (counts m z) (counts m s.current.level_slice)) (sym moves.4) below) in
      (suc t.0, t.1, rw (p, major_rounds) t.2)

  Ends-of_Acc :
      (o : TieredOptions) (xs : List ℕ)
      → Acc Below xs
      → (s : VersionSet K) (w : W) → counts m s.current.level_slice ≡ xs
      → Ends o s w
  Ends-of_Acc o xs (Acc.intro _ before) s w e =
      Ends-of_round o s w (major_round m threshold fresh build_tables o s w) refl (λ r b.
        Ends-of_Acc o (counts m r.0.current.level_slice)
          (before (counts m r.0.current.level_slice)
            (subst (Below (counts m r.0.current.level_slice)) e b))
          r.0 r.1 refl)

  -- Where `build_tables` adds tables to the tier that it is told, the loop of `major_compaction` ends,
  -- whatever the options and the tiers are, and however many tables are built of a tier.
  pub major_rounds-Ends : (o : TieredOptions) (s : VersionSet K) (w : W) → Ends o s w
  major_rounds-Ends o s w =
      Ends-of_Acc o (counts m s.current.level_slice)
        (Below-Acc _ (counts m s.current.level_slice) refl) s w refl
