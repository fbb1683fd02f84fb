-- ===== src/Stream/Merge/Scan.antt =====
-- What a reader gets from a merge of sorted streams, in both directions of a scan.
use tonbo.Prelude.{
  ℕ, suc, ◌≤◌, ◌<◌, ◌≡◌, refl, sym, ap, ◌∙◌, inl, inr, Option, none, some, List, [], ◌∷◌, arith, In,
  Sorted, subst,
}
use tonbo.Prelude.In.{here, there}
use tonbo.Prelude.Member.{In-nil, In-cons, In-append, In-append_left, In-append_right}
use tonbo.Prelude.Result.{Result, ok, err, ok-injective}
use tonbo.Key.{Key}
use tonbo.Timestamp.{Timestamp}
use tonbo.Stream.{Entry, Order, desc}
use tonbo.Stream.Merge.{CmpEntry, MergeStream, from_vec, collect, remaining}
use tonbo.Stream.Merge.Pull.{tag, tagged, AreOk, AreSorted}
use tonbo.Stream.Merge.Emit.{emit}
use tonbo.Stream.Merge.Collect.{limited}
use tonbo.Stream.Merge.Emitted.{emit-IsEmitted, strict_unique}
use tonbo.Stream.Merge.Load.{IsDrain, from_vec_lem}
use tonbo.Stream.Merge.Versions.{KeyLt, Prefers}

module _ {ℓ κ μ} {K : Type ℓ} {R : Type κ} {X : Type μ} ⦃k : Key K⦄ where
  -- the streams hold the entry
  abbrev pub Holds : Entry K R → List (List (Result (Entry K R) X)) → Type (ℓ ⊔ κ ⊔ μ)
  Holds e ss = (s : List (Result (Entry K R) X)) × In s ss × In (ok e) s

  In-tag :
      (i : ℕ) (s : List (Result (Entry K R) X)) {c : CmpEntry K R}
      → In c (tag i s)
      → In (ok c.entry) s
  In-tag i [] m = In-nil m
  In-tag i (ok e ∷ s) m = elim (In-cons m) [
    | inl p ↦ here (ap (λ (t : CmpEntry K R). ok t.entry) p)
    | inr r ↦ there (In-tag i s r)
  ]
  In-tag i (err x ∷ s) m = there (In-tag i s m)

  Holds-tagged :
      (i : ℕ) (ss : List (List (Result (Entry K R) X))) {c : CmpEntry K R}
      → In c (tagged i ss)
      → Holds c.entry ss
  Holds-tagged i [] m = In-nil m
  Holds-tagged i (s ∷ ss) m = elim (In-append (tag i s) _ m) [
    | inl l ↦ (s, here refl, In-tag i s l)
    | inr r ↦ let h = Holds-tagged (suc i) ss r in (h.0, there h.1, h.2)
  ]

  tag-In :
      (i : ℕ) (s : List (Result (Entry K R) X)) {e : Entry K R}
      → In (ok e) s
      → In (record { offset = i; entry = e }) (tag i s)
  tag-In i [] m = In-nil m
  tag-In i (ok d ∷ s) {e} m = elim (In-cons m) [
    | inl p ↦ here (ap (λ (t : Entry K R). record { offset = i; entry = t }) (ok-injective e d p))
    | inr r ↦ there (tag-In i s r)
  ]
  tag-In i (err x ∷ s) m = elim (In-cons m) [ inl p ↦ cc | inr r ↦ tag-In i s r ]

  tagged-Holds :
      (i : ℕ) (ss : List (List (Result (Entry K R) X))) {e : Entry K R}
      (s : List (Result (Entry K R) X))
      → In s ss
      → In (ok e) s
      → (c : CmpEntry K R) × In c (tagged i ss) × (c.entry ≡ e)
  tagged-Holds i [] s m t = In-nil m
  tagged-Holds i (r ∷ ss) {e} s m t = elim (In-cons m) [
    | inl p ↦ (
      record { offset = i; entry = e },
      In-append_left (tag i r) _ (tag-In i r (subst (λ z. In (ok e) z) p t)),
      refl,
    )
    | inr q ↦ let c = tagged-Holds (suc i) ss s q t in (c.0, In-append_right (tag i r) _ c.1, c.2)
  ]

  -- Of the versions up to `ts` that the streams hold, one for each key, in the order of the keys.
  pub record IsScan (order : Option Order) (ts : Timestamp)
      (ss : List (List (Result (Entry K R) X))) (out : List (Entry K R)) : Type (ℓ ⊔ κ ⊔ μ) where
    pub strict : Sorted (λ (x y : Entry K R). KeyLt order x.key.value y.key.value) out
    pub sound : (e : Entry K R) → In e out → Holds e ss × (e.key.ts ≤ ts)
    pub complete :
        (e : Entry K R)
        → Holds e ss
        → e.key.ts ≤ ts
        → (x : Entry K R) × In x out × (x.key.value ≡ e.key.value) × Prefers order x.key.ts e.key.ts

  IsScan-of_drain :
      (order : Option Order) (ts : Timestamp) (ss : List (List (Result (Entry K R) X)))
      {es : List (CmpEntry K R)}
      → IsDrain order ss es
      → IsScan order ts ss (emit ts none es)
  IsScan-of_drain order ts ss {es} d =
      let r = emit-IsEmitted order ts es d.sorted in
      record {
        strict = r.strict;
        sound = λ e m.
            let q = r.sound e m in
            (subst (λ t. Holds t ss) q.2 (Holds-tagged 0 ss (d.back q.0 q.1)), q.3);
        complete = λ e h le.
            let c = tagged-Holds 0 ss h.0 h.1 h.2 in
            subst
              (λ t.
                (x : Entry K R) × In x (emit ts none es)
                × (x.key.value ≡ t.key.value)
                × Prefers order x.key.ts t.key.ts)
              c.2 (r.complete c.0 (d.cover c.0 c.1) (subst (λ t. t.key.ts ≤ ts) (sym c.2) le));
      }

  -- Over streams that do not fail and are each in the order of the heap, `from_vec` succeeds and
  -- polling its stream to the end succeeds, with any fuel of at least two more than the number of
  -- entries. It yields, up to the limit if one is set, a list whose keys are strictly ascending
  -- (strictly descending for `desc`), whose entries are all held by the streams and have versions of
  -- at most `ts`, and in which every such entry of the streams has one of its key: of a version that
  -- is the same or newer in an ascending scan, and the same or older in a descending one.
  pub merge-IsScan :
      (ss : List (List (Result (Entry K R) X))) (ts : Timestamp) (order : Option Order)
      → AreSorted order 0 ss
      → AreOk ss
      → (s : MergeStream K R X) × (out : List (Entry K R)) × (from_vec ss ts order ≡ ok s)
        × IsScan order ts ss out
        × ((l : Option ℕ) (n : ℕ)
            → suc (suc (remaining ss)) ≤ n
            → collect n (record s { limit = l }) ≡ some (ok (limited l out)))
  merge-IsScan ss ts order sorted are_ok =
      let r = from_vec_lem ss ts order sorted are_ok in
      (
        r.0,
        emit ts none r.1,
        r.2,
        IsScan-of_drain order ts ss r.3,
        λ l n le. r.4 l n (omega (arith, r.3.size)),
      )

  -- A descending scan does not yield the newest version: where the streams hold two versions of a
  -- key up to `ts`, the newer one is not in what is read.
  pub reverse_scan-hides_newer :
      (ss : List (List (Result (Entry K R) X))) (ts : Timestamp) (older newer : Entry K R)
      → AreSorted (some desc) 0 ss
      → AreOk ss
      → Holds older ss
      → Holds newer ss
      → older.key.value ≡ newer.key.value
      → older.key.ts < newer.key.ts
      → newer.key.ts ≤ ts
      → (s : MergeStream K R X) × (out : List (Entry K R)) × (from_vec ss ts (some desc) ≡ ok s)
        × (collect (suc (suc (remaining ss))) (record s { limit = none }) ≡ some (ok out))
        × ¬ In newer out
  reverse_scan-hides_newer ss ts older newer sorted are_ok h_old h_new same lt le =
      let r = merge-IsScan ss ts (some desc) sorted are_ok in
      let x = r.3.complete older h_old (omega arith) in
      (
        r.0,
        r.1,
        r.2,
        r.4 none (suc (suc (remaining ss))) (omega arith),
        λ m. omega (
          arith,
          x.3,
          ap (λ (t : Entry K R). t.key.ts)
              (strict_unique r.1 x.0 newer r.3.strict x.1 m (x.2 ∙ same)),
        ),
      )
