-- ===== src/OrderedMap/Tree.antt =====
-- `std::collections::BTreeMap`, as the list of its entries in the order of their keys.
use tonbo.Prelude.{
  List, [], ◌∷◌, ◌≡◌, ◌≢◌, ◌⊎◌, inl, inr, refl, sym, ap, ◌∙◌, subst, arith, In, Sorted, All,
  Ordering, lt, eq, gt,
}
use tonbo.Prelude.In.{here, there}
use tonbo.Prelude.Member.{In-nil, All-In, All-of_In}
use tonbo.Key.{Key, ◌≺◌, ◌≼◌}
use tonbo.Key.Order.{cmp_of_eq, ≺_irrefl, ≼_of_≺, ≼_≺_trans}
use tonbo.OrderedMap.{Before, OrderedMap, select}

pub record Tree {ℓ κ} (K : Type ℓ) (V : Type κ) ⦃k : Key K⦄ : Type (ℓ ⊔ κ) where
  pub list : List (K × V)
  pub sorted : Sorted Before list

module _ {ℓ κ} {K : Type ℓ} {V : Type κ} where
  -- where the comparison with the first key sends an entry
  abbrev placed : Ordering → K × V → K × V → List (K × V) → List (K × V) → List (K × V)
  placed lt new x xs rest = new ∷ x ∷ xs
  placed eq new x xs rest = new ∷ xs
  placed gt new x xs rest = x ∷ rest

module _ {ℓ} {K : Type ℓ} ⦃k : Key K⦄ where
  cmp_above : (a b : K) → k.cmp a b ≡ gt → k.cmp b a ≡ lt
  cmp_above a b h = ground (arith, k.cmp_swap a b)

module _ {ℓ κ} {K : Type ℓ} {V : Type κ} ⦃k : Key K⦄ where
  unfoldable pub insert_entry : K → V → List (K × V) → List (K × V)
  insert_entry a v [] = (a, v) ∷ []
  insert_entry a v (x ∷ xs) = placed (k.cmp a x.0) (a, v) x xs (insert_entry a v xs)

  placed-new :
      (o : Ordering) (new x : K × V) (xs rest : List (K × V))
      → In new rest
      → In new (placed o new x xs rest)
  placed-new lt new x xs rest h = here refl
  placed-new eq new x xs rest h = here refl
  placed-new gt new x xs rest h = there h

  pub insert_entry-new : (a : K) (v : V) (es : List (K × V)) → In (a, v) (insert_entry a v es)
  unfolding insert_entry
  insert_entry-new a v [] = here refl
  insert_entry-new a v (x ∷ xs) = placed-new (k.cmp a x.0) (a, v) x xs _ (insert_entry-new a v xs)

  -- The others stay. `same` is what the comparison says of the first key.
  placed-keeps :
      (o : Ordering) (new x e : K × V) (xs rest : List (K × V))
      → (o ≡ eq → new.0 ≡ x.0)
      → e.0 ≢ new.0
      → In e (x ∷ xs)
      → (In e xs → In e rest)
      → In e (placed o new x xs rest)
  placed-keeps lt new x e xs rest same ne m f = there m
  placed-keeps eq new x e xs rest same ne (here p) f =
      elim (ne (ap (λ (t : K × V). t.0) p ∙ sym (same refl))) [ ]
  placed-keeps eq new x e xs rest same ne (there m) f = there m
  placed-keeps gt new x e xs rest same ne (here p) f = here p
  placed-keeps gt new x e xs rest same ne (there m) f = there (f m)

  pub insert_entry-keeps :
      (a : K) (v : V) (es : List (K × V)) (e : K × V)
      → In e es
      → e.0 ≢ a
      → In e (insert_entry a v es)
  unfolding insert_entry
  insert_entry-keeps a v [] e m ne = In-nil m
  insert_entry-keeps a v (x ∷ xs) e m ne =
      placed-keeps (k.cmp a x.0) (a, v) x e xs _ (k.eq_of_cmp a x.0) ne m
        (λ n. insert_entry-keeps a v xs e n ne)

  -- the keys of what follows an entry that comes before another are not its key
  after-differs :
      (a : K) (x : K × V) (xs : List (K × V)) (e : K × V)
      → a ≼ x.0
      → All (Before x) xs
      → In e xs
      → e.0 ≢ a
  after-differs a x xs e h s m p =
      ≺_irrefl a (≼_≺_trans a x.0 a h (subst (λ t. x.0 ≺ t) p (All-In (Before x) xs s m)))

  key_eq : {e x : K × V} → e ≡ x → (a : K) → e.0 ≡ a → k.cmp a x.0 ≡ eq
  key_eq {e} {x} p a q = cmp_of_eq a x.0 (sym (ap (λ (t : K × V). t.0) (sym p) ∙ q))

  placed-only :
      (o : Ordering) (new x e : K × V) (xs rest : List (K × V))
      → k.cmp new.0 x.0 ≡ o
      → Sorted Before (x ∷ xs)
      → (In e rest → (e ≡ new) ⊎ (In e xs × (e.0 ≢ new.0)))
      → In e (placed o new x xs rest)
      → (e ≡ new) ⊎ (In e (x ∷ xs) × (e.0 ≢ new.0))
  placed-only lt new x e xs rest c s f (here p) = inl p
  placed-only lt new x e xs rest c s f (there (here p)) =
      inr (here p, λ q. (let d = key_eq p new.0 q in cc))
  placed-only lt new x e xs rest c s f (there (there m)) =
      inr (there m, after-differs new.0 x xs e (≼_of_≺ new.0 x.0 c) s.0 m)
  placed-only eq new x e xs rest c s f (here p) = inl p
  placed-only eq new x e xs rest c s f (there m) =
      inr (there m, after-differs new.0 x xs e (rw c refl) s.0 m)
  placed-only gt new x e xs rest c s f (here p) =
      inr (here p, λ q. (let d = key_eq p new.0 q in cc))
  placed-only gt new x e xs rest c s f (there m) = elim (f m) [
    | inl p ↦ inl p
    | inr h ↦ inr (there h.0, h.1)
  ]

  pub insert_entry-only :
      (a : K) (v : V) (es : List (K × V)) (e : K × V)
      → Sorted Before es
      → In e (insert_entry a v es)
      → (e ≡ (a, v)) ⊎ (In e es × (e.0 ≢ a))
  unfolding insert_entry
  insert_entry-only a v [] e s (here p) = inl p
  insert_entry-only a v [] e s (there m) = In-nil m
  insert_entry-only a v (x ∷ xs) e s m =
      placed-only (k.cmp a x.0) (a, v) x e xs _ refl s (λ n. insert_entry-only a v xs e s.1 n) m

  placed-Sorted :
      (o : Ordering) (new x : K × V) (xs rest : List (K × V))
      → k.cmp new.0 x.0 ≡ o
      → Sorted Before (x ∷ xs)
      → Sorted Before rest
      → ((e : K × V) → In e rest → (e ≡ new) ⊎ (In e xs × (e.0 ≢ new.0)))
      → Sorted Before (placed o new x xs rest)
  placed-Sorted lt new x xs rest c s r only =
      ((c, All-of_In xs λ e m. k.cmp_trans new.0 x.0 e.0 c (All-In (Before x) xs s.0 m)), s)
  placed-Sorted eq new x xs rest c s r only = (rw (k.eq_of_cmp new.0 x.0 c) s.0, s.1)
  placed-Sorted gt new x xs rest c s r only = (
    All-of_In rest λ e m. elim (only e m) [
      | inl p ↦ rw p (cmp_above new.0 x.0 c)
      | inr h ↦ All-In (Before x) xs s.0 h.0
    ],
    r,
  )

  pub insert_entry-Sorted :
      (a : K) (v : V) (es : List (K × V)) → Sorted Before es → Sorted Before (insert_entry a v es)
  unfolding insert_entry
  insert_entry-Sorted a v [] s = (tt, tt)
  insert_entry-Sorted a v (x ∷ xs) s =
      placed-Sorted (k.cmp a x.0) (a, v) x xs _ refl s (insert_entry-Sorted a v xs s.1)
        (λ e m. insert_entry-only a v xs e s.1 m)

  -- `BTreeMap` is an ordered map.
  unfoldable pub b_tree_map : OrderedMap K V (Tree K V)
  unfolding insert_entry
  b_tree_map = record {
    entries = λ m. m.list;
    empty = record { list = []; sorted = tt };
    insert = λ a v m. record {
      list = insert_entry a v m.list;
      sorted = insert_entry-Sorted a v m.list m.sorted;
    };
    range = λ lo hi m. select lo hi m.list;
    entries_sorted = λ m. m.sorted;
    entries-empty = refl;
    range-select = λ lo hi m. refl;
    insert_new = λ a v m. insert_entry-new a v m.list;
    insert_keeps = λ a v m. insert_entry-keeps a v m.list;
    insert_only = λ a v m e. insert_entry-only a v m.list e m.sorted;
  }
