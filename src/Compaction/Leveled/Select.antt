-- ===== src/Compaction/Leveled/Select.antt =====
-- The tables that a compaction takes: from the level, and from the next level.
use tonbo.Prelude.{
  ℕ, zero, suc, ◌+◌, ◌-◌, ◌≤◌, ◌<◌, ◌≡◌, refl, sym, ap, ◌∙◌, inl, inr, true, false, ◌&&◌, ◌||◌,
  some, List, [], ◌∷◌, arith, In, length, take, drop, min, Bool-cases, leb, ltb, map, subst, tests,
}
use tonbo.Prelude.Member.{In-nil, In-cons}
use tonbo.Prelude.Result.{Result, ok, err, ◌>>=◌, ok-injective}
use tonbo.Key.{Key, ◌≺◌}
use tonbo.Scope.{Scope, contains}
use tonbo.Version.{scope_search}
use tonbo.Compaction.{CompactionError, slice}
use tonbo.Compaction.Leveled.{
  LeveledOptions, meeting_run, oldest, with_last, fall_back, this_level_scopes, meeting, NextScopes,
  next_level_scopes, least, greatest,
}

length-drop {ℓ} : {A : Type ℓ} (n : ℕ) (xs : List A) → length (drop n xs) ≡ length xs - n
length-drop zero xs = omega arith
length-drop (suc n) [] = omega arith
length-drop (suc n) (x ∷ xs) = omega (arith, length-drop n xs)

length-take {ℓ} : {A : Type ℓ} (n : ℕ) (xs : List A) → length (take n xs) ≡ min n (length xs)
length-take zero xs = omega arith
length-take (suc n) [] = omega arith
length-take (suc n) (x ∷ xs) = omega (arith, length-take n xs)

module _ {ℓ} {K : Type ℓ} ⦃k : Key K⦄ where
  -- the run is a prefix of what it is chosen from
  meeting_run-prefix :
      (lo hi : K) (most n : ℕ) (ss : List (Scope K))
      → (meeting_run lo hi most n ss ≡ take (length (meeting_run lo hi most n ss)) ss)
        × (length (meeting_run lo hi most n ss) ≤ length ss)
  unfolding meeting_run
  meeting_run-prefix lo hi most n [] = (refl, omega arith)
  meeting_run-prefix lo hi most n (s ∷ ss) =
      elim (Bool-cases ((contains s lo || contains s hi) && leb n most)) [
        | inl t ↦
            let p = meeting_run-prefix lo hi most (suc n) ss in
            rw t (ap (λ r. s ∷ r) p.0, omega (arith, p.1))
        | inr f ↦ rw f (refl, omega arith)
      ]

  -- and has at most one table more than `most`
  meeting_run-most :
      (lo hi : K) (most n : ℕ) (ss : List (Scope K))
      → n ≤ most + 1
      → n + length (meeting_run lo hi most n ss) ≤ most + 1
  unfolding meeting_run
  meeting_run-most lo hi most n [] h = omega arith
  meeting_run-most lo hi most n (s ∷ ss) h =
      elim (Bool-cases ((contains s lo || contains s hi) && leb n most)) [
        | inl t ↦
            let room : n ≤ most = ground arith in
            let r = meeting_run-most lo hi most (suc n) ss (omega arith) in rw t (omega (arith, r))
        | inr f ↦ rw f (omega arith)
      ]

  meeting_run-at_most :
      (lo hi : K) (most : ℕ) (ss : List (Scope K)) → length (meeting_run lo hi most 0 ss) ≤ most + 1
  meeting_run-at_most lo hi most ss = omega (arith, meeting_run-most lo hi most 0 ss (omega arith))

  oldest-all : (most n : ℕ) (ss : List (Scope K)) → n + length ss ≤ most + 1 → oldest most n ss ≡ ss
  unfolding oldest
  oldest-all most n [] h = refl
  oldest-all most n (s ∷ ss) h = elim (Bool-cases (ltb most n)) [
    | inl t ↦ absurd (omega (tests, t))
    | inr f ↦ rw f (ap (λ r. s ∷ r) (oldest-all most (suc n) ss (omega arith)))
  ]

  -- What the choice in a level gives: the tables from index `start` to index `end`, at least one of them
  -- and no more than `most` and one.
  pub record Picks (most : ℕ) (scopes : List (Scope K))
      (r : Result (List (Scope K) × ℕ × ℕ) CompactionError) : Type ℓ where
    pub picked : List (Scope K)
    pub start : ℕ
    pub end : ℕ
    pub returns : r ≡ ok (picked, start, end)
    pub whole : picked ≡ take (suc end - start) (drop start scopes)
    pub ordered : start ≤ end
    pub in_bounds : end < length scopes
    pub bounded : length picked ≤ most + 1

  fall_back-Picks :
      (o : LeveledOptions) (scopes : List (Scope K)) (start : ℕ) (found : List (Scope K))
      → 0 < length scopes
      → 0 < o.major_default_oldest_table_num
      → o.major_default_oldest_table_num ≤ o.major_l_selection_table_max_num + 1
      → found ≡ take (length found) (drop start scopes)
      → length found ≤ length (drop start scopes)
      → length found ≤ o.major_l_selection_table_max_num + 1
      → Picks o.major_l_selection_table_max_num scopes (fall_back o scopes start found)
  fall_back-Picks o scopes start [] some_table pos most p le room =
      let n = min o.major_default_oldest_table_num (length scopes) in
      let e : n ≡ suc (n - 1) = omega arith in
      record {
        picked = take n scopes;
        start = 0;
        end = n - 1;
        returns =
            rw
              (oldest-all o.major_l_selection_table_max_num 0 (take n scopes)
                (omega (arith, length-take n scopes)))
              (ap (with_last (take n scopes) 0) e);
        whole = ap (λ m. take m scopes) (omega arith);
        ordered = omega arith;
        in_bounds = omega arith;
        bounded = omega (arith, length-take n scopes);
      }
  fall_back-Picks o scopes start (s ∷ ss) some_table pos most p le room = record {
    picked = s ∷ ss;
    start = start;
    end = start + length ss;
    returns = ap (with_last (s ∷ ss) start) {y = suc (start + length ss)} (omega arith);
    whole = p ∙ ap (λ m. take m (drop start scopes)) {x = length (s ∷ ss)} (omega arith);
    ordered = omega arith;
    in_bounds = omega (arith, length-drop start scopes);
    bounded = room;
  }

  -- In a level that has a table, where `major_default_oldest_table_num` is at least one and at most one
  -- more than `major_l_selection_table_max_num`, the choice succeeds: the indices are within the level,
  -- the tables that are picked, and so removed, are exactly those from the first index to the last, which
  -- are read, and there are at most `major_l_selection_table_max_num` of them and one more.
  pub this_level_scopes-Picks :
      (lo hi : K) (o : LeveledOptions) (scopes : List (Scope K))
      → 0 < length scopes
      → 0 < o.major_default_oldest_table_num
      → o.major_default_oldest_table_num ≤ o.major_l_selection_table_max_num + 1
      → Picks o.major_l_selection_table_max_num scopes (this_level_scopes lo hi o scopes)
  unfolding this_level_scopes
  this_level_scopes-Picks lo hi o scopes some_table pos most =
      let start = scope_search lo scopes in
      let p = meeting_run-prefix lo hi o.major_l_selection_table_max_num 0 (drop start scopes) in
      fall_back-Picks o scopes start _ some_table pos most p.0 p.1
        (meeting_run-at_most lo hi o.major_l_selection_table_max_num (drop start scopes))

  -- a table that holds neither bound is not picked
  meeting-misses :
      (lo hi : K) (t : Scope K) (ss : List (Scope K))
      → contains t lo ≡ false
      → contains t hi ≡ false
      → ¬ In t (meeting lo hi ss)
  unfolding meeting
  meeting-misses lo hi t [] a b m = In-nil m
  meeting-misses lo hi t (s ∷ ss) a b m = elim (Bool-cases (contains s lo || contains s hi)) [
    | inl h ↦ elim (In-cons (rw (h, meeting) at m)) [
      | inl e ↦ absurd (clash (subst (λ u. (contains u lo || contains u hi) ≡ true) (sym e) h))
      | inr r ↦ meeting-misses lo hi t ss a b r
    ]
    | inr h ↦ meeting-misses lo hi t ss a b (rw (h, meeting) at m)
  ]
    where
      clash : (contains t lo || contains t hi) ≡ true → ⊥
      clash h = ground arith

  outside :
      (t : Scope K) (lo hi : K)
      → lo ≺ t.min
      → t.max ≺ hi
      → (contains t lo ≡ false) × (contains t hi ≡ false)
  unfolding contains
  outside t lo hi a b = ground (arith, k.cmp_swap lo t.min, k.cmp_swap t.max hi)

  -- Of the next level, a table whose keys lie strictly between the least and the greatest key of the
  -- tables that are compacted is not picked, whatever the choice returns: it stays in the level, and
  -- the merged tables are added over it.
  pub next_level_scopes-misses_inner :
      (picked next : List (Scope K)) (t : Scope K) (lo hi : K) (r : NextScopes K)
      → least (map (λ s. s.min) picked) ≡ some lo
      → greatest (map (λ s. s.max) picked) ≡ some hi
      → lo ≺ t.min
      → t.max ≺ hi
      → In t next
      → next_level_scopes picked next ≡ ok r
      → ¬ In t r.scopes
  unfolding next_level_scopes
  next_level_scopes-misses_inner picked [] t lo hi r el eh a b m q = In-nil m
  next_level_scopes-misses_inner picked (s ∷ ss) t lo hi r el eh a b' m q =
      done (slice start (min (end + 1) (length (s ∷ ss))) (s ∷ ss)) (rw (el, eh) at q)
    where
      start : ℕ
      start = scope_search lo (s ∷ ss)

      end : ℕ
      end = scope_search hi (s ∷ ss)

      done :
          (between : Result (List (Scope K)) CompactionError)
          → (between >>= λ b. ok (record { scopes = meeting lo hi b; start = start; end = end }))
            ≡ ok r
          → ¬ In t r.scopes
      done (ok b) q' m' =
          let o = outside t lo hi a b' in
          meeting-misses lo hi t b o.0 o.1
            (subst (λ (z : NextScopes K). In t z.scopes) (sym (ok-injective _ r q')) m')
      done (err e) q' m' = cc
