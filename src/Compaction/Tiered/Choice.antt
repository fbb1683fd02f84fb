-- ===== src/Compaction/Tiered/Choice.antt =====
-- Which tier `should_major_compact` names.
use tonbo.Prelude.{
  ℕ, zero, suc, ◌+◌, ◌-◌, ◌≤◌, ◌<◌, ◌≡◌, ◌&&◌, Bool, true, false, Option, none, some, arith,
  Bool-cases, inl, inr, ltb, lt→ltb, ltb→lt,
}
use native.Mathlib.Decide.{dec_lt}
use tonbo.Version.{Version, tables_len, max_level}
use tonbo.Compaction.Tiered.{
  TieredOptions, tier_capacity, is_tier_full, first_full, should_major_compact,
}

all_true : (a b c : Bool) → (a && b && c) ≡ true → (a ≡ true) × (b ≡ true) × (c ≡ true)
all_true a b c h = ground arith

last_false : (a b c : Bool) → (a && b && c) ≡ false → a ≡ true → b ≡ true → c ≡ false
last_false a b c h p q = ground arith

le_of_ltb : (a b : ℕ) → ltb a b ≡ false → b ≤ a
le_of_ltb a b h = ground arith

module _ {ℓ} {K : Type ℓ} where
  -- the tier has more tables than it has room for
  abbrev pub IsOver : TieredOptions → Version K → ℕ → Type 0
  IsOver o v i = tier_capacity o i < tables_len v i

  is_tier_full-true :
      (o : TieredOptions) (v : Version K) (i : ℕ)
      → is_tier_full o v i ≡ true
      → (i < o.max_tiers) × (i < max_level) × IsOver o v i
  unfolding is_tier_full
  is_tier_full-true o v i h =
      let t = all_true _ _ _ h in (ltb→lt _ _ t.0, ltb→lt _ _ t.1, ltb→lt _ _ t.2)

  is_tier_full-false :
      (o : TieredOptions) (v : Version K) (i : ℕ)
      → is_tier_full o v i ≡ false
      → i < o.max_tiers
      → i < max_level
      → tables_len v i ≤ tier_capacity o i
  unfolding is_tier_full
  is_tier_full-false o v i h l b = le_of_ltb _ _ (last_false _ _ _ h (lt→ltb _ _ l) (lt→ltb _ _ b))

  -- what the tier that is named, or none, says of the tiers from `low` on
  abbrev pub Chooses : TieredOptions → Version K → ℕ → Option ℕ → Type 0
  Chooses o v low none =
      (i : ℕ) → low ≤ i → suc i < o.max_tiers → i < max_level → tables_len v i ≤ tier_capacity o i
  Chooses o v low (some l) =
      (low ≤ l)
      × (suc l < o.max_tiers)
      × (l < max_level)
      × IsOver o v l
      × ((i : ℕ) → low ≤ i → i < l → tables_len v i ≤ tier_capacity o i)

  first_or_later :
      (o : TieredOptions) (v : Version K) (low i : ℕ)
      → low ≤ i
      → is_tier_full o v low ≡ false
      → i < o.max_tiers
      → i < max_level
      → (suc low ≤ i → tables_len v i ≤ tier_capacity o i)
      → tables_len v i ≤ tier_capacity o i
  first_or_later o v low i le h a b f = elim (dec_lt low i) [
    | yes less ↦ f less
    | no ge ↦
        let e : i ≡ low = omega arith in
        rw e (is_tier_full-false o v low h (omega arith) (omega arith))
  ]

  later :
      (o : TieredOptions) (v : Version K) (low : ℕ) (r : Option ℕ)
      → is_tier_full o v low ≡ false
      → Chooses o v (suc low) r
      → Chooses o v low r
  later o v low none h c =
      λ i le a b. first_or_later o v low i le h (omega arith) b (λ s. c i s a b)
  later o v low (some l) h c = (
    omega (arith, c.0),
    c.1,
    c.2,
    c.3,
    λ i le a.
        first_or_later o v low i le h (omega (arith, c.1)) (omega (arith, c.2)) (λ s. c.4 i s a),
  )

  first_full-Chooses :
      (o : TieredOptions) (v : Version K) (n low : ℕ)
      → low + n ≡ o.max_tiers - 1
      → Chooses o v low (first_full o v n low)
  unfolding first_full
  first_full-Chooses o v zero low e = λ i le a b. absurd (omega arith)
  first_full-Chooses o v (suc n) low e = elim (Bool-cases (is_tier_full o v low)) [
    | inl full ↦
        let t = is_tier_full-true o v low full in
        rw full (omega arith, omega arith, t.1, t.2, λ i le a. absurd (omega arith))
    | inr room ↦ rw room (
        later o v low (first_full o v n (suc low)) room
          (first_full-Chooses o v n (suc low) (omega arith)))
  ]

  -- The tier that is named is the first one that has more tables than its capacity, and it is neither the
  -- last tier nor above the levels; where none is named, each tier but the last has room.
  pub should_major_compact-Chooses :
      (o : TieredOptions) (v : Version K) → Chooses o v 0 (should_major_compact o v)
  unfolding should_major_compact
  should_major_compact-Chooses o v = first_full-Chooses o v (o.max_tiers - 1) 0 (omega arith)
