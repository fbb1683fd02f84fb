-- ===== src/Compaction/Leveled/Threshold.antt =====
-- Which level `should_major_compact` names.
use tonbo.Prelude.{
  ℕ, zero, suc, ◌+◌, ◌*◌, ◌^◌, ◌%◌, ◌≤◌, ◌<◌, ◌≡◌, sym, inl, inr, true, false, Option, none, some,
  arith, Bool-cases, leb→le, le→leb, ◌∙◌,
}
use native.Mathlib.Decide.{dec_lt}
use tonbo.Version.{Version, tables_len}
use tonbo.Compaction.Leveled.{
  LeveledOptions, is_threshold_exceeded_major, first_exceeded, should_major_compact,
}

module _ {ℓ} {K : Type ℓ} where
  -- the number of tables of the level is at the threshold or above it; `usize` wraps around
  abbrev pub IsExceeded : LeveledOptions → Version K → ℕ → Type 0
  IsExceeded o v i =
      o.major_threshold_with_sst_size * (o.level_sst_magnification ^ i % 2 ^ 64) % 2 ^ 64
      ≤ tables_len v i

  IsExceeded-true :
      (o : LeveledOptions) (v : Version K) (i : ℕ)
      → is_threshold_exceeded_major o v i ≡ true
      → IsExceeded o v i
  unfolding is_threshold_exceeded_major
  IsExceeded-true o v i h = leb→le _ _ h

  IsExceeded-false :
      (o : LeveledOptions) (v : Version K) (i : ℕ)
      → is_threshold_exceeded_major o v i ≡ false
      → ¬ IsExceeded o v i
  unfolding is_threshold_exceeded_major
  IsExceeded-false o v i h e = absurd (true_false (sym (le→leb _ _ e) ∙ h))
    where
      true_false : true ≡ false → ⊥
      true_false p = cc

  -- what the level that is named, or none, says
  abbrev pub Names : LeveledOptions → Version K → ℕ → ℕ → Option ℕ → Type 0
  Names o v from to none = (i : ℕ) → from ≤ i → i < to → ¬ IsExceeded o v i
  Names o v from to (some l) =
      (from ≤ l) × (l < to) × IsExceeded o v l × ((i : ℕ) → from ≤ i → i < l → ¬ IsExceeded o v i)

  first_exceeded_lem :
      (o : LeveledOptions) (v : Version K) (n i : ℕ) → Names o v i (i + n) (first_exceeded o v n i)
  unfolding first_exceeded
  first_exceeded_lem o v zero i = λ j a b. absurd (omega arith)
  first_exceeded_lem o v (suc n) i = elim (Bool-cases (is_threshold_exceeded_major o v i)) [
    | inl over ↦
        rw over
          (omega arith, omega arith, IsExceeded-true o v i over, λ j a b. absurd (omega arith))
    | inr under ↦ rw under (
        later (first_exceeded o v n (suc i)) (first_exceeded_lem o v n (suc i))
          (IsExceeded-false o v i under))
  ]
    where
      at :
          (j : ℕ)
          → i ≤ j
          → ¬ IsExceeded o v i
          → (suc i ≤ j → ¬ IsExceeded o v j)
          → ¬ IsExceeded o v j
      at j le here above = elim (dec_lt i j) [
        | yes less ↦ above less
        | no ge ↦ let e : j ≡ i = omega arith in rw e here
      ]

      later :
          (r : Option ℕ)
          → Names o v (suc i) (suc i + n) r
          → ¬ IsExceeded o v i
          → Names o v i (i + suc n) r
      later none h here = λ j a b. at j a here (λ c. h j c (omega arith))
      later (some l) h here =
          (omega (arith, h.0), omega (arith, h.1), h.2, λ j a b. at j a here (λ c. h.3 j c b))

  -- The level that is named is the first of levels 0 to 5 whose number of tables is at its threshold or
  -- above it; where none is named, none of them has that many. The threshold is the product that the code
  -- computes, which wraps around at 2 ^ 64.
  pub should_major_compact_lem :
      (o : LeveledOptions) (v : Version K) → Names o v 0 6 (should_major_compact o v)
  unfolding should_major_compact
  should_major_compact_lem o v = first_exceeded_lem o v 6 0
