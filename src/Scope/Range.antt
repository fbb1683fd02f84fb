-- ===== src/Scope/Range.antt =====
-- `meets_range` against the range of keys that a scan asks for.
use tonbo.Prelude.{◌≡◌, refl, true, arith, ◌↔◌}
use tonbo.Key.{Key, ◌≺◌, ◌≼◌}
use tonbo.Key.Order.{≼_trans, ≺_≼_trans, ≼_≺_trans}
use tonbo.Scope.{Scope, Bound, included, excluded, unbounded, meets_range}

module _ {ℓ} {K : Type ℓ} ⦃k : Key K⦄ where
  -- a key is on the right side of a bound
  abbrev pub AboveBound : Bound K → K → Type 0
  AboveBound (included start) key = start ≼ key
  AboveBound (excluded start) key = start ≺ key
  AboveBound unbounded key = Unit

  abbrev pub BelowBound : Bound K → K → Type 0
  BelowBound (included end) key = key ≼ end
  BelowBound (excluded end) key = key ≺ end
  BelowBound unbounded key = Unit

  -- A table that holds a key of the range is met: no scan passes over it.
  pub meets_range_complete :
      (s : Scope K) (lo hi : Bound K) (key : K)
      → s.min ≼ key
      → key ≼ s.max
      → AboveBound lo key
      → BelowBound hi key
      → meets_range s lo hi ≡ true
  unfolding meets_range
  meets_range_complete s (included a) (included b) key h1 h2 h3 h4 =
      ground
        (arith, ≼_trans a key s.max, ≼_trans s.min key b, k.cmp_swap s.min a, k.cmp_swap s.max b)
  meets_range_complete s (included a) (excluded b) key h1 h2 h3 h4 = ground (
    arith,
    ≼_≺_trans a key b,
    ≼_trans a key s.max,
    ≼_≺_trans s.min key b,
    k.cmp_swap s.min a,
    k.cmp_swap s.max b,
  )
  meets_range_complete s (included a) unbounded key h1 h2 h3 h4 = ≼_trans a key s.max h3 h2
  meets_range_complete s (excluded a) (included b) key h1 h2 h3 h4 = ground (
    arith,
    ≺_≼_trans a key b,
    ≺_≼_trans a key s.max,
    ≼_trans s.min key b,
    k.cmp_swap s.min a,
    k.cmp_swap s.max b,
  )
  meets_range_complete s (excluded a) (excluded b) key h1 h2 h3 h4 = ground (
    arith,
    k.cmp_trans a key b,
    ≺_≼_trans a key s.max,
    ≼_≺_trans s.min key b,
    k.cmp_swap s.min a,
    k.cmp_swap s.max b,
  )
  meets_range_complete s (excluded a) unbounded key h1 h2 h3 h4 =
      ground (arith, ≺_≼_trans a key s.max)
  meets_range_complete s unbounded (included b) key h1 h2 h3 h4 = ≼_trans s.min key b h1 h4
  meets_range_complete s unbounded (excluded b) key h1 h2 h3 h4 =
      ground (arith, ≼_≺_trans s.min key b)
  meets_range_complete s unbounded unbounded key h1 h2 h3 h4 = refl

  -- the start is not after the end, and not the end unless both are in the range
  abbrev pub IsProper : Bound K → Bound K → Type 0
  IsProper (included a) (included b) = a ≼ b
  IsProper (included a) (excluded b) = a ≺ b
  IsProper (excluded a) (included b) = a ≺ b
  IsProper (excluded a) (excluded b) = a ≺ b
  IsProper (included a) unbounded = Unit
  IsProper (excluded a) unbounded = Unit
  IsProper unbounded hi = Unit

  -- Of a table of more than one key and a proper range: the table is met exactly if its last key
  -- is on the right side of the start and its first key is on the right side of the end.
  pub meets_range_iff :
      (s : Scope K) (lo hi : Bound K)
      → s.min ≺ s.max
      → IsProper lo hi
      → (meets_range s lo hi ≡ true) ↔ (AboveBound lo s.max × BelowBound hi s.min)
  unfolding meets_range
  meets_range_iff s (included a) (included b) h p = ground (
    arith,
    k.cmp_trans a b s.max,
    k.cmp_trans s.min a b,
    k.cmp_trans a s.min s.max,
    k.cmp_trans s.min s.max b,
    k.eq_of_cmp a s.max,
    k.eq_of_cmp a s.min,
    k.eq_of_cmp a b,
    k.eq_of_cmp s.min b,
    k.eq_of_cmp s.max b,
    k.cmp_swap s.min a,
    k.cmp_swap s.max b,
  )
  meets_range_iff s (included a) (excluded b) h p = ground (
    arith,
    k.cmp_trans a b s.max,
    k.cmp_trans s.min a b,
    k.cmp_trans a s.min s.max,
    k.cmp_trans s.min s.max b,
    k.eq_of_cmp a s.max,
    k.eq_of_cmp a s.min,
    k.eq_of_cmp a b,
    k.eq_of_cmp s.min b,
    k.eq_of_cmp s.max b,
    k.cmp_swap s.min a,
    k.cmp_swap s.max b,
  )
  meets_range_iff s (excluded a) (included b) h p = ground (
    arith,
    k.cmp_trans a b s.max,
    k.cmp_trans s.min a b,
    k.cmp_trans a s.min s.max,
    k.cmp_trans s.min s.max b,
    k.eq_of_cmp a s.max,
    k.eq_of_cmp a s.min,
    k.eq_of_cmp a b,
    k.eq_of_cmp s.min b,
    k.eq_of_cmp s.max b,
    k.cmp_swap s.min a,
    k.cmp_swap s.max b,
  )
  meets_range_iff s (excluded a) (excluded b) h p = ground (
    arith,
    k.cmp_trans a b s.max,
    k.cmp_trans s.min a b,
    k.cmp_trans a s.min s.max,
    k.cmp_trans s.min s.max b,
    k.eq_of_cmp a s.max,
    k.eq_of_cmp a s.min,
    k.eq_of_cmp a b,
    k.eq_of_cmp s.min b,
    k.eq_of_cmp s.max b,
    k.cmp_swap s.min a,
    k.cmp_swap s.max b,
  )
  meets_range_iff s (included a) unbounded h p = ground arith
  meets_range_iff s (excluded a) unbounded h p = ground arith
  meets_range_iff s unbounded (included b) h p = ground arith
  meets_range_iff s unbounded (excluded b) h p = ground arith
  meets_range_iff s unbounded unbounded h p = ground arith
