-- ===== src/Value/Time.antt =====
-- src/record/dynamic/value/util.rs: `split_second_ns`, and the instants of two units.
use tonbo.Prelude.{
  ℕ, ◌+◌, ◌-◌, ◌*◌, ◌/◌, ◌%◌, ◌^◌, ◌<◌, ◌≡◌, refl, ap, ◌∙◌, arith, Bool, true, false, ◌&&◌, compare,
  Ordering, if◌then◌else◌, ◌==◌, subst,
}
use tonbo.Prelude.Integers.{
  ℤ, pos, negsuc, compare_ℤ, equal_ℤ, is_equal, scaled, div_euclid, rem_euclid,
}
use tonbo.Key.{then_by}
use tonbo.Value.Types.{same_unit}
use tonbo.Value.{TimeUnit, second, millisecond, microsecond, nanosecond}

-- `TimeUnit::factor`
abbrev pub factor : TimeUnit → ℕ
factor second = 1000000000
factor millisecond = 1000000
factor microsecond = 1000
factor nanosecond = 1

abbrev pub base : TimeUnit → ℕ
base unit = factor second / factor unit

abbrev pub split_second_ns : ℤ → TimeUnit → ℤ × ℕ
split_second_ns v unit = (div_euclid v (base unit), rem_euclid v (base unit) * factor unit % 2 ^ 32)

-- the `match` on the comparison of the seconds
abbrev pub cmp_split : ℤ × ℕ → ℤ × ℕ → Ordering
cmp_split a b = then_by (compare_ℤ a.0 b.0) (compare a.1 b.1)

abbrev pub eq_split : ℤ × ℕ → ℤ × ℕ → Bool
eq_split a b = equal_ℤ a.0 b.0 && a.1 == b.1

-- the comparisons of two times
unfoldable pub cmp_time : ℤ → TimeUnit → ℤ → TimeUnit → Ordering
cmp_time a u b w =
    if same_unit u w then compare_ℤ a b else cmp_split (split_second_ns a u) (split_second_ns b w)

unfoldable pub eq_time : ℤ → TimeUnit → ℤ → TimeUnit → Bool
eq_time a u b w =
    if same_unit u w then equal_ℤ a b else eq_split (split_second_ns a u) (split_second_ns b w)

-- nanoseconds since the epoch
abbrev pub instant : ℤ → TimeUnit → ℤ
instant v unit = scaled v (factor unit)

-- seconds and nanoseconds as an instant
abbrev whole : ℤ × ℕ → ℤ
whole (pos s, n) = pos (s * 1000000000 + n)
whole (negsuc s, n) = negsuc (s * 1000000000 + 999999999 - n)

-- a split time is the instant, and its nanoseconds are less than a second
split_second_ns-whole :
    (v : ℤ) (unit : TimeUnit)
    → (whole (split_second_ns v unit) ≡ instant v unit) × (split_second_ns v unit).1 < 1000000000
split_second_ns-whole (pos n) second = (ap pos (omega arith), omega arith)
split_second_ns-whole (pos n) millisecond = (ap pos (omega arith), omega arith)
split_second_ns-whole (pos n) microsecond = (ap pos (omega arith), omega arith)
split_second_ns-whole (pos n) nanosecond = (ap pos (omega arith), omega arith)
split_second_ns-whole (negsuc n) second = (ap negsuc (omega arith), omega arith)
split_second_ns-whole (negsuc n) millisecond = (ap negsuc (omega arith), omega arith)
split_second_ns-whole (negsuc n) microsecond = (ap negsuc (omega arith), omega arith)
split_second_ns-whole (negsuc n) nanosecond = (ap negsuc (omega arith), omega arith)

cmp_split-whole :
    (a b : ℤ) (m n : ℕ)
    → m < 1000000000
    → n < 1000000000
    → cmp_split (a, m) (b, n) ≡ compare_ℤ (whole (a, m)) (whole (b, n))
cmp_split-whole (pos a) (pos b) m n h l = ground arith
cmp_split-whole (pos a) (negsuc b) m n h l = refl
cmp_split-whole (negsuc a) (pos b) m n h l = refl
cmp_split-whole (negsuc a) (negsuc b) m n h l = ground arith

same_unit-compare : (a b : ℤ) (u : TimeUnit) → compare_ℤ a b ≡ compare_ℤ (instant a u) (instant b u)
same_unit-compare (pos a) (pos b) second = ground arith
same_unit-compare (pos a) (pos b) millisecond = ground arith
same_unit-compare (pos a) (pos b) microsecond = ground arith
same_unit-compare (pos a) (pos b) nanosecond = ground arith
same_unit-compare (pos a) (negsuc b) u = refl
same_unit-compare (negsuc a) (pos b) u = refl
same_unit-compare (negsuc a) (negsuc b) second = ground arith
same_unit-compare (negsuc a) (negsuc b) millisecond = ground arith
same_unit-compare (negsuc a) (negsuc b) microsecond = ground arith
same_unit-compare (negsuc a) (negsuc b) nanosecond = ground arith

same_unit-eq : (u w : TimeUnit) → same_unit u w ≡ true → u ≡ w
unfolding same_unit
same_unit-eq u w h = ground arith

by_instants :
    (c : Bool) (a b : ℤ) (u w : TimeUnit)
    → (c ≡ true → u ≡ w)
    → (if c then compare_ℤ a b else cmp_split (split_second_ns a u) (split_second_ns b w))
      ≡ compare_ℤ (instant a u) (instant b w)
by_instants true a b u w h =
    subst (λ t. compare_ℤ a b ≡ compare_ℤ (instant a u) (instant b t)) (h refl)
      (same_unit-compare a b u)
by_instants false a b u w h =
    let p = split_second_ns-whole a u in
    let q = split_second_ns-whole b w in
    cmp_split-whole _ _ _ _ p.1 q.1
    ∙ ap (λ t. compare_ℤ t (whole (split_second_ns b w))) p.0
    ∙ ap (λ t. compare_ℤ (instant a u) t) q.0

-- Timestamps are compared as instants, also if their units differ.
pub cmp_time-instant :
    (a b : ℤ) (u w : TimeUnit) → cmp_time a u b w ≡ compare_ℤ (instant a u) (instant b w)
unfolding cmp_time
cmp_time-instant a b u w = by_instants (same_unit u w) a b u w (same_unit-eq u w)

is_equal-cmp_split : (a b : ℤ × ℕ) → eq_split a b ≡ is_equal (cmp_split a b)
is_equal-cmp_split a b = ground arith

equal_by :
    (c : Bool) (a b : ℤ) (s t : ℤ × ℕ)
    → (if c then equal_ℤ a b else eq_split s t)
      ≡ is_equal (if c then compare_ℤ a b else cmp_split s t)
equal_by true a b s t = refl
equal_by false a b s t = is_equal-cmp_split s t

-- times are equal exactly if they compare as equal
pub eq_time-cmp_time : (a b : ℤ) (u w : TimeUnit) → eq_time a u b w ≡ is_equal (cmp_time a u b w)
unfolding eq_time cmp_time
eq_time-cmp_time a b u w = equal_by (same_unit u w) a b (split_second_ns a u) (split_second_ns b w)
