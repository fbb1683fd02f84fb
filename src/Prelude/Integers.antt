-- ===== src/Prelude/Integers.antt =====
-- Signed integers over the native numbers: what the machine's signed types stand for.
use tonbo.Prelude.{ℕ, ◌+◌, ◌-◌, ◌*◌, ◌/◌, ◌%◌, Bool, true, false, Ordering, lt, eq, gt, compare}

-- `negsuc n` is -(n + 1).
pub data ℤ : Type 0 where
  pos : ℕ → ℤ
  negsuc : ℕ → ℤ

abbrev pub compare_ℤ : ℤ → ℤ → Ordering
compare_ℤ (pos a) (pos b) = compare a b
compare_ℤ (pos a) (negsuc b) = gt
compare_ℤ (negsuc a) (pos b) = lt
compare_ℤ (negsuc a) (negsuc b) = compare b a

-- a multiple by a positive number
abbrev pub scaled : ℤ → ℕ → ℤ
scaled (pos a) f = pos (a * f)
scaled (negsuc a) f = negsuc (a * f + f - 1)

-- `div_euclid` and `rem_euclid` by a positive number
abbrev pub div_euclid : ℤ → ℕ → ℤ
div_euclid (pos n) b = pos (n / b)
div_euclid (negsuc n) b = negsuc (n / b)

abbrev pub rem_euclid : ℤ → ℕ → ℕ
rem_euclid (pos n) b = n % b
rem_euclid (negsuc n) b = b - 1 - n % b

abbrev pub is_equal : Ordering → Bool
is_equal eq = true
is_equal _ = false

-- `==`
abbrev pub equal_ℤ : ℤ → ℤ → Bool
equal_ℤ a b = is_equal (compare_ℤ a b)
