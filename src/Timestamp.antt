-- ===== src/Timestamp.antt =====
-- src/version/timestamp.rs: `Timestamp`, a `u32`, and `Ts`, a value with the timestamp of its
-- version. `TsRef` is a borrowed `Ts` packed into a fat pointer, and is the same record here.
use tonbo.Prelude.{ℕ, ◌≡◌, compare, Ordering, arith}
use tonbo.Key.{Key, IsTotal, then_by}
use tonbo.Key.Then.{then-IsTotal}

abbrev pub Timestamp : Type 0
Timestamp = ℕ

abbrev pub epoch : Timestamp
epoch = 0

-- `u32::MAX`
abbrev pub max_timestamp : Timestamp
max_timestamp = 4294967295

pub record Ts {ℓ} (V : Type ℓ) : Type ℓ where
  pub ts : Timestamp
  pub value : V

module _ {ℓ} {V : Type ℓ} where
  abbrev pub new : V → Timestamp → Ts V
  new value ts = record { ts = ts; value = value }

  -- two of equal fields are equal
  pub Ts-eq : (a b : Ts V) → a.value ≡ b.value → a.ts ≡ b.ts → a ≡ b
  Ts-eq a b p q = λ i. record { ts = q i; value = p i }

newest_first-IsTotal : IsTotal {K = ℕ} (λ a b. compare b a)
newest_first-IsTotal = ground arith

module _ {ℓ} {V : Type ℓ} ⦃k : Key V⦄ where
  -- By value, and the newest version of a value first.
  abbrev pub cmp : Ts V → Ts V → Ordering
  cmp a b = then_by (k.cmp a.value b.value) (compare b.ts a.ts)

  pub cmp-IsTotal : IsTotal {K = Ts V} cmp
  cmp-IsTotal = then-IsTotal (λ t. t.value) (λ t. t.ts) Ts-eq k.total newest_first-IsTotal

  instance abbrev pub ts_key : Key (Ts V)
  ts_key = record { cmp = cmp; total = cmp-IsTotal }
