-- ===== src/Key/Order.antt =====
-- Laws of a total order that the components share, and the numbers as keys.
use tonbo.Prelude.{ℕ, ◌≡◌, compare, eq, subst, arith, ◌⊎◌}
use tonbo.Key.{Key, IsTotal, ◌≺◌, ◌≼◌}

module _ {ℓ} {K : Type ℓ} ⦃k : Key K⦄ where
  pub ≼_refl : (a : K) → a ≼ a
  ≼_refl a = ground (arith, k.cmp_self a)

  pub cmp_of_eq : (a b : K) → a ≡ b → k.cmp a b ≡ eq
  cmp_of_eq a b p = subst (λ t. k.cmp a t ≡ eq) p (k.cmp_self a)

  pub ≼_of_≺ : (a b : K) → a ≺ b → a ≼ b
  ≼_of_≺ a b h = ground arith

  pub ≺_irrefl : (a : K) → a ≺ a → ⊥
  ≺_irrefl a h = ground (arith, k.cmp_self a)

  pub not_≺_of_≼ : (a b : K) → a ≼ b → b ≺ a → ⊥
  not_≺_of_≼ a b h l = ground (arith, k.cmp_swap a b)

  pub ≼_or_≺ : (a b : K) → (a ≼ b) ⊎ (b ≺ a)
  ≼_or_≺ a b = ground (arith, k.cmp_swap a b)

  pub ≼_trans : (a b c : K) → a ≼ b → b ≼ c → a ≼ c
  ≼_trans a b c h l =
      ground (arith, k.eq_of_cmp a b, k.eq_of_cmp b c, k.cmp_trans a b c, k.cmp_self a)

  pub ≺_≼_trans : (a b c : K) → a ≺ b → b ≼ c → a ≺ c
  ≺_≼_trans a b c h l = ground (arith, k.eq_of_cmp b c, k.cmp_trans a b c)

  pub ≼_≺_trans : (a b c : K) → a ≼ b → b ≺ c → a ≺ c
  ≼_≺_trans a b c h l = ground (arith, k.eq_of_cmp a b, k.cmp_trans a b c)

  pub ≼_antisym : (a b : K) → a ≼ b → b ≼ a → a ≡ b
  ≼_antisym a b h l = ground (arith, k.cmp_swap a b, k.eq_of_cmp a b)

pub compare-IsTotal : IsTotal compare
compare-IsTotal = ground arith

instance abbrev pub nat_key : Key ℕ
nat_key = record { cmp = compare; total = compare-IsTotal }
