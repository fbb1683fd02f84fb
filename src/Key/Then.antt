-- ===== src/Key/Then.antt =====
-- Total orders built from total orders: the reverse, and the lexicographic order of a record's
-- fields by `then`.
use tonbo.Prelude.{◌≡◌, ap, Ordering, eq, arith}
use tonbo.Key.{IsTotal, reverse, then_by}

reverse-gt : (o : Ordering) → reverse o ≡ eq → o ≡ eq
reverse-gt o h = ground arith

module _ {ℓ} {K : Type ℓ} {cmp : K → K → Ordering} (t : IsTotal cmp) where
  pub reverse-IsTotal : IsTotal {K = K} (λ a b. reverse (cmp a b))
  reverse-IsTotal = record {
    cmp_self = λ a. ground (arith, t.cmp_self a);
    eq_of_cmp = λ a b h. t.eq_of_cmp a b (reverse-gt (cmp a b) h);
    cmp_swap = λ a b. ap reverse (t.cmp_swap a b);
    cmp_trans = λ a b c h l.
        ground (
          arith,
          t.cmp_swap a b,
          t.cmp_swap b c,
          t.cmp_swap a c,
          t.cmp_trans c b a,
          t.eq_of_cmp a c,
        );
  }

-- `x.first.cmp(y.first).then(x.second.cmp(y.second))`, where the two fields determine the value
module _ {ℓ κ μ} {S : Type ℓ} {A : Type κ} {B : Type μ} (first : S → A) (second : S → B)
    {cmp_a : A → A → Ordering} {cmp_b : B → B → Ordering} where
  pub then-IsTotal :
      ((x y : S) → first x ≡ first y → second x ≡ second y → x ≡ y)
      → IsTotal cmp_a
      → IsTotal cmp_b
      → IsTotal {K = S} (λ x y. then_by (cmp_a (first x) (first y)) (cmp_b (second x) (second y)))
  then-IsTotal determined a b = record {
    cmp_self = λ x. ground (arith, a.cmp_self (first x), b.cmp_self (second x));
    eq_of_cmp = λ x y h.
        ground (
          arith,
          a.eq_of_cmp (first x) (first y),
          b.eq_of_cmp (second x) (second y),
          determined x y,
        );
    cmp_swap =
        λ x y. ground (arith, a.cmp_swap (first x) (first y), b.cmp_swap (second x) (second y));
    cmp_trans = λ x y z h l. ground (
      arith,
      a.eq_of_cmp (first x) (first y),
      a.eq_of_cmp (first y) (first z),
      a.cmp_trans (first x) (first y) (first z),
      b.cmp_trans (second x) (second y) (second z),
    );
  }
