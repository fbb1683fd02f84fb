-- ===== src/Compaction/Tiered/Counts.antt =====
-- The order of the numbers of tables of the tiers, in which every round goes down.
use tonbo.Prelude.{ℕ, zero, suc, ◌<◌, ◌≡◌, ap, ◌∙◌, arith, List, [], ◌∷◌, length}
use mathlib.Core.WellFounded.{Acc}

-- Lists of numbers of the same length, by the first number in which they differ.
pub data Below : List ℕ → List ℕ → Type 0 where
  falls : {b a : ℕ} {ys xs : List ℕ} → b < a → length ys ≡ length xs → Below (b ∷ ys) (a ∷ xs)
  same : {a : ℕ} {ys xs : List ℕ} → Below ys xs → Below (a ∷ ys) (a ∷ xs)

lt-Acc : (n a : ℕ) → a < n → Acc ◌<◌ a
lt-Acc zero a h = absurd (omega arith)
lt-Acc (suc n) a h = Acc.intro a (λ b l. lt-Acc n b (omega arith))

Below-length : (ys xs : List ℕ) → Below ys xs → length ys ≡ length xs
Below-length _ _ (falls h l) = ap suc l
Below-length _ _ (same h) = ap suc (Below-length _ _ h)

-- what is before a list is before its rest, or begins with less
Below-cons_cases :
    (n a : ℕ) (xs : List ℕ)
    → ((b : ℕ) → b < a → (ys : List ℕ) → length ys ≡ n → Acc Below (b ∷ ys))
    → ((ys : List ℕ) → Below ys xs → length ys ≡ n → Acc Below (a ∷ ys))
    → length xs ≡ n
    → (zs : List ℕ) → Below zs (a ∷ xs)
    → Acc Below zs
Below-cons_cases n a xs f g e _ (falls {b = b} {ys = ys} l p) = f b l ys (p ∙ e)
Below-cons_cases n a xs f g e _ (same {ys = ys} h) = g ys h (Below-length ys xs h ∙ e)

Below-cons :
    (n a : ℕ)
    → ((zs : List ℕ) → length zs ≡ n → Acc Below zs)
    → Acc ◌<◌ a
    → (xs : List ℕ) → Acc Below xs
    → length xs ≡ n
    → Acc Below (a ∷ xs)
Below-cons n a all (Acc.intro _ lower) xs (Acc.intro _ before) e = Acc.intro (a ∷ xs) (
    Below-cons_cases n a xs (λ b l ys q. Below-cons n b all (lower b l) ys (all ys q) q)
      (λ ys h q. Below-cons n a all (Acc.intro a lower) ys (before ys h) q) e)

Below-nil : (zs : List ℕ) → ¬ Below zs []
Below-nil zs h = elim h [ ]

pub Below-Acc : (n : ℕ) (xs : List ℕ) → length xs ≡ n → Acc Below xs
Below-Acc n [] e = Acc.intro [] (λ zs h. elim (Below-nil zs h) [ ])
Below-Acc zero (a ∷ xs) e = absurd (omega arith)
Below-Acc (suc n) (a ∷ xs) e =
    Below-cons n a (Below-Acc n) (lt-Acc (suc a) a (omega arith)) xs (Below-Acc n xs (omega arith))
      (omega arith)
