-- ===== src/OrderedMap/Ranges.antt =====
-- What a range of an ordered map holds, and what its first entry is.
use tonbo.Prelude.{Bool, true, false, Option, none, some, List, [], ◌∷◌, ◌≡◌, refl, In, Sorted, All}
use tonbo.Prelude.In.{here, there}
use tonbo.Prelude.Member.{In-nil, All-In}
use tonbo.Key.{Key, ◌≼◌}
use tonbo.Key.Order.{≼_refl, ≼_of_≺}
use tonbo.Scope.{Bound}
use tonbo.OrderedMap.{Before, is_within, keep, select, first}

module _ {ℓ κ} {K : Type ℓ} {V : Type κ} ⦃k : Key K⦄ where
  abbrev pub IsWithin : Bound K → Bound K → K × V → Type 0
  IsWithin lo hi e = is_within lo hi e.0 ≡ true

  -- what the first entry of a range is, or what it means that there is none
  abbrev pub FirstIs : Bound K → Bound K → List (K × V) → Option (K × V) → Type (ℓ ⊔ κ)
  FirstIs lo hi es none = (e : K × V) → In e es → ¬ IsWithin lo hi e
  FirstIs lo hi es (some a) =
      In a es × IsWithin lo hi a × ((e : K × V) → In e es → IsWithin lo hi e → a.0 ≼ e.0)

  FirstIs-skip :
      (lo hi : Bound K) (x : K × V) (es : List (K × V)) (r : Option (K × V))
      → is_within lo hi x.0 ≡ false
      → FirstIs lo hi es r
      → FirstIs lo hi (x ∷ es) r
  FirstIs-skip lo hi x es none out h = λ e m w. elim m [ here p ↦ cc | there n ↦ h e n w ]
  FirstIs-skip lo hi x es (some a) out h =
      (there h.0, h.1, λ e m w. elim m [ here p ↦ cc | there n ↦ h.2 e n w ])

  FirstIs-keep :
      (lo hi : Bound K) (x : K × V) (es : List (K × V)) (b : Bool)
      → is_within lo hi x.0 ≡ b
      → All (Before x) es
      → FirstIs lo hi es (first (select lo hi es))
      → FirstIs lo hi (x ∷ es) (first (keep b x (select lo hi es)))
  FirstIs-keep lo hi x es false out after h = FirstIs-skip lo hi x es _ out h
  FirstIs-keep lo hi x es true w after h = (
    here refl,
    w,
    λ e m v. elim m [
      | here p ↦ rw p (≼_refl x.0)
      | there n ↦ ≼_of_≺ x.0 e.0 (All-In (Before x) es after n)
    ],
  )

  pub select-FirstIs :
      (lo hi : Bound K) (es : List (K × V))
      → Sorted Before es
      → FirstIs lo hi es (first (select lo hi es))
  unfolding select
  select-FirstIs lo hi [] s = λ e m w. In-nil m
  select-FirstIs lo hi (x ∷ es) s =
      FirstIs-keep lo hi x es (is_within lo hi x.0) refl s.0 (select-FirstIs lo hi es s.1)
