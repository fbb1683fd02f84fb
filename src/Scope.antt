-- ===== src/Scope.antt =====
-- src/scope.rs: `Scope`, the key range and the file of one table.
-- `FileId` is a ULID, of which the engine uses the identity: a number here. `Bound` is of `std::ops`.
pub mod Range
use tonbo.Prelude.{ℕ, Bool, true, false, not, ◌&&◌, ◌||◌, Option, List}
use tonbo.Key.{Key, ◌<?◌, ◌≤?◌, ◌=?◌}

abbrev pub FileId : Type 0
FileId = ℕ

pub record Scope {ℓ} (K : Type ℓ) : Type ℓ where
  pub min : K
  pub max : K
  pub gen : FileId
  pub wal_ids : Option (List FileId)
  pub file_size : ℕ

pub data Bound {ℓ} (K : Type ℓ) : Type ℓ where
  included excluded : K → Bound K
  unbounded : Bound K

module _ {ℓ} {K : Type ℓ} ⦃k : Key K⦄ where
  unfoldable pub contains : Scope K → K → Bool
  contains s key = s.min ≤? key && key ≤? s.max

  pub meets : Scope K → Scope K → Bool
  unfolding contains
  meets s target = contains s target.min || contains s target.max

  -- the two closures of `meets_range`
  excluded_contains : Scope K → K → Bool
  excluded_contains s key = s.min <? key && key <? s.max

  included_by : Scope K → K → K → Bool
  included_by s lo hi = lo ≤? s.min && s.max ≤? hi

  unfoldable pub meets_range : Scope K → Bound K → Bound K → Bool
  unfolding contains excluded_contains included_by
  meets_range s (included start) (included end) =
      contains s start || contains s end || included_by s start end
  meets_range s (included start) (excluded end) =
      not (start =? end) && (contains s start || excluded_contains s end || included_by s start end)
  meets_range s (excluded start) (included end) =
      not (start =? end) && (excluded_contains s start || contains s end || included_by s start end)
  meets_range s (excluded start) (excluded end) =
      not (start =? end)
      && (excluded_contains s start || excluded_contains s end || included_by s start end)
  meets_range s (included start) unbounded = start ≤? s.max
  meets_range s (excluded start) unbounded = start <? s.max
  meets_range s unbounded (included end) = s.min ≤? end
  meets_range s unbounded (excluded end) = s.min <? end
  meets_range s unbounded unbounded = true
