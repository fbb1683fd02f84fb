-- ===== src/Stream.antt =====
-- src/stream/mod.rs: `enum Entry`, what every stream yields. Its variants differ in who owns the
-- row (a transaction, a memtable, a record batch) and whether it is projected; all that a reader
-- asks of one is `key()` and `value()`, which are the fields here.
-- src/option.rs: `enum Order`.
pub mod Merge
use tonbo.Prelude.{Option}
use tonbo.Timestamp.{Ts}

pub record Entry {ℓ κ} (K : Type ℓ) (R : Type κ) : Type (ℓ ⊔ κ) where
  pub key : Ts K
  -- `None` is a tombstone
  pub value : Option R

pub data Order : Type 0 where
  asc desc : Order
