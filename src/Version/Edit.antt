-- ===== src/Version/Edit.antt =====
-- src/version/edit.rs: `VersionEdit`, and src/ondisk/sstable.rs: `SsTableID`.
use tonbo.Prelude.{ℕ}
use tonbo.Timestamp.{Timestamp}
use tonbo.Scope.{Scope, FileId}

pub data VersionEdit {ℓ} (K : Type ℓ) : Type ℓ where
  add : (level : ℕ) → Scope K → VersionEdit K
  remove : (level : ℕ) → (gen : FileId) → VersionEdit K
  latest_timestamp : Timestamp → VersionEdit K
  new_log_length : ℕ → VersionEdit K

pub record SsTableId : Type 0 where
  pub file_id : FileId
  pub level : ℕ
