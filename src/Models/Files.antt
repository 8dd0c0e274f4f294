-- ===== src/Models/Files.antt =====
-- apps/files/models.py: uploaded files.
use django_boilderplate.Prelude.{ℕ, String, Option}

pub data FileStatus : Type 0 where
  pending ready quarantined rejected : FileStatus

pub record StoredFile : Type 0 where
  pub pk : ℕ
  pub owner : Option ℕ
  pub file : String
  pub original_name : String
  pub content_type : String
  pub size : ℕ
  pub checksum_sha256 : String
  pub status : FileStatus
  pub created_at : ℕ
  pub deleted_at : Option ℕ
