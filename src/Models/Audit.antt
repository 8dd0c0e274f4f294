-- ===== src/Models/Audit.antt =====
-- apps/audit/models.py: one row of the audit log.
use django_boilderplate.Prelude.{ℕ, String, Option}
use django_boilderplate.Common.Logging.{Fields}

pub record AuditLog : Type 0 where
  pub actor : Option ℕ
  pub action : String
  pub target_type : String
  pub target_id : String
  pub before : Fields
  pub after : Fields
  pub request_id : String
  pub ip_address : Option String
  pub user_agent : String
  pub created_at : ℕ
