-- ===== src/Audit/Guards.antt =====
-- apps/audit/models.py: what the model and its query set refuse. A row is added once, and only the
-- retention removes rows.
use django_boilderplate.World.{modify_db, validation_error, raise_if, ◌>>◌, raise, Action}
use django_boilderplate.Models.Audit.{AuditLog}
use django_boilderplate.Prelude.{◌∷◌, ◌++◌, ℕ, not, [], Bool}

-- `AuditLog.save`
unfoldable save_log : (adding : Bool) → AuditLog → Action (Unit {0})
save_log adding row = do
  raise_if (not adding) validation_error
  modify_db (λ db. record db { audit_logs = db.audit_logs ++ row ∷ [] })

-- `AuditLog.delete`
unfoldable delete_log : AuditLog → Action (Unit {0})
delete_log row = raise validation_error

-- `AuditLogQuerySet.update`
unfoldable update_logs : (AuditLog → AuditLog) → Action ℕ
update_logs change = raise validation_error

-- `AuditLogQuerySet.delete`
unfoldable delete_logs : (AuditLog → Bool) → Action ℕ
delete_logs chosen = raise validation_error
