-- ===== src/Audit.antt =====
-- apps/audit/services.py: one row of the audit log for each recorded action. The row's display text
-- `target_repr` and its `metadata`, which no caller of this development gives, are left out.
use django_boilderplate.Prelude.{ℕ, String, Option, [], ◌∷◌, ◌++◌}
use django_boilderplate.Env.{Env}
use django_boilderplate.Common.Logging.{Fields, sanitize_fields}
use django_boilderplate.Common.Network.{Request, ip_of, agent_of, request_id_of}
use django_boilderplate.World.{Action, ok}
pub mod Guards

module _ (env : Env) where
  -- `AuditService.record(action=..., target=..., actor=..., request=..., before=..., after=...)`
  unfoldable pub record_audit :
      String → String → String → Option ℕ → Option Request → Fields → Fields → Action (Unit {0})
  record_audit action target_type target_id actor request before after w = (
    ok tt,
    record w {
      db = record w.db {
        audit_logs =
            w.db.audit_logs
            ++ record {
              actor = actor;
              action = action;
              target_type = target_type;
              target_id = target_id;
              before = sanitize_fields before;
              after = sanitize_fields after;
              request_id = request_id_of request;
              ip_address = ip_of env request;
              user_agent = agent_of env request;
              created_at = w.now;
            }
              ∷ [];
      };
    },
  )
