-- ===== src/Security/Events.antt =====
-- `SecurityEventService` of apps/security/services.py.
use django_boilderplate.Prelude.{ℕ, String, Option, List, [], ◌∷◌, ◌++◌}
use django_boilderplate.Env.{Env}
use django_boilderplate.Common.Network.{Request, ip_of, agent_of, request_id_of}
use django_boilderplate.Models.Security.{SecurityEventType}
use django_boilderplate.World.{Action, ok}

module _ (env : Env) where
  -- `SecurityEventService.record(event_type, user=..., request=..., metadata=...)`
  unfoldable pub record_event :
      SecurityEventType → Option ℕ → Option Request → List (String × String) → Action (Unit {0})
  record_event event_type user request metadata w = (
    ok tt,
    record w {
      db = record w.db {
        security_events =
            w.db.security_events
            ++ record {
              user = user;
              event_type = event_type;
              ip_address = ip_of env request;
              user_agent = agent_of env request;
              request_id = request_id_of request;
              metadata = metadata;
              created_at = w.now;
            }
              ∷ [];
      };
    },
  )
