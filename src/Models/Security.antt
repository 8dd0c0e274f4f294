-- ===== src/Models/Security.antt =====
-- apps/security/models.py: the event log of the users, and the brute-force counters.
use django_boilderplate.Prelude.{ℕ, String, Option, List}

pub data SecurityEventType : Type 0 where
  login_success login_failed new_device_login password_changed password_reset : SecurityEventType
  email_changed two_factor_enabled two_factor_disabled recovery_code_used : SecurityEventType
  session_revoked account_locked account_unlocked account_deactivated : SecurityEventType
  account_deleted api_key_created api_key_revoked : SecurityEventType

pub record SecurityEvent : Type 0 where
  pub user : Option ℕ
  pub event_type : SecurityEventType
  pub ip_address : Option String
  pub user_agent : String
  pub request_id : String
  pub metadata : List (String × String)
  pub created_at : ℕ

pub record LoginThrottleState : Type 0 where
  pub dimension_hash : String
  pub attempt_count : ℕ
  pub locked_until : Option ℕ
  pub expires_at : ℕ
