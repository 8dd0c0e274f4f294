-- ===== src/Models/Notifications.antt =====
-- apps/notifications/models.py: the notifications of a user inside the application.
use django_boilderplate.Prelude.{ℕ, String, Option}
use django_boilderplate.Common.Logging.{Fields}

pub record Notification : Type 0 where
  pub pk : ℕ
  pub user : ℕ
  pub type_name : String
  pub title : String
  pub message : String
  pub payload : Fields
  pub read_at : Option ℕ
  pub created_at : ℕ
  pub expires_at : Option ℕ
