-- ===== src/Models/Webhooks.antt =====
-- apps/webhooks/models.py: endpoints, events and the deliveries of events to endpoints.
use django_boilderplate.Prelude.{ℕ, String, Bool, Option, List}
use django_boilderplate.Common.Logging.{Value}

pub record WebhookEndpoint : Type 0 where
  pub pk : ℕ
  pub owner : Option ℕ
  pub name : String
  pub url : String
  pub event_types : List String
  pub secret_hash : String
  pub encrypted_secret : String
  pub is_active : Bool

pub record WebhookEvent : Type 0 where
  pub pk : ℕ
  pub event_type : String
  pub payload : Value
  pub created_at : ℕ

pub data DeliveryStatus : Type 0 where
  pending processing succeeded failed abandoned : DeliveryStatus

pub record WebhookDelivery : Type 0 where
  pub pk : ℕ
  pub endpoint : ℕ
  pub event : ℕ
  pub status : DeliveryStatus
  pub attempt_count : ℕ
  pub response_code : Option ℕ
  pub response_body : String
  pub last_attempt_at : Option ℕ
  pub next_retry_at : Option ℕ
