-- ===== src/Models/Core.antt =====
-- apps/core/models.py: settings that are changed at run time, feature flags, and the record of a
-- request that must not be repeated.
use django_boilderplate.Prelude.{ℕ, String, Bool, Option}
use django_boilderplate.Common.Logging.{Value}

pub data SettingValueType : Type 0 where
  string integer boolean json : SettingValueType

pub record Setting : Type 0 where
  pub pk : ℕ
  pub key : String
  pub value : Value
  pub value_type : SettingValueType
  pub group : String
  pub is_public : Bool
  pub description : String

pub record FeatureFlag : Type 0 where
  pub pk : ℕ
  pub key : String
  pub enabled : Bool
  pub description : String

pub record IdempotencyRecord : Type 0 where
  pub pk : ℕ
  pub user : Option ℕ
  pub key_hash : String
  pub request_method : String
  pub request_path : String
  pub request_hash : String
  pub response_status : Option ℕ
  pub response_body : Value
  pub expires_at : ℕ
