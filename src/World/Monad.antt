-- ===== src/World/Monad.antt =====
-- Actions: code that reads and writes the state and may raise. What is written before a raise
-- stays written, unless an enclosing `transaction.atomic` rolls the database back.
use django_boilderplate.Prelude.{
  ℕ, zero, suc, String, Bool, true, false, Option, none, some, List, [], ◌∷◌, ◌++◌, ◌+◌,
}
use django_boilderplate.Models.Accounts.{
  User, UserProfile, UserPreferences, UserSecuritySettings, UserBan,
}
use django_boilderplate.Models.Authentication.{
  OneTimeToken, UserSession, TwoFactorCredential, RecoveryCode,
}
use django_boilderplate.Models.Security.{SecurityEvent, LoginThrottleState}
use django_boilderplate.Models.Authorization.{
  Permission, Role, RolePermission, UserRole, UserPermissionOverride,
}
use django_boilderplate.Models.Audit.{AuditLog}
use django_boilderplate.Models.ApiKeys.{ApiKey}
use django_boilderplate.Models.Core.{Setting, FeatureFlag, IdempotencyRecord}
use django_boilderplate.Models.Files.{StoredFile}
use django_boilderplate.Models.Notifications.{Notification}
use django_boilderplate.Models.Webhooks.{WebhookEndpoint, WebhookEvent, WebhookDelivery}
use django_boilderplate.Common.Logging.{Value}

-- The `code` of an `APIException`.
pub data Code : Type 0 where
  invalid_token authentication_failed conflict account_locked account_banned : Code
  two_factor_required resource_not_found authentication_required invalid_request : Code
  feature_disabled registration_disabled method_not_allowed permission_denied : Code

-- The exceptions: an `APIException` with its status and its `retry_after` field, the
-- `ValidationError` of a serializer, and those of Django and Python that the services raise or let
-- through (`validation_error` is Django's).
pub data Error : Type 0 where
  api : Code → (status : ℕ) → (retry_after : Option ℕ) → Error
  serializer_error validation_error integrity_error does_not_exist value_error key_error
        runtime_error type_error improperly_configured delivery_error :
      Error

pub data Result {ℓ} (A : Type ℓ) : Type ℓ where
  ok : A → Result A
  err : Error → Result A

-- A row of simplejwt's tables: an outstanding refresh token, and whether it is blacklisted.
pub record OutstandingToken : Type 0 where
  pub user : ℕ
  pub expires_at : ℕ
  pub blacklisted : Bool

-- A row of `django.contrib.sessions`.
pub record Session : Type 0 where
  pub session_key : String

pub record Db : Type 0 where
  pub users : List User
  pub profiles : List UserProfile
  pub preferences : List UserPreferences
  pub security_settings : List UserSecuritySettings
  pub bans : List UserBan
  pub tokens : List OneTimeToken
  pub user_sessions : List UserSession
  pub sessions : List Session
  pub credentials : List TwoFactorCredential
  pub recovery_codes : List RecoveryCode
  pub jwts : List OutstandingToken
  pub throttles : List LoginThrottleState
  pub security_events : List SecurityEvent
  pub audit_logs : List AuditLog
  pub permissions : List Permission
  pub roles : List Role
  pub role_permissions : List RolePermission
  pub user_roles : List UserRole
  pub overrides : List UserPermissionOverride
  pub api_keys : List ApiKey
  pub runtime_settings : List Setting
  pub feature_flags : List FeatureFlag
  pub idempotency : List IdempotencyRecord
  pub stored_files : List StoredFile
  pub notifications : List Notification
  pub endpoints : List WebhookEndpoint
  pub webhook_events : List WebhookEvent
  pub deliveries : List WebhookDelivery

-- One entry of the cache: its value, and the instant at which it is gone.
pub record CacheEntry : Type 0 where
  pub key : String
  pub value : ℕ
  pub expires : ℕ

-- An entry of the cache for a runtime setting: the key and the variant that it was read for.
pub record SettingEntry : Type 0 where
  pub key : String
  pub public_only : Bool
  pub value : Value
  pub expires : ℕ

-- What leaves the process: a templated e-mail with the address or token in its link, a file
-- removed from storage, an event published on the bus, the dispatch of webhooks.
pub data Effect : Type 0 where
  send_email : (template recipient link : String) → Effect
  delete_file : String → Effect
  publish : (name target : String) → Effect
  dispatch_webhooks : Effect

pub record World : Type 0 where
  pub db : Db
  -- the cache: the entries of the login protection, and those of the runtime settings, whose keys
  -- have another prefix
  pub cache : List CacheEntry
  pub settings_cache : List SettingEntry
  pub now : ℕ
  -- the next primary key, and the number of random draws so far
  pub next_pk : ℕ
  pub draws : ℕ
  -- the key of the request's Django session
  pub session_key : Option String
  -- the number of open `atomic` blocks, and the callbacks that wait for the outermost to commit
  pub depth : ℕ
  pub callbacks : List Effect
  pub effects : List Effect

abbrev pub Action : Type 0 → Type 0
Action A = World → Result A × World

module _ {A : Type 0} where
  abbrev pub pure : A → Action A
  pure a w = (ok a, w)

  abbrev pub raise : Error → Action A
  raise e w = (err e, w)

  abbrev pub gets : (World → A) → Action A
  gets f w = (ok (f w), w)

  -- `queryset.get(...)`
  abbrev pub or_raise : Option A → Error → Action A
  or_raise none e w = (err e, w)
  or_raise (some a) e w = (ok a, w)

abbrev pub continue : {A B : Type 0} → Result A → (A → Action B) → Action B
continue (ok a) f w = f a w
continue (err e) f w = (err e, w)

infixl 5 ◌>>=◌ ◌>>◌
abbrev pub ◌>>=◌ : {A B : Type 0} → Action A → (A → Action B) → Action B
◌>>=◌ m f w = let (r, w') = m w in continue r f w'

abbrev pub ◌>>◌ : {A B : Type 0} → Action A → Action B → Action B
m >> k = m >>= λ _. k

abbrev pub raise_if : Bool → Error → Action (Unit {0})
raise_if true e w = (err e, w)
raise_if false e w = (ok tt, w)

abbrev pub when : Bool → Action (Unit {0}) → Action (Unit {0})
when true m w = m w
when false m w = (ok tt, w)

abbrev pub modify_db : (Db → Db) → Action (Unit {0})
modify_db f w = (ok tt, record w { db = f w.db })

-- A primary key, and the number of a random draw.
abbrev pub fresh_pk : Action ℕ
fresh_pk w = (ok w.next_pk, record w { next_pk = suc w.next_pk })

-- `n` primary keys at once
abbrev pub skip_pks : ℕ → Action (Unit {0})
skip_pks n w = (ok tt, record w { next_pk = n + w.next_pk })

abbrev pub draw : Action ℕ
draw w = (ok w.draws, record w { draws = suc w.draws })

-- Leave an `atomic` block that was entered in `w`. An exception restores the rows and forgets the
-- callbacks of the block; the end of the outermost block runs the callbacks.
abbrev pub leave : {A : Type 0} → World → Result A → World → Result A × World
leave w (err e) w' = (err e, record w' { db = w.db; depth = w.depth; callbacks = w.callbacks })
leave w (ok a) w' = elim w.depth [
  | zero ↦ (ok a, record w' { depth = 0; callbacks = []; effects = w'.effects ++ w'.callbacks })
  | suc d ↦ (ok a, record w' { depth = suc d })
]

-- `with transaction.atomic()`
abbrev pub atomic : {A : Type 0} → Action A → Action A
atomic m w = let (r, w') = m (record w { depth = suc w.depth }) in leave w r w'

-- `transaction.on_commit`: at once where no block is open.
abbrev pub on_commit : Effect → Action (Unit {0})
on_commit e w = elim w.depth [
  | zero ↦ (ok tt, record w { effects = w.effects ++ e ∷ [] })
  | suc _ ↦ (ok tt, record w { callbacks = w.callbacks ++ e ∷ [] })
]

-- A call that leaves the process at once.
abbrev pub emit : Effect → Action (Unit {0})
emit e w = (ok tt, record w { effects = w.effects ++ e ∷ [] })
