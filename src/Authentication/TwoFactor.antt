-- ===== src/Authentication/TwoFactor.antt =====
-- `TwoFactorService` of apps/authentication/services.py: a time-based secret for each user, and ten
-- recovery codes of which only digests are stored.
use django_boilderplate.Common.Logging.{end}
use django_boilderplate.Audit.{record_audit}
use django_boilderplate.Models.Security.{
  two_factor_disabled, recovery_code_used, two_factor_enabled,
}
use django_boilderplate.Security.Events.{record_event}
use django_boilderplate.Common.Network.{Request}
use django_boilderplate.Models.Accounts.{User}
use django_boilderplate.Common.Crypto.{encrypt_value, decrypt_value, keyed_hash}
use django_boilderplate.Env.{Env}
use django_boilderplate.Models.Authentication.{is_enabled, RecoveryCode, TwoFactorCredential}
use django_boilderplate.World.{
  send_email, on_commit, does_not_exist, resource_not_found, conflict, integrity_error, or_raise,
  raise_if, atomic, modify_db, fresh_pk, draw, gets, authentication_failed, ◌>>◌, ◌>>=◌, pure, Db,
  api, Action, Error,
}
use django_boilderplate.Prelude.{
  if◌then◌else◌, ◌∷◌, ◌||◌, ◌==◌, ◌++◌, ◌&&◌, ℕ, zero, update_where, true, suc, str_eq, some,
  select, not, none, map, is_none, first, false, exists, delete_where, [], String, Option, List,
  Bool,
}
pub mod Recovery
pub mod Disabling

abbrev pub authentication_error : Error
authentication_error = api authentication_failed 401 none

abbrev recovery_code_count : ℕ
recovery_code_count = 10

abbrev pub is_pending_of : ℕ → TwoFactorCredential → Bool
is_pending_of user c = c.user == user && is_none c.confirmed_at

abbrev pub is_enabled_of : ℕ → TwoFactorCredential → Bool
is_enabled_of user c = c.user == user && is_enabled c

abbrev pub credential_of : ℕ → TwoFactorCredential → Bool
credential_of user c = c.user == user

-- `.filter(...).delete()` of credentials takes their recovery codes along.
abbrev delete_credentials : (TwoFactorCredential → Bool) → Db → Db
delete_credentials p db = record db {
  credentials = delete_where p db.credentials;
  recovery_codes =
      delete_where (λ r. exists (λ c. c.pk == r.credential) (select p db.credentials))
        db.recovery_codes;
}

-- `.save()` of a credential
abbrev save_credential : TwoFactorCredential → Db → Db
save_credential c db = record db {
  credentials = update_where (λ r. r.pk == c.pk) (λ _. c) db.credentials;
}

-- `.create(user=user, ...)` under the one-to-one constraint on the user
unfoldable create_credential : ℕ → String → Action (Unit {0})
create_credential user encrypted = do
  taken ← gets (λ w. exists (credential_of user) w.db.credentials)
  raise_if taken integrity_error
  pk ← fresh_pk
  modify_db (λ db. record db {
    credentials =
        db.credentials
        ++ record {
          pk = pk;
          user = user;
          encrypted_secret = encrypted;
          confirmed_at = none;
          disabled_at = none;
        }
          ∷ [];
  })

abbrev pub is_open_code : ℕ → String → RecoveryCode → Bool
is_open_code credential hash r =
    r.credential == credential && (str_eq r.code_hash hash && is_none r.used_at)

abbrev pub use_code_at : ℕ → RecoveryCode → RecoveryCode
use_code_at now r = record r { used_at = some now }

-- the constraint on the digests of one credential
abbrev has_duplicate : List String → Bool
has_duplicate [] = false
has_duplicate (h ∷ hs) = exists (λ g. str_eq g h) hs || has_duplicate hs

module _ (env : Env) where
  -- `_recovery_hash`
  unfoldable pub recovery_hash : String → String
  recovery_hash code = keyed_hash env (env.upper (env.strip code)) "recovery-code"

  -- `code.strip().replace("-", "").upper()`
  abbrev pub normalized : String → String
  normalized code = env.upper (env.without_dashes (env.strip code))

  -- `secrets.token_hex(5).upper()`, so many times
  unfoldable draw_codes : ℕ → Action (List String)
  draw_codes zero = pure []
  draw_codes (suc n) = do d ← draw; rest ← draw_codes n; pure (env.upper (env.random_hex d) ∷ rest)

  unfoldable create_codes : ℕ → List String → Action (Unit {0})
  create_codes credential [] = pure tt
  create_codes credential (code ∷ rest) = do
    pk ← fresh_pk
    modify_db (λ db. record db {
      recovery_codes =
          db.recovery_codes
          ++ record {
            pk = pk;
            credential = credential;
            code_hash = recovery_hash code;
            used_at = none;
          }
            ∷ [];
    })
    create_codes credential rest

  -- `_replace_recovery_codes`
  unfoldable replace_recovery_codes : TwoFactorCredential → Action (List String)
  unfolding draw_codes create_codes
  replace_recovery_codes credential = do
    modify_db (λ db. record db {
      recovery_codes = delete_where (λ r. r.credential == credential.pk) db.recovery_codes;
    })
    codes ← draw_codes recovery_code_count
    raise_if (has_duplicate (map recovery_hash codes)) integrity_error
    create_codes credential.pk codes
    pure codes

  -- `begin_setup`: the secret, and the address for an authenticator.
  unfoldable pub begin_setup : User → String → Action (String × String)
  unfolding create_credential
  begin_setup user password = atomic do
    raise_if (not (env.check_password user.password password)) authentication_error
    modify_db (delete_credentials (is_pending_of user.pk))
    enabled ← gets (λ w. exists (is_enabled_of user.pk) w.db.credentials)
    raise_if enabled (api conflict 409 none)
    d ← draw
    let secret = env.random_base32 d
    encrypted ← encrypt_value env secret "totp-secret"
    create_credential user.pk encrypted
    pure (secret, env.provisioning_uri secret user.email)

  -- the end of `confirm_setup`, for a code that was verified
  unfoldable enable : User → TwoFactorCredential → Option Request → Action (List String)
  unfolding replace_recovery_codes
  enable user credential request = do
    now ← gets (λ w. w.now)
    modify_db (save_credential (record credential { confirmed_at = some now; disabled_at = none }))
    codes ← replace_recovery_codes credential
    record_event env two_factor_enabled (some user.pk) request []
    record_audit env "two_factor.enabled" "accounts.user" (env.pk_text user.pk) (some user.pk)
        request end end
    on_commit (send_email "two_factor_enabled" user.email "")
    pure codes

  unfoldable pub confirm_setup : User → String → Option Request → Action (List String)
  unfolding enable
  confirm_setup user code request = atomic do
    found ← gets (λ w. first (is_pending_of user.pk) w.db.credentials)
    credential ← or_raise found (api resource_not_found 404 none)
    secret ← decrypt_value env credential.encrypted_secret "totp-secret"
    now ← gets (λ w. w.now)
    raise_if (not (env.totp_verify secret code now)) authentication_error
    enable user credential request

  -- `_consume_recovery_code`, for the row that its query finds
  unfoldable use_recovery_code : TwoFactorCredential → Option RecoveryCode → Action Bool
  use_recovery_code credential none = pure false
  use_recovery_code credential (some r) = do
    now ← gets (λ w. w.now)
    modify_db (λ db. record db {
      recovery_codes = update_where (λ x. x.pk == r.pk) (use_code_at now) db.recovery_codes;
    })
    record_event env recovery_code_used (some credential.user) none []
    pure true

  unfoldable pub consume_recovery_code : TwoFactorCredential → String → Action Bool
  unfolding recovery_hash use_recovery_code
  consume_recovery_code credential code = atomic do
    found ← gets (λ w. first (is_open_code credential.pk (recovery_hash code)) w.db.recovery_codes)
    use_recovery_code credential found

  -- the two ways of `verify` to accept a code: the secret, or a recovery code
  unfoldable verify_with : TwoFactorCredential → String → Action (Bool × Bool)
  unfolding consume_recovery_code
  verify_with credential code = do
    secret ← decrypt_value env credential.encrypted_secret "totp-secret"
    now ← gets (λ w. w.now)
    if env.totp_verify secret (normalized code) now
        then pure (true, false)
        else do used ← consume_recovery_code credential (normalized code); pure (used, true)

  unfoldable verify_credential : String → Option TwoFactorCredential → Action (Bool × Bool)
  unfolding verify_with
  verify_credential code none = pure (false, false)
  verify_credential code (some credential) =
      if is_enabled credential then verify_with credential code else pure (false, false)

  -- `verify`: whether the code is good, and whether it was tried as a recovery code.
  unfoldable pub verify : User → String → Action (Bool × Bool)
  unfolding verify_credential
  verify user code = do
    found ← gets (λ w. first (credential_of user.pk) w.db.credentials)
    verify_credential code found

  unfoldable pub regenerate_codes : User → String → Option Request → Action (List String)
  unfolding verify replace_recovery_codes
  regenerate_codes user code request = atomic do
    verdict ← verify user code
    raise_if (not verdict.0) authentication_error
    found ← gets (λ w. first (λ c. c.user == user.pk && is_none c.disabled_at) w.db.credentials)
    credential ← or_raise found does_not_exist
    codes ← replace_recovery_codes credential
    record_audit env "two_factor.recovery_codes_regenerated" "accounts.user" (env.pk_text user.pk)
        (some user.pk) request end end
    pure codes

  -- the end of `disable`, for a password and a code that were verified
  unfoldable pub disable_credential : User → Option Request → Action (Unit {0})
  disable_credential user request = do
    found ← gets (λ w. first (credential_of user.pk) w.db.credentials)
    credential ← or_raise found does_not_exist
    now ← gets (λ w. w.now)
    modify_db (save_credential (record credential { disabled_at = some now }))
    modify_db (λ db. record db {
      recovery_codes =
          update_where (λ r. r.credential == credential.pk && is_none r.used_at) (use_code_at now)
            db.recovery_codes;
    })
    record_event env two_factor_disabled (some user.pk) request []
    record_audit env "two_factor.disabled" "accounts.user" (env.pk_text user.pk) (some user.pk)
        request end end
    on_commit (send_email "two_factor_disabled" user.email "")

  -- the body of `disable`, inside its transaction
  unfoldable disable_checked : User → String → String → Option Request → Action (Unit {0})
  disable_checked user password code request = do
    raise_if (not (env.check_password user.password password)) authentication_error
    verdict ← verify user code
    raise_if (not verdict.0) authentication_error
    disable_credential user request

  unfoldable pub disable : User → String → String → Option Request → Action (Unit {0})
  unfolding disable_checked
  disable user password code request = atomic (disable_checked user password code request)
