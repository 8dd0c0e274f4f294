-- ===== src/Config/Production.antt =====
-- config/settings/production.py: what must hold of the settings of config/settings/base.py and of
-- the environment before a production server starts. A setting of a list is its number of items.
use django_boilderplate.Security.LoginProtection.{text_in}
use django_boilderplate.World.{improperly_configured, ok, err, Result}
use django_boilderplate.Prelude.{
  ◌∷◌, ◌==◌, ◌&&◌, ℕ, true, text_length, str_eq, starts_with, not, ltb, if◌then◌else◌, false, [],
  String, List, Bool,
}
pub mod Guarantees

pub record BaseSettings : Type 0 where
  pub secret_key : String
  pub allowed_hosts : String
  pub totp_encryption_key : String
  pub enable_api_keys : Bool
  pub api_key_pepper : String
  -- `env("DEFAULT_FROM_EMAIL", default="")` and `env("EMAIL_BACKEND", default="")`
  pub env_from_email : String
  pub env_email_backend : String
  pub email_backend : String
  pub site_url : String
  pub celery_enabled : Bool
  pub celery_eager : Bool
  pub trust_proxy_headers : Bool
  pub trusted_proxies : ℕ
  -- `env("STORAGE_BACKEND", default="local").lower()`
  pub storage_backend : String
  pub bucket_name : String
  pub enable_openapi : Bool
  pub openapi_in_production : Bool

abbrev default_secret_key : String
default_secret_key = "unsafe-development-only-key"

-- `_require`
abbrev require : String → Result (Unit {0})
require value = if str_eq value "" then err improperly_configured else ok tt

abbrev pub refuse_if : Bool → Result (Unit {0})
refuse_if true = err improperly_configured
refuse_if false = ok tt

abbrev require_if : Bool → String → Result (Unit {0})
require_if true value = require value
require_if false value = ok tt

-- the backends that deliver nothing
abbrev pub idle_backends : List String
idle_backends =
    "django.core.mail.backends.console.EmailBackend"
    ∷ "django.core.mail.backends.locmem.EmailBackend"
    ∷ "django.core.mail.backends.dummy.EmailBackend" ∷ []

infixl 5 ◌then◌
unfoldable pub ◌then◌ : Result (Unit {0}) → Result (Unit {0}) → Result (Unit {0})
ok _ then r = r
err e then r = err e

-- the checks in their order
unfoldable pub check_production : BaseSettings → Result (Unit {0})
unfolding text_length starts_with
check_production s =
    require (if str_eq s.secret_key default_secret_key then "" else s.secret_key)
    then require s.allowed_hosts
    then require s.totp_encryption_key
    then require_if s.enable_api_keys s.api_key_pepper
    then require s.env_from_email
    then require s.env_email_backend
    then refuse_if (ltb (text_length s.secret_key) 50)
    then refuse_if (ltb (text_length s.totp_encryption_key) 32)
    then refuse_if (s.enable_api_keys && ltb (text_length s.api_key_pepper) 32)
    then refuse_if (text_in s.email_backend idle_backends)
    then refuse_if (not (starts_with "https://" s.site_url))
    then refuse_if (s.celery_enabled && s.celery_eager)
    then refuse_if (s.trust_proxy_headers && (s.trusted_proxies == 0))
    then require_if (str_eq s.storage_backend "s3") s.bucket_name

-- the settings of the server, once they are checked
abbrev pub started : BaseSettings → Result (Unit {0}) → Result BaseSettings
started s (err e) = err e
started s (ok _) = ok (record s { enable_openapi = s.enable_openapi && s.openapi_in_production })

unfoldable pub production : BaseSettings → Result BaseSettings
unfolding check_production
production s = started s (check_production s)
