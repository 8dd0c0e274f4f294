-- ===== src/Common/Crypto.antt =====
-- common/crypto.py: keyed digests and encrypted values, over the digests and the cipher of `Env`.
use Prim.Native.String.{◌++◌ as cat}
use django_boilderplate.Prelude.{◌≡◌, false, Option, String, ◌&&◌, str_eq, if◌then◌else◌}
use django_boilderplate.Env.{Env}
use django_boilderplate.World.{
  World, ◌>>=◌, ◌>>◌, Action, improperly_configured, value_error, draw, or_raise, raise_if, pure,
}

-- `a or b` on texts
abbrev pub text_or : String → String → String
text_or a b = if str_eq a "" then b else a

module _ (env : Env) where
  -- `_key_material`
  unfoldable pub key_material : String → Action String
  key_material purpose = do
    let configured = text_or env.settings.totp_encryption_key env.settings.secret_key
    raise_if
        (str_eq env.settings.app_env "production" && str_eq env.settings.totp_encryption_key "")
        improperly_configured
    pure (env.sha256 (cat purpose (cat ":" configured)))

  unfoldable pub encrypt_value : String → String → Action String
  unfolding key_material
  encrypt_value value purpose = do
    key ← key_material purpose
    n ← draw
    pure (env.fernet_encrypt key n value)

  unfoldable pub decrypt_value : String → String → Action String
  unfolding key_material
  decrypt_value value purpose = do
    key ← key_material purpose
    or_raise (env.fernet_decrypt key value) value_error

  -- `keyed_hash` with the default pepper, `settings.SECRET_KEY`
  unfoldable pub keyed_hash : String → String → String
  keyed_hash value purpose =
      env.hmac_sha256 (env.sha256 (cat purpose (cat ":" env.settings.secret_key))) value

  -- `generate_token`
  unfoldable pub generate_token : Action String
  generate_token = do n ← draw; pure (env.random_token n)

-- The key for the encrypted values is configured, as `_key_material` wants it in production.
abbrev pub IsConfigured : Env → Type 0
IsConfigured env =
    (str_eq env.settings.app_env "production" && str_eq env.settings.totp_encryption_key "") ≡ false

-- What an encrypted value holds, where the key is configured.
unfoldable pub plain : Env → String → String → Option String
plain env value purpose =
    env.fernet_decrypt
      (env.sha256
        (cat purpose (cat ":" (text_or env.settings.totp_encryption_key env.settings.secret_key))))
      value

pub decrypt_value-plain :
    (env : Env) (value purpose : String) (w : World)
    → IsConfigured env
    → decrypt_value env value purpose w ≡ or_raise (plain env value purpose) value_error w
unfolding decrypt_value plain
decrypt_value-plain env value purpose w h = simp h
