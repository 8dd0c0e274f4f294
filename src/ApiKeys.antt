-- ===== src/ApiKeys.antt =====
-- `APIKeyService` of apps/api_keys/services.py, with the authentication class and the permission
-- class that use it. Of a key only a digest under the pepper is stored.
use django_boilderplate.Models.Security.{api_key_created, api_key_revoked}
use django_boilderplate.Authentication.Accounts.{is_user}
use django_boilderplate.Audit.{record_audit}
use django_boilderplate.Common.Network.{get_client_ip, Request}
use django_boilderplate.Models.Accounts.{can_authenticate_now}
use django_boilderplate.Security.Events.{record_event}
use django_boilderplate.Common.Crypto.{text_or}
use django_boilderplate.World.{
  fresh_pk, authentication_failed, integrity_error, api, does_not_exist, modify_db, when, raise_if,
  ◌>>◌, or_raise, gets, draw, ◌>>=◌, atomic, pure, Action, World, Db,
}
use django_boilderplate.Env.{Env}
use django_boilderplate.Common.Logging.{list, field, end, text, item, nil, Items}
use django_boilderplate.Models.ApiKeys.{key_is_active, ApiKey}
use django_boilderplate.Prelude.{
  ◌∷◌, ◌||◌, ◌==◌, ◌++◌, ◌&&◌, ℕ, update_where, str_eq, starts_with, sorted_set, some, not, none,
  is_none, if◌then◌else◌, has_char, first, false, exists, before, after, [], String, Option, List,
  Bool,
}
pub mod Revocation
pub mod RoundTrip
pub mod Scopes
use Prim.Native.String.{◌++◌ as cat}

-- the characters "_" and "."
abbrev pub underscore : ℕ
underscore = b'_'

abbrev pub dot : ℕ
dot = b'.'

abbrev pub has_prefix : String → ApiKey → Bool
has_prefix prefix k = str_eq k.prefix prefix

abbrev pub has_key_pk : ℕ → ApiKey → Bool
has_key_pk pk k = k.pk == pk

abbrev save_key : ℕ → (ApiKey → ApiKey) → Db → Db
save_key pk f db = record db { api_keys = update_where (has_key_pk pk) f db.api_keys }

-- `owner` and `actor or owner`
abbrev or_owner : Option ℕ → ℕ → Option ℕ
or_owner none owner = some owner
or_owner (some actor) owner = some actor

-- the texts of a JSON list
abbrev pub text_items : List String → Items
text_items [] = nil
text_items (t ∷ ts) = item (text t) (text_items ts)

module _ (env : Env) where
  -- `_hash`, with the pepper or the secret key
  unfoldable pub key_hash : String → String
  key_hash raw =
      env.hmac_sha256
        (env.sha256 (
          cat "api-key:" (
            text_or (text_or env.settings.api_key_pepper env.settings.secret_key)
              env.settings.secret_key)))
        raw

  -- `f"{marker}_{prefix}.{secret}"`
  unfoldable pub raw_key : String → String → String
  raw_key prefix secret = cat "dk" (cat "_" (cat prefix (cat "." secret)))

  -- `create`, for an owner; the key with its raw text
  unfoldable pub create :
      (owner : ℕ)
      → (name : String) → (scopes : List String) → (expires_at : Option ℕ) → (actor : Option ℕ)
      → Option Request
      → Action (ApiKey × String)
  unfolding key_hash raw_key sorted_set record_event record_audit
  create owner name scopes expires_at actor request = atomic do
    n ← draw
    let prefix = env.random_hex n
    m ← draw
    let raw = raw_key prefix (env.random_token m)
    taken ← gets (λ w. exists (has_prefix prefix) w.db.api_keys)
    raise_if taken integrity_error
    pk ← fresh_pk
    let key : ApiKey = record {
      pk = pk;
      owner = owner;
      name = name;
      prefix = prefix;
      key_hash = key_hash raw;
      scopes = sorted_set scopes;
      last_used_at = none;
      last_used_ip = none;
      expires_at = expires_at;
      revoked_at = none;
    }
    modify_db (λ db. record db { api_keys = db.api_keys ++ key ∷ [] })
    record_event env api_key_created (some owner) request (("prefix", prefix) ∷ [])
    record_audit env "api_key.created" "api_keys.apikey" (env.pk_text pk) (or_owner actor owner)
        request end
        (field "name" (text name)
          (field "scopes" (list (text_items key.scopes)) (field "prefix" (text prefix) end)))
    pure (key, raw)

  -- `raw_key.split("_", 1)[1].split(".", 1)[0]`
  unfoldable pub prefix_of : String → String
  unfolding before after
  prefix_of raw = before dot (after underscore raw)

  -- the form of a raw key
  unfoldable pub is_marked : String → Bool
  unfolding starts_with has_char
  is_marked raw = starts_with "dk_" raw && has_char dot raw

  -- `key.owner.can_authenticate_now()`
  unfoldable pub owner_available : World → ApiKey → Bool
  unfolding can_authenticate_now
  owner_available w key = elim (first (is_user key.owner) w.db.users) [
    | none ↦ false
    | some owner ↦ can_authenticate_now w.now w.db.bans owner
  ]

  -- the tests on the row that the prefix finds
  unfoldable pub key_accepts : World → String → ApiKey → Bool
  unfolding owner_available
  key_accepts w raw key =
      key_is_active w.now key && (owner_available w key && str_eq key.key_hash (key_hash raw))

  -- the end of `authenticate`: the row that its query found
  unfoldable pub use_key : String → Option String → Option ApiKey → Action (Option ApiKey)
  unfolding key_accepts
  use_key raw ip none = pure none
  use_key raw ip (some key) = do
    accepted ← gets (λ w. key_accepts w raw key)
    now ← gets (λ w. w.now)
    when accepted
        (modify_db (save_key key.pk (λ k. record k { last_used_at = some now; last_used_ip = ip })))
    pure (if accepted then some key else none)

  unfoldable pub authenticate : String → (ip : Option String) → Action (Option ApiKey)
  unfolding is_marked prefix_of use_key
  authenticate raw ip = do
    found ← gets (λ w. first (has_prefix (prefix_of raw)) w.db.api_keys)
    if is_marked raw then use_key raw ip found else pure none

  -- What `revoke` does to a key that it has found in force.
  unfoldable pub revoke_key : ApiKey → (actor : Option ℕ) → Option Request → Action (Unit {0})
  unfolding record_event record_audit
  revoke_key locked actor request = do
    now ← gets (λ w. w.now)
    modify_db (save_key locked.pk (λ k. record k { revoked_at = some now }))
    record_event env api_key_revoked (some locked.owner) request (("prefix", locked.prefix) ∷ [])
    record_audit env "api_key.revoked" "api_keys.apikey" (env.pk_text locked.pk)
        (or_owner actor locked.owner) request end
        (field "revoked_at" (text (env.isoformat now)) end)

  -- the body of `revoke`, inside its transaction
  unfoldable pub revoke_found : ℕ → (actor : Option ℕ) → Option Request → Action (Unit {0})
  revoke_found pk actor request = do
    found ← gets (λ w. first (has_key_pk pk) w.db.api_keys)
    locked ← or_raise found does_not_exist
    when (is_none locked.revoked_at) (revoke_key locked actor request)

  unfoldable pub revoke : ℕ → (actor : Option ℕ) → Option Request → Action (Unit {0})
  unfolding revoke_found
  revoke pk actor request = atomic (revoke_found pk actor request)

  -- `APIKeyAuthentication.authenticate`: the header of the request, if it has one.
  unfoldable authenticate_request :
      Request → (header : Option String) → Action (Option (ℕ × ApiKey))
  unfolding authenticate
  authenticate_request request none = pure none
  authenticate_request request (some raw) =
      if not env.settings.enable_api_keys || str_eq raw "" then pure none else do
        found ← authenticate raw (get_client_ip env request)
        key ← or_raise found (api authentication_failed 401 none)
        available ← gets (λ w. owner_available w key)
        raise_if (not available) (api authentication_failed 401 none)
        pure (some (key.owner, key))
