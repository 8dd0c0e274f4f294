-- ===== src/Api/ApiKeys.antt =====
-- apps/api/views/api_keys.py with apps/api/serializers/api_keys.py: the keys of a user. The instant
-- at which a key was made is not shown.
use django_boilderplate.ApiKeys.{revoke, text_items, create}
use django_boilderplate.Models.Accounts.{open_ended}
use django_boilderplate.Notifications.{not_found}
use django_boilderplate.Common.Errors.{id_value, RestResponse}
use django_boilderplate.Common.Idempotency.{serializable, idempotent, HttpRequest, Response}
use django_boilderplate.Api.Responses.{answered, checked, success_response}
use django_boilderplate.Common.Network.{Request}
use django_boilderplate.World.{
  pure, feature_disabled, api, serializer_error, or_raise, raise_if, ◌>>◌, gets, ◌>>=◌, Action,
}
use django_boilderplate.Common.Logging.{
  end, boolean as boolean_value, list, field, text, dict, null, Fields, Value,
}
use django_boilderplate.Env.{Env}
use django_boilderplate.Models.ApiKeys.{key_is_active, ApiKey}
use django_boilderplate.Security.LoginProtection.{text_in}
use django_boilderplate.Prelude.{
  ◌==◌, ◌&&◌, ℕ, sorted_set, some, select, not, none, is_empty, first, false, String, Option, List,
  Bool,
}
pub mod Stored

pub record KeyData : Type 0 where
  pub name : String
  pub scopes : List String
  pub expires_at : Option ℕ

-- the scopes that are not available
abbrev unknown_scopes : List String → List String → List String
unknown_scopes available scopes = select (λ s. not (text_in s available)) scopes

abbrev is_owned : ℕ → ℕ → ApiKey → Bool
is_owned user pk k = k.owner == user && k.pk == pk

module _ (env : Env) where
  -- an instant, or `None`
  abbrev pub instant : Option ℕ → Value
  instant none = null
  instant (some t) = text (env.isoformat t)

  -- `APIKeySerializer` on the fields of a request
  unfoldable pub validate_key : Option KeyData → Action KeyData
  unfolding sorted_set
  validate_key parsed = do
    data_ ← checked parsed
    raise_if (not (is_empty (unknown_scopes env.settings.api_key_available_scopes data_.scopes)))
        serializer_error
    now ← gets (λ w. w.now)
    raise_if (not (open_ended now data_.expires_at)) serializer_error
    pure (record data_ { scopes = sorted_set data_.scopes })

  -- `APIKeySerializer(key).data`
  unfoldable pub key_fields : ℕ → ApiKey → Fields → Value
  key_fields now k rest = dict (
      field "id" (text (env.pk_text k.pk)) (
        field "name" (text k.name) (
          field "prefix" (text k.prefix) (
            field "scopes" (list (text_items k.scopes)) (
              field "last_used_at" (instant k.last_used_at) (
                field "last_used_ip" (id_value k.last_used_ip) (
                  field "expires_at" (instant k.expires_at) (
                    field "revoked_at" (instant k.revoked_at)
                      (field "is_active" (boolean_value (key_is_active now k)) rest)))))))))

  -- the body of `create`, without its decorator
  unfoldable pub create_key : ℕ → Option KeyData → Option Request → Action Response
  unfolding validate_key create key_fields
  create_key user parsed request = do
    raise_if (not env.settings.enable_api_keys) (api feature_disabled 404 none)
    data_ ← validate_key parsed
    made ← create env user data_.name data_.scopes data_.expires_at (some user) request
    now ← gets (λ w. w.now)
    pure (record {
      status = 201;
      payload =
          serializable
            (success_response (key_fields now made.0 (field "key" (text made.1) end)) 201).body;
      replayed = false;
    })

  -- `APIKeyViewSet.create`
  unfoldable pub create_key_post :
      ℕ → Option KeyData → Option Request → HttpRequest → Action Response
  unfolding create_key
  create_key_post user parsed request http = idempotent env (create_key user parsed request) http

  -- `APIKeyViewSet.retrieve`
  unfoldable retrieve_key : ℕ → ℕ → Action RestResponse
  unfolding key_fields success_response
  retrieve_key user pk = do
    found ← gets (λ w. first (is_owned user pk) w.db.api_keys)
    key ← or_raise found not_found
    now ← gets (λ w. w.now)
    pure (success_response (key_fields now key end) 200)

  -- `APIKeyViewSet.revoke`
  unfoldable revoke_key_post : ℕ → ℕ → Option Request → Action RestResponse
  revoke_key_post user pk request = do
    found ← gets (λ w. first (is_owned user pk) w.db.api_keys)
    key ← or_raise found not_found
    revoke env key.pk (some user) request
    pure (answered "revoked")
