-- ===== src/Webhooks/Service.antt =====
-- `WebhookService` of apps/webhooks/services.py, and the attempt of apps/webhooks/tasks.py that
-- uses it.
use django_boilderplate.Models.Webhooks.{pending, WebhookEvent, WebhookDelivery, WebhookEndpoint}
use django_boilderplate.Webhooks.{Outcome, responded, refused, crashed}
use django_boilderplate.Common.Logging.{end, text, field, dict, Value}
use django_boilderplate.Common.Crypto.{keyed_hash, encrypt_value, decrypt_value, generate_token}
use django_boilderplate.World.{
  err, ok, dispatch_webhooks, on_commit, skip_pks, pure, when, modify_db, value_error, raise, gets,
  fresh_pk, or_raise, validation_error, ◌>>=◌, ◌>>◌, World, atomic, raise_if, Result, Action,
}
use django_boilderplate.Security.LoginProtection.{text_in}
use django_boilderplate.Prelude.{
  ltb, select, ◌∷◌, ◌||◌, ◌==◌, ◌++◌, ◌&&◌, ℕ, true, suc, str_eq, sorted_set, some, not, none,
  length, if◌then◌else◌, false, exists, [], String, Option, List, Bool,
}
use Prim.Native.String.{◌++◌ as cat}
use django_boilderplate.Env.{Url, Resolved, Env, addresses, unresolved, bad_name}

-- the truth of a text that may be missing
abbrev is_filled : Option String → Bool
is_filled none = false
is_filled (some s) = not (str_eq s "")

-- `parsed.port or 443`
abbrev pub port_or : Option ℕ → ℕ
port_or none = 443
port_or (some port) = if port == 0 then 443 else port

abbrev pub is_subscribed : String → WebhookEndpoint → Bool
is_subscribed event_type e = e.is_active && text_in event_type e.event_types

-- the deliveries of an event, with successive keys
unfoldable pub new_deliveries : ℕ → (event : ℕ) → List WebhookEndpoint → List WebhookDelivery
new_deliveries pk event [] = []
new_deliveries pk event (e ∷ es) =
    record {
      pk = pk;
      endpoint = e.pk;
      event = event;
      status = pending;
      attempt_count = 0;
      response_code = none;
      response_body = "";
      last_attempt_at = none;
      next_retry_at = none;
    }
    ∷ new_deliveries (suc pk) event es

module _ (env : Env) where
  abbrev pub is_allowed_scheme : String → Bool
  is_allowed_scheme scheme =
      str_eq scheme "https"
      || (not (str_eq env.settings.app_env "production") && str_eq scheme "http")

  -- the loop over the addresses
  abbrev pub require_global : Resolved → Action (Unit {0})
  require_global (addresses as_) =
      raise_if (exists (λ a. not (env.is_global a)) as_) validation_error
  require_global unresolved = raise validation_error
  require_global bad_name = raise value_error

  -- the look-up of the name
  abbrev pub check_host : Url → String → Action (Unit {0})
  check_host url hostname = do
    raise_if url.bad_port value_error
    now ← gets (λ w. w.now)
    require_global (env.getaddrinfo hostname (port_or url.port) now)

  -- the rest of the checks on the parts of the address
  abbrev pub check_name : Url → Action (Unit {0})
  check_name url = do hostname ← or_raise url.hostname validation_error; check_host url hostname

  abbrev pub lacks_name : Url → Bool
  lacks_name url =
      not (is_filled url.hostname) || (is_filled url.username || is_filled url.password)

  abbrev pub check_credentials : Url → Action (Unit {0})
  check_credentials url = do raise_if (lacks_name url) validation_error; check_name url

  unfoldable pub validate_parts : Url → Action (Unit {0})
  validate_parts url = do
    raise_if (not (is_allowed_scheme url.scheme)) validation_error
    check_credentials url

  unfoldable pub validate_url : String → Action (Unit {0})
  unfolding validate_parts
  validate_url url = do parsed ← or_raise (env.urlparse url) value_error; validate_parts parsed

  -- the rest of `create_endpoint`, once the address is valid
  unfoldable pub add_endpoint :
      (owner : Option ℕ)
      → (name : String) → (url : String) → (event_types : List String)
      → Action (WebhookEndpoint × String)
  unfolding generate_token encrypt_value keyed_hash sorted_set
  add_endpoint owner name url event_types = do
    secret ← generate_token env
    let hash = keyed_hash env secret "webhook-secret"
    encrypted ← encrypt_value env secret "webhook-secret"
    pk ← fresh_pk
    let endpoint : WebhookEndpoint = record {
      pk = pk;
      owner = owner;
      name = name;
      url = url;
      event_types = sorted_set event_types;
      secret_hash = hash;
      encrypted_secret = encrypted;
      is_active = true;
    }
    modify_db (λ db. record db { endpoints = db.endpoints ++ endpoint ∷ [] })
    pure (endpoint, secret)

  unfoldable pub create_endpoint :
      (owner : Option ℕ)
      → (name : String) → (url : String) → (event_types : List String)
      → Action (WebhookEndpoint × String)
  unfolding validate_url add_endpoint
  create_endpoint owner name url event_types =
      atomic (validate_url url >> add_endpoint owner name url event_types)

  -- The row of the event and the rows of its deliveries.
  unfoldable pub emit_rows : String → Value → List WebhookEndpoint → Action WebhookEvent
  unfolding new_deliveries
  emit_rows event_type payload endpoints = do
    pk ← fresh_pk
    now ← gets (λ w. w.now)
    let event : WebhookEvent = record {
      pk = pk;
      event_type = event_type;
      payload = payload;
      created_at = now;
    }
    modify_db (λ db. record db { webhook_events = db.webhook_events ++ event ∷ [] })
    first_pk ← gets (λ w. w.next_pk)
    modify_db
        (λ db. record db { deliveries = db.deliveries ++ new_deliveries first_pk pk endpoints })
    skip_pks (length endpoints)
    pure event

  unfoldable pub emit : (event_type : String) → (payload : Value) → Action WebhookEvent
  unfolding emit_rows
  emit event_type payload = atomic do
    endpoints ← gets (λ w. select (is_subscribed event_type) w.db.endpoints)
    event ← emit_rows event_type payload endpoints
    when (env.settings.enable_webhooks && ltb 0 (length endpoints)) (on_commit dispatch_webhooks)
    pure event

  unfoldable pub serialize_event : WebhookEvent → String
  serialize_event event = env.dumps_sorted (
      dict (
        field "id" (text (env.pk_text event.pk)) (
          field "type" (text event.event_type) (
            field "created_at" (text (env.isoformat event.created_at))
              (field "data" event.payload end)))))

  -- what the signature covers
  abbrev pub signed_text : ℕ → String → String
  signed_text now body = cat (env.unix_time now) (cat "." body)

  unfoldable pub signature_headers :
      WebhookEndpoint → WebhookEvent → (body : String) → Action (List (String × String))
  unfolding decrypt_value
  signature_headers endpoint event body = do
    secret ← decrypt_value env endpoint.encrypted_secret "webhook-secret"
    now ← gets (λ w. w.now)
    let signature = env.hmac_sha256 secret (signed_text now body)
    pure (
        ("Content-Type", "application/json")
        ∷ ("User-Agent", cat env.settings.app_name "-Webhooks/1.0")
        ∷ ("X-Webhook-ID", env.pk_text event.pk)
        ∷ ("X-Webhook-Timestamp", env.unix_time now)
        ∷ ("X-Webhook-Signature", cat "v1=" signature)
        ∷ [])

  -- the `try` block of `deliver_webhook`, up to the response
  unfoldable pub post_event : WebhookEndpoint → WebhookEvent → Action (Option (ℕ × String))
  unfolding validate_url serialize_event signature_headers
  post_event endpoint event = do
    validate_url endpoint.url
    let body = serialize_event event
    headers ← signature_headers endpoint event body
    gets (λ w. env.post endpoint.url headers body w.now)

  -- what the `except` clause makes of it
  abbrev pub outcome_of : Result (Option (ℕ × String)) → Outcome
  outcome_of (ok (some (code, body))) = responded code body
  outcome_of (ok none) = refused
  outcome_of (err validation_error) = refused
  outcome_of (err _) = crashed

  unfoldable pub attempt : WebhookEndpoint → WebhookEvent → World → Outcome
  unfolding post_event
  attempt endpoint event w = outcome_of (post_event endpoint event w).0
