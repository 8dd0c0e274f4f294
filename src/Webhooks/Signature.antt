-- ===== src/Webhooks/Signature.antt =====
-- What a receiver can check, and where a webhook is sent.
use django_boilderplate.World.{
  raise_if, Error, enter, validation_error, value_error, bind-ok, err, gets, raise_if_ok, ok-atomic,
  Action, or_raise_ok, Result, value_or, ok, World,
}
use django_boilderplate.World.Monad.{◌>>◌, ◌>>=◌}
use django_boilderplate.Env.{unresolved, bad_name, addresses, Resolved, Url, Env}
use Prim.Native.String.{◌++◌ as cat}
use django_boilderplate.Webhooks.Service.{
  lacks_name, check_name, check_credentials, post_event, check_host, validate_parts, require_global,
  outcome_of, serialize_event, add_endpoint, signed_text, port_or, is_allowed_scheme,
  signature_headers, validate_url, create_endpoint, attempt,
}
use django_boilderplate.Common.Crypto.{
  decrypt_value, keyed_hash, text_or, key_material, encrypt_value, generate_token, plain,
  IsConfigured,
}
use django_boilderplate.Models.Webhooks.{WebhookEvent, WebhookEndpoint}
use django_boilderplate.Prelude.{
  Bool, refl, arith, ◌∙◌, sym, suc, sorted_set, ap, ◌≡◌, ◌∷◌, ℕ, true, str_eq, some, not, none,
  if◌then◌else◌, false, exists, [], String, Option, List,
}
use django_boilderplate.Webhooks.{responded}

-- a header by its name
unfoldable pub header : String → List (String × String) → Option String
header name [] = none
header name ((n, value) ∷ rest) = if str_eq n name then some value else header name rest

-- What Fernet documents: a text that was encrypted with a key is decrypted with it.
abbrev FernetInverts : Env → Type 0
FernetInverts env =
    (key : String) (n : ℕ) (value : String)
    → env.fernet_decrypt key (env.fernet_encrypt key n value) ≡ some value

module _ (env : Env) (configured : IsConfigured env) (inverts : FernetInverts env) where
  -- The stored text of a new endpoint holds the secret that is handed out.
  plain-add_endpoint :
      (owner : Option ℕ) (name url : String) (event_types : List String) (w : World)
      (endpoint : WebhookEndpoint) (secret : String)
      → (add_endpoint env owner name url event_types w).0 ≡ ok (endpoint, secret)
      → plain env endpoint.encrypted_secret "webhook-secret" ≡ some secret
  unfolding plain add_endpoint generate_token encrypt_value key_material
  plain-add_endpoint owner name url event_types w endpoint secret done =
      let key = env.sha256 (
        cat "webhook-secret"
          (cat ":" (text_or env.settings.totp_encryption_key env.settings.secret_key))) in
      let new : WebhookEndpoint = record {
        pk = w.next_pk;
        owner = owner;
        name = name;
        url = url;
        event_types = sorted_set event_types;
        secret_hash = keyed_hash env (env.random_token w.draws) "webhook-secret";
        encrypted_secret = env.fernet_encrypt key (suc w.draws) (env.random_token w.draws);
        is_active = true;
      } in
      let made : (add_endpoint env owner name url event_types w).0
          ≡ ok (new, env.random_token w.draws) =
        simp configured in
      let same = ap (value_or (endpoint, secret)) (sym made ∙ done) in
      ap (env.fernet_decrypt key) (sym (ap (λ p. p.0.encrypted_secret) same))
      ∙ inverts key (suc w.draws) (env.random_token w.draws)
      ∙ ap (λ p. some p.1) same

  abbrev signed : WebhookEndpoint → WebhookEvent → String → String → World → List (String × String)
  signed endpoint event secret body later =
      ("Content-Type", "application/json")
      ∷ ("User-Agent", cat env.settings.app_name "-Webhooks/1.0")
      ∷ ("X-Webhook-ID", env.pk_text event.pk)
      ∷ ("X-Webhook-Timestamp", env.unix_time later.now)
      ∷ ("X-Webhook-Signature", cat "v1=" (env.hmac_sha256 secret (signed_text env later.now body)))
      ∷ []

  signature_headers-plain :
      (endpoint : WebhookEndpoint) (event : WebhookEvent) (secret body : String) (later : World)
      → plain env endpoint.encrypted_secret "webhook-secret" ≡ some secret
      → (signature_headers env endpoint event body later).0
        ≡ ok (signed endpoint event secret body later)
  unfolding signature_headers decrypt_value key_material plain
  signature_headers-plain endpoint event secret body later h = simp (configured, h)

-- Whatever `create_endpoint` answers: if it returns an endpoint and a secret, then the headers of
-- any event, signed for the endpoint at any later time, can be made, and hold the time and the
-- digest under that secret of the time, a dot and the body.
pub signature_headers-create_endpoint :
    (env : Env) (owner : Option ℕ) (name url : String) (event_types : List String) (w : World)
    (endpoint : WebhookEndpoint) (secret : String) (event : WebhookEvent) (body : String)
    (later : World)
    → IsConfigured env
    → FernetInverts env
    → (create_endpoint env owner name url event_types w).0 ≡ ok (endpoint, secret)
    → (headers : List (String × String)) × ((signature_headers env endpoint event body later).0
        ≡ ok headers)
      × (header "X-Webhook-Timestamp" headers ≡ some (env.unix_time later.now))
      × (header "X-Webhook-Signature" headers
          ≡ some (cat "v1=" (env.hmac_sha256 secret (signed_text env later.now body))))
signature_headers-create_endpoint env owner name url event_types w endpoint secret event body later
      configured inverts done =
    let rest = add_endpoint env owner name url event_types in
    let ran =
      ok-atomic (validate_url env url >> rest) w (endpoint, secret)
        (unfold create_endpoint in done) in
    let (_, _, added) =
      bind-ok (λ _. rest) (endpoint, secret) (validate_url env url) (enter w) ran in
    let holds =
      plain-add_endpoint env configured inverts owner name url event_types
        (validate_url env url (enter w)).1 endpoint secret added in
    (
      signed env configured inverts endpoint event secret body later,
      signature_headers-plain env configured inverts endpoint event secret body later holds,
      unfold header in refl,
      unfold header in refl,
    )

-- What `validate_url` has checked when it returns.
abbrev pub Checked : Env → String → ℕ → Type 0
Checked env address now =
    (url : Url) × (host : String) × (ips : List String) × (env.urlparse address ≡ some url)
    × (url.hostname ≡ some host)
    × (is_allowed_scheme env url.scheme ≡ true)
    × (env.getaddrinfo host (port_or url.port) now ≡ addresses ips)
    × (exists (λ ip. not (env.is_global ip)) ips ≡ false)

raise_if_returns : (c : Bool) (e : Error) (w : World) → (raise_if c e w).0 ≡ ok tt → c ≡ false
raise_if_returns true e w h = absurd (ground (arith, h))
raise_if_returns false e w h = refl

module _ (env : Env) where
  outcome_of-responded :
      (r : Result (Option (ℕ × String))) (code : ℕ) (answer : String)
      → outcome_of env r ≡ responded code answer
      → r ≡ ok (some (code, answer))
  outcome_of-responded (ok (some (c, a))) code answer h = ground (arith, h)
  outcome_of-responded (ok none) code answer h = absurd (ground (arith, h))
  outcome_of-responded (err validation_error) code answer h = absurd (ground (arith, h))
  outcome_of-responded (err _) code answer h = absurd (ground (arith, h))

  require_global_ok :
      (r : Resolved) (w : World)
      → (require_global env r w).0 ≡ ok tt
      → (ips : List String) × (r ≡ addresses ips)
        × (exists (λ ip. not (env.is_global ip)) ips ≡ false)
  require_global_ok (addresses ips) w h =
      (ips, refl, raise_if_returns (exists (λ ip. not (env.is_global ip)) ips) validation_error w h)
  require_global_ok unresolved w h = absurd (ground (arith, h))
  require_global_ok bad_name w h = absurd (ground (arith, h))

  validate_url-Checked :
      (address : String) (w : World)
      → (validate_url env address w).0 ≡ ok tt
      → Checked env address w.now
  unfolding validate_url
  validate_url-Checked address w h =
      let (url, parsed, fine) =
        or_raise_ok (validate_parts env) tt (env.urlparse address) value_error w h in
      let (scheme, fine1) =
        raise_if_ok (check_credentials env url) w tt (not (is_allowed_scheme env url.scheme))
          validation_error (unfold validate_parts in fine) in
      let (_, fine2) =
        raise_if_ok (check_name env url) w tt (lacks_name env url) validation_error fine1 in
      let (host, named, fine3) =
        or_raise_ok (check_host env url) tt url.hostname validation_error w fine2 in
      let (_, fine4) =
        raise_if_ok (λ w. require_global env (env.getaddrinfo host (port_or url.port) w.now) w) w tt
          url.bad_port value_error fine3 in
      let (ips, found, global) =
        require_global_ok (env.getaddrinfo host (port_or url.port) w.now) w fine4 in
      (url, host, ips, parsed, named, ground (arith, scheme), found, global)

-- A response to an attempt was received only from an address with an allowed scheme whose name
-- resolved, at the time of the attempt, to public addresses alone.
pub attempt-validate_url :
    (env : Env) (endpoint : WebhookEndpoint) (event : WebhookEvent) (w : World) (code : ℕ)
    (answer : String)
    → attempt env endpoint event w ≡ responded code answer
    → Checked env endpoint.url w.now
attempt-validate_url env endpoint event w code answer sent =
    let body = serialize_event env event in
    let rest : Action (Option (ℕ × String)) =
      signature_headers env endpoint event body >>= λ headers.
      gets (λ w. env.post endpoint.url headers body w.now) in
    let responded_ =
      outcome_of-responded env (post_event env endpoint event w).0 code answer
        (unfold attempt in sent) in
    let (_, valid, _) =
      bind-ok (λ _. rest) (some (code, answer)) (validate_url env endpoint.url) w
        (unfold post_event in responded_) in
    validate_url-Checked env endpoint.url w valid
