-- ===== src/Api/ApiKeys/Stored.antt =====
-- The response to the creation of an API key, kept for a repeated request.
-- `body["data"]["key"]`
use django_boilderplate.Common.Idempotency.Replay.{beginning, carry_out-unasked}
use django_boilderplate.ApiKeys.{raw_key, key_hash, has_prefix, create}
use django_boilderplate.ApiKeys.RoundTrip.{create-result, keys-create, new_key}
use django_boilderplate.World.{db-atomic_ok, raise_if, continue, ◌>>◌, ◌>>=◌}
use django_boilderplate.Common.Idempotency.Replay.{asked}
use django_boilderplate.Common.Idempotency.Requests.{
  with_record-fresh, idempotent-keyed, found-idempotent, HasKey,
}
use django_boilderplate.World.{
  enter, pure, ◌>>◌, ok-atomic, modify_db, Keeps-raise_if, bind-ok, Keeps-bind, feature_disabled,
  err, Db, api, Keeps, raise_if_ok, Result, ◌>>=◌,
}
use django_boilderplate.Api.Responses.{success_response}
use django_boilderplate.Models.ApiKeys.{ApiKey}
use django_boilderplate.Audit.{record_audit}
use django_boilderplate.Common.Idempotency.{
  dumps, answer_with, save_record, with_record, idempotent, store_response, unserializable,
  HttpRequest, Payload, serializable, Response,
}
use django_boilderplate.Security.Events.{record_event}
use django_boilderplate.World.{Action, ok, World}
use django_boilderplate.ApiKeys.{create}
use django_boilderplate.Common.Network.{Request}
use django_boilderplate.Common.Errors.Codes.{fields_in}
use django_boilderplate.Api.ApiKeys.{create_key_post, key_fields, validate_key, create_key, KeyData}
use django_boilderplate.Common.Values.{get_field}
use django_boilderplate.Env.{Env}
use django_boilderplate.Models.Core.{IdempotencyRecord}
use django_boilderplate.Common.Logging.{null, end, field, text, Value}
use django_boilderplate.Prelude.{
  ◌==◌, ◌+◌, ◌&&◌, true, str_eq, is_some-first, inr, inl, exists-append, eq_refl, Bool-cases, Bool,
  ==-refl, ◌∷◌, ◌∙◌, subst, exists, [], sym, refl, first, ap, List, not, false, arith, ◌≡◌, ℕ, some,
  none, String, Option,
}

unfoldable pub key_text : Value → Option String
key_text body = elim (get_field "key" (fields_in (get_field "data" (fields_in (some body))))) [
  | some (text raw) ↦ some raw
  | _ ↦ none
]

abbrev payload_of : Result Response → Payload
payload_of (ok r) = r.payload
payload_of (err e) = unserializable

abbrev pub value_of : Payload → Value
value_of (serializable v) = v
value_of unserializable = null

-- the raw text of the next key, from the next two draws
abbrev pub next_raw : Env → World → String
next_raw env w = raw_key env (env.random_hex w.draws) (env.random_token (w.draws + 1))

-- A key of the user with the digest of a raw text.
abbrev pub is_key_for : Env → (user : ℕ) → (raw : String) → ApiKey → Bool
is_key_for env user raw k = k.owner == user && str_eq k.key_hash (key_hash env raw)

abbrev keys_of : World → List ApiKey
keys_of w = w.db.api_keys

module _ (env : Env) (user : ℕ) (parsed : Option KeyData) (request : Option Request) where
  validate_key-kept : (w : World) → (validate_key env parsed w).1 ≡ w
  unfolding validate_key
  validate_key-kept w = ground arith

  create-kept :
      (d : KeyData) (w : World)
      → (create env user d.name d.scopes d.expires_at (some user) request w).1.db.idempotency
        ≡ w.db.idempotency
  unfolding create record_event record_audit
  create-kept d w = ground arith

  create-unused :
      (d : KeyData) (w : World) (made : ApiKey × String)
      → (create env user d.name d.scopes d.expires_at (some user) request w).0 ≡ ok made
      → exists (has_prefix (env.random_hex w.draws)) w.db.api_keys ≡ false
  unfolding create
  create-unused d w made done =
      elim (Bool-cases (exists (has_prefix (env.random_hex w.draws)) w.db.api_keys)) [
        | inl e ↦ absurd (ground (arith, done, e))
        | inr e ↦ e
      ]

  abbrev pub shown_body : ℕ → ApiKey × String → Value
  shown_body now made =
      (success_response (key_fields env now made.0 (field "key" (text made.1) end)) 201).body

  -- the end of the view, and what it does with the fields of the request
  abbrev answer_key : ApiKey × String → Action Response
  answer_key made w = (
    ok (record { status = 201; payload = serializable (shown_body w.now made); replayed = false }),
    w,
  )

  abbrev make : KeyData → Action Response
  make d = create env user d.name d.scopes d.expires_at (some user) request >>= answer_key

  make_lem :
      (d : KeyData) (w : World) (response : Response)
      → (make d w).0 ≡ ok response
      → (key_text (value_of response.payload) ≡ some (next_raw env w))
        × (exists (is_key_for env user (next_raw env w)) (make d w).1.db.api_keys ≡ true)
  unfolding key_text key_fields success_response
  make_lem d w response done =
      let creation = create env user d.name d.scopes d.expires_at (some user) request in
      let (made, stored, shown) = bind-ok answer_key response creation w done in
      let unused = create-unused d w made stored in
      let new_ = new_key env user d.name d.scopes d.expires_at (some user) request w in
      let returned =
        create-result env user d.name d.scopes d.expires_at (some user) request w unused in
      let later = (creation w).1.now in
      let whole : (make d w) ≡ answer_key (new_, next_raw env w) (creation w).1 =
        ap (λ r. continue r answer_key (creation w).1) returned in
      (
        ap (λ p. key_text (value_of p)) (sym (ap payload_of done) ∙ ap (λ x. payload_of x.0) whole),
        ap (λ x. exists (is_key_for env user (next_raw env w)) x.1.db.api_keys) whole
            ∙ ap (exists (is_key_for env user (next_raw env w)))
                (keys-create env user d.name d.scopes d.expires_at (some user) request w unused)
            ∙ exists-append (is_key_for env user (next_raw env w)) w.db.api_keys (new_ ∷ [])
            ∙ ground (arith, ==-refl user, eq_refl (key_hash env (next_raw env w))),
      )

  create_key_lem :
      (w : World) (response : Response)
      → (create_key env user parsed request w).0 ≡ ok response
      → (key_text (value_of response.payload) ≡ some (next_raw env w))
        × (exists
              (is_key_for env user (next_raw env w))
              (create_key env user parsed request w).1.db.api_keys
            ≡ true)
  unfolding create_key
  create_key_lem w response done =
      let all = validate_key env parsed >>= make in
      let (on, checked_) =
        raise_if_ok all w response (not env.settings.enable_api_keys)
          (api feature_disabled 404 none) done in
      let (d, valid, made_) = bind-ok make response (validate_key env parsed) w checked_ in
      let same = validate_key-kept w in
      let whole : create_key env user parsed request w ≡ make d w =
        ap (λ b. (raise_if b (api feature_disabled 404 none) >> all) w) on
        ∙ ap (λ r. continue r make (validate_key env parsed w).1) valid
        ∙ ap (make d) same in
      let (shown, kept) = make_lem d w response (ap (λ v. (make d v).0) (sym same) ∙ made_) in
      (shown, ap (λ x. exists (is_key_for env user (next_raw env w)) x.1.db.api_keys) whole ∙ kept)

  idempotency-create_key : Keeps (λ db. db.idempotency) (create_key env user parsed request)
  unfolding create_key
  idempotency-create_key =
      let part : Db → List IdempotencyRecord = λ db. db.idempotency in
      Keeps-bind part _ _ (Keeps-raise_if part (not env.settings.enable_api_keys) _) λ _.
        Keeps-bind part (validate_key env parsed) make
          (λ w. ap (λ v. v.db.idempotency) (validate_key-kept w))
          λ d. Keeps-bind part _ answer_key (create-kept d) (λ made w. refl)

abbrev response_or : Response → Result Response → Response
response_or r (ok r') = r'
response_or r (err e) = r

store_response-same :
    (pk : ℕ) (before_ response : Response) (w : World)
    → (store_response pk before_ w).0 ≡ ok response
    → before_ ≡ response
unfolding store_response
store_response-same pk before_ response w done =
    let rest : Value → Action Response =
      λ body. modify_db (save_record pk (answer_with before_.status body)) >> pure before_ in
    let (v, _, same) = bind-ok rest response (dumps before_.payload) w done in
    ap (response_or before_) same

keys-store_response :
    (pk : ℕ) (response : Response) (w : World)
    → (store_response pk response w).1.db.api_keys ≡ w.db.api_keys
unfolding store_response
keys-store_response pk response w = ground arith

module _ (env : Env) (method : Action Response) (http : HttpRequest) (user : ℕ)
    (quiet : (w : World) → (method w).1.db.idempotency ≡ w.db.idempotency) where
  -- A first request that returns a response has it from the method, and leaves the keys that the
  -- method left.
  idempotent-ran :
      (response : Response) (w : World)
      → HasKey http user
      → first (asked env http user) w.db.idempotency ≡ none
      → (idempotent env method http w).0 ≡ ok response
      → let v = beginning env http user method quiet (enter w) in
        ((method v).0 ≡ ok response)
        × ((idempotent env method http w).1.db.api_keys ≡ (method v).1.db.api_keys)
  idempotent-ran response w keyed fresh done =
      let v = beginning env http user method quiet (enter w) in
      let body = with_record env method http user in
      let same = idempotent-keyed env http user keyed method w in
      let ran = ok-atomic body w response (sym (ap (λ x. x.0) same) ∙ done) in
      let first_time = with_record-fresh env http user keyed method (enter w) fresh in
      let unasked : exists (asked env http user) w.db.idempotency ≡ false =
        ground (arith, is_some-first (asked env http user) w.db.idempotency, fresh) in
      let carried = carry_out-unasked env http user method quiet (enter w) unasked in
      let whole = first_time ∙ carried in
      let (answer_, answered, kept) =
        bind-ok (store_response w.next_pk) response method v (sym (ap (λ x. x.0) whole) ∙ ran) in
      (
        subst (λ r. (method v).0 ≡ ok r)
            (store_response-same w.next_pk answer_ response (method v).1 kept) answered,
        ap (λ x. x.1.db.api_keys) same
            ∙ ap (λ db. db.api_keys) (db-atomic_ok body w response ran)
            ∙ ap (λ x. x.1.db.api_keys) whole
            ∙ ap (λ x. (continue x (store_response w.next_pk) (method v).1).1.db.api_keys) answered
            ∙ keys-store_response w.next_pk answer_ (method v).1,
      )

-- Where a user's first request with an idempotency key creates an API key: the row of the request holds
-- the raw text that is made from the next two draws, and the table of the keys a key of the user
-- with the digest of that text.
pub create_key_post-stored :
    (env : Env) (user : ℕ) (parsed : Option KeyData) (request : Option Request) (http : HttpRequest)
    (response : Response) (w : World)
    → HasKey http user
    → first (asked env http user) w.db.idempotency ≡ none
    → (create_key_post env user parsed request http w).0 ≡ ok response
    → let w' = (create_key_post env user parsed request http w).1 in
      (r : IdempotencyRecord) × (first (asked env http user) w'.db.idempotency ≡ some r)
      × (key_text r.response_body ≡ some (next_raw env w))
      × (key_text (value_of response.payload) ≡ some (next_raw env w))
      × (exists (is_key_for env user (next_raw env w)) w'.db.api_keys ≡ true)
unfolding create_key_post
create_key_post-stored env user parsed request http response w keyed fresh done =
    let method = create_key env user parsed request in
    let quiet = idempotency-create_key env user parsed request in
    let (r, found, holds) =
      found-idempotent env http user keyed method response w quiet fresh done in
    let (ran, keys) = idempotent-ran env method http user quiet response w keyed fresh done in
    let (shown, kept) =
      create_key_lem env user parsed request (beginning env http user method quiet (enter w))
        response ran in
    (
      r,
      found,
      ap (λ p. key_text (value_of p)) holds.2 ∙ shown,
      shown,
      ap (exists (is_key_for env user (next_raw env w))) keys ∙ kept,
    )
