-- ===== src/Common/Idempotency.antt =====
-- common/idempotency.py: the decorator of the views whose requests must not be carried out twice.
use django_boilderplate.Common.Crypto.{keyed_hash}
use django_boilderplate.Env.{Env}
use django_boilderplate.Prelude.{
  false, ◌∷◌, ◌==◌, ◌+◌, ◌++◌, ◌&&◌, ℕ, update_where, true, text_length, str_eq, some, not, none,
  ltb, if◌then◌else◌, first, exists, [], String, Option, Bool,
}
use Prim.Native.String.{◌++◌ as cat}
use django_boilderplate.Common.Logging.{Value, null}
use django_boilderplate.Models.Core.{IdempotencyRecord}
use django_boilderplate.World.{
  modify_db, atomic, fresh_pk, runtime_error, or_raise, gets, raise_if, raise, ◌>>=◌, ◌>>◌, pure,
  Action, Db, Error, api, conflict, authentication_required, invalid_request,
}
pub mod Replay
pub mod Requests

-- What the decorator reads of a request.
pub record HttpRequest : Type 0 where
  pub user : Option ℕ
  pub method : String
  pub path : String
  pub body : String
  pub idempotency_key : String

-- The data of a response, which may be no JSON.
pub data Payload : Type 0 where
  serializable : Value → Payload
  unserializable : Payload

pub record Response : Type 0 where
  pub status : ℕ
  pub payload : Payload
  pub replayed : Bool

abbrev pub conflict_error : Error
conflict_error = api conflict 409 none

-- 24 hours, the default of `ttl`
abbrev pub day : ℕ
day = 86400000000

abbrev pub has_idempotency_key : ℕ → String → IdempotencyRecord → Bool
has_idempotency_key user key_hash r =
    elim r.user [ none ↦ false | some u ↦ u == user ] && str_eq r.key_hash key_hash

abbrev pub has_record_pk : ℕ → IdempotencyRecord → Bool
has_record_pk pk r = r.pk == pk

-- `record.response_status, record.response_body = ...; record.save(...)`
abbrev pub answer_with : ℕ → Value → IdempotencyRecord → IdempotencyRecord
answer_with status body r = record r { response_status = some status; response_body = body }

abbrev pub save_record : ℕ → (IdempotencyRecord → IdempotencyRecord) → Db → Db
save_record pk f db = record db { idempotency = update_where (has_record_pk pk) f db.idempotency }

-- `json.dumps(response.data)`
abbrev pub dumps : Payload → Action Value
dumps (serializable v) = pure v
dumps unserializable = raise runtime_error

-- The end of a first request: its response into its row.
unfoldable pub store_response : ℕ → Response → Action Response
store_response pk response = do
  body ← dumps response.payload
  modify_db (save_record pk (answer_with response.status body))
  pure response

-- What an earlier request with the key answers.
unfoldable pub replay : String → IdempotencyRecord → Action Response
replay request_hash r = do
  raise_if (not (str_eq r.request_hash request_hash)) conflict_error
  status ← or_raise r.response_status conflict_error
  pure (record { status = status; payload = serializable r.response_body; replayed = true })

module _ (env : Env) where
  unfoldable pub request_hash : HttpRequest → String
  request_hash request = env.sha256 (cat request.method (cat request.path request.body))

  unfoldable pub idempotency_hash : HttpRequest → String
  unfolding keyed_hash
  idempotency_hash request = keyed_hash env request.idempotency_key "idempotency"

  -- the row of a request that has begun
  abbrev pub begun : HttpRequest → ℕ → ℕ → ℕ → IdempotencyRecord
  begun request user pk now = record {
    pk = pk;
    user = some user;
    key_hash = idempotency_hash request;
    request_method = request.method;
    request_path = request.path;
    request_hash = request_hash request;
    response_status = none;
    response_body = null;
    expires_at = now + day;
  }

  -- The first request with a key: its row, the method, and the response in the row.
  unfoldable pub carry_out : Action Response → HttpRequest → ℕ → Action Response
  unfolding request_hash idempotency_hash store_response
  carry_out method request user = do
    taken ←
        gets (λ w. exists (has_idempotency_key user (idempotency_hash request)) w.db.idempotency)
    raise_if taken conflict_error
    pk ← fresh_pk
    now ← gets (λ w. w.now)
    modify_db (λ db. record db { idempotency = db.idempotency ++ begun request user pk now ∷ [] })
    response ← method
    store_response pk response

  -- the choice by the row that the query finds
  unfoldable pub answer_once :
      Action Response → HttpRequest → ℕ → Option IdempotencyRecord → Action Response
  unfolding carry_out replay
  answer_once method request user none = carry_out method request user
  answer_once method request user (some r) = replay (request_hash request) r

  -- the block of the transaction
  unfoldable pub with_record : Action Response → HttpRequest → ℕ → Action Response
  unfolding answer_once
  with_record method request user = do
    found ← gets (λ w. first (has_idempotency_key user (idempotency_hash request)) w.db.idempotency)
    answer_once method request user found

  unfoldable pub idempotent : Action Response → HttpRequest → Action Response
  unfolding with_record
  idempotent method request = if str_eq request.idempotency_key "" then method else do
    user ← or_raise request.user (api authentication_required 401 none)
    raise_if (ltb 255 (text_length request.idempotency_key)) (api invalid_request 400 none)
    atomic (with_record method request user)
