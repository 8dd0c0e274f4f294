-- ===== src/Common/Idempotency/Replay.antt =====
-- A request that is repeated with its key is answered from its row.
use django_boilderplate.Common.Idempotency.{
  unserializable, begun, replay, answer_once, carry_out, idempotency_hash, save_record, with_record,
  has_idempotency_key, HttpRequest, dumps, has_record_pk, Payload, store_response, answer_with,
  serializable, Response, request_hash,
}
use django_boilderplate.World.Monad.{◌>>◌}
use django_boilderplate.Env.{Env}
use django_boilderplate.World.{pure, continue, Action, modify_db, bind-ok, ok, World}
use django_boilderplate.Common.Logging.{Value}
use django_boilderplate.Models.Core.{IdempotencyRecord}
use django_boilderplate.Prelude.{
  ◌∷◌, ◌++◌, suc, refl, first-append_none, eq_refl, [], ◌∙◌, update_where, true, sym, none,
  is_some-first, first-update_where, false, exists, arith, ap, ==-refl, ◌≡◌, ℕ, some, first, String,
  Bool,
}

-- A row that holds a response of a request with this digest.
abbrev pub Holds : String → Response → IdempotencyRecord → Type 0
Holds hash response r =
    (r.request_hash ≡ hash)
    × (r.response_status ≡ some response.status)
    × (serializable r.response_body ≡ response.payload)

dumps-ok : (p : Payload) (v : Value) (w : World) → (dumps p w).0 ≡ ok v → p ≡ serializable v
dumps-ok (serializable u) v w h = ground (arith, h)
dumps-ok unserializable v w h = absurd (ground (arith, h))

-- Storing an answer that returns: the answer is JSON, and the row that a query found holds it.
module _ (test : IdempotencyRecord → Bool)
    (keeps : (status : ℕ) (body : Value) (r : IdempotencyRecord)
      → test (answer_with status body r) ≡ test r)
    (hash : String) (new : IdempotencyRecord) (answer response : Response) (w : World)
    (done : (store_response new.pk answer w).0 ≡ ok response) where
  store_response_ok :
      (v : Value) × (answer.payload ≡ serializable v)
      × (answer ≡ response)
      × ((store_response new.pk answer w).1.db.idempotency
          ≡ update_where (has_record_pk new.pk) (answer_with answer.status v) w.db.idempotency)
  unfolding store_response
  store_response_ok =
      let (v, dumped, rest) =
        bind-ok (λ v. modify_db (save_record new.pk (answer_with answer.status v)) >> pure answer)
          response (dumps answer.payload) w done in
      let is_json = dumps-ok answer.payload v w dumped in (v, is_json, cc, ground (arith, is_json))

  store_response-rows :
      first test w.db.idempotency ≡ some new
      → new.request_hash ≡ hash
      → (r : IdempotencyRecord) × (first test (store_response new.pk answer w).1.db.idempotency
          ≡ some r)
        × Holds hash response r
  store_response-rows found same =
      let (v, is_json, is_response, rows) = store_response_ok in
      (
        answer_with answer.status v new,
        ap (first test) rows
            ∙ first-update_where test (has_record_pk new.pk) (answer_with answer.status v)
                w.db.idempotency (keeps answer.status v)
            ∙ simp found (ground (arith, ==-refl new.pk)),
        (
          same,
          ap (λ (x : Response). some x.status) is_response,
          sym is_json ∙ ap (λ (x : Response). x.payload) is_response,
        ),
      )

module _ (env : Env) (request : HttpRequest) (user : ℕ) where
  abbrev pub asked : IdempotencyRecord → Bool
  asked = has_idempotency_key user (idempotency_hash env request)

  module _ (method : Action Response)
      (quiet : (w : World) → (method w).1.db.idempotency ≡ w.db.idempotency) where
    -- the state in which the method of a first request runs
    abbrev pub beginning : World → World
    beginning w = record w {
      next_pk = suc w.next_pk;
      db = record w.db {
        idempotency = w.db.idempotency ++ begun env request user w.next_pk w.now ∷ [];
      };
    }

    pub carry_out-unasked :
        (w : World)
        → exists asked w.db.idempotency ≡ false
        → carry_out env method request user w
          ≡ continue (method (beginning w)).0 (store_response w.next_pk) (method (beginning w)).1
    unfolding carry_out
    carry_out-unasked w h = simp h

    first-beginning :
        (w : World)
        → first asked w.db.idempotency ≡ none
        → first asked (method (beginning w)).1.db.idempotency
          ≡ some (begun env request user w.next_pk w.now)
    first-beginning w fresh =
        ap (first asked) (quiet (beginning w))
        ∙ first-append_none asked w.db.idempotency (begun env request user w.next_pk w.now ∷ [])
            fresh
        ∙ ground (arith, ==-refl user, eq_refl (idempotency_hash env request))

    -- A first request that returns leaves a row that holds its response.
    pub carry_out_lem :
        (response : Response) (w : World)
        → first asked w.db.idempotency ≡ none
        → (carry_out env method request user w).0 ≡ ok response
        → (r : IdempotencyRecord) × (first asked
              (carry_out env method request user w).1.db.idempotency
            ≡ some r)
          × Holds (request_hash env request) response r
    carry_out_lem response w fresh done =
        let new = begun env request user w.next_pk w.now in
        let unasked : exists asked w.db.idempotency ≡ false =
          ground (arith, is_some-first asked w.db.idempotency, fresh) in
        let same = carry_out-unasked w unasked in
        let (answer, answered, stored) =
          bind-ok (store_response w.next_pk) response method (beginning w)
            (sym (ap (λ x. x.0) same) ∙ done) in
        let (r, found, holds) =
          store_response-rows asked (λ _ _ _. refl) (request_hash env request) new answer response
            (method (beginning w)).1 stored (first-beginning w fresh) refl in
        (
          r,
          ap (λ x. first asked x.1.db.idempotency) same
              ∙ ap
                  (λ x.
                    first asked
                      (continue x (store_response w.next_pk)
                        (method (beginning w)).1).1.db.idempotency)
                  answered
              ∙ found,
          holds,
        )

  -- What the row answers, whatever the method.
  pub replay_lem :
      (method : Action Response) (response : Response) (r : IdempotencyRecord) (w : World)
      → first asked w.db.idempotency ≡ some r
      → Holds (request_hash env request) response r
      → with_record env method request user w ≡ (ok (record response { replayed = true }), w)
  unfolding with_record answer_once replay
  replay_lem method response r w found (same, status, body) =
      simp (found, status, same, eq_refl (request_hash env request))
        (ap (λ p. (ok (record { status = response.status; payload = p; replayed = true }), w)) body)
