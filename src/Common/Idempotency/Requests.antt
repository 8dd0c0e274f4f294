-- ===== src/Common/Idempotency/Requests.antt =====
-- The decorator over whole requests: repeated, different, failing.
use django_boilderplate.Common.Idempotency.{
  replay, carry_out, answer_once, conflict_error, with_record, Response, idempotent, HttpRequest,
  request_hash,
}
use django_boilderplate.Models.Core.{IdempotencyRecord}
use django_boilderplate.World.{
  err-atomic, db-atomic_err, db-atomic_ok, atomic-err, atomic-ok, enter, ok-atomic, err, ok, atomic,
  Error, World, Action,
}
use django_boilderplate.Env.{Env}
use django_boilderplate.Prelude.{
  inr, inl, Option-cases, Bool-cases, ◌∙◌, sym, eq_iff, arith, ap, ◌≢◌, ◌≡◌, ℕ, true, text_length,
  str_eq, some, none, ltb, first, false,
}
use django_boilderplate.Common.Idempotency.Replay.{carry_out_lem, replay_lem, asked, Holds}

-- The request has a key that the decorator takes, and its user is logged in.
abbrev pub HasKey : HttpRequest → ℕ → Type 0
HasKey request user =
    (str_eq request.idempotency_key "" ≡ false)
    × (request.user ≡ some user)
    × (ltb 255 (text_length request.idempotency_key) ≡ false)

module _ (env : Env) (request : HttpRequest) (user : ℕ) (keyed : HasKey request user) where
  pub idempotent-keyed :
      (method : Action Response) (w : World)
      → idempotent env method request w ≡ atomic (with_record env method request user) w
  unfolding idempotent
  idempotent-keyed method w = simp (keyed.0, keyed.1, keyed.2)

  pub with_record-fresh :
      (method : Action Response) (w : World)
      → first (asked env request user) w.db.idempotency ≡ none
      → with_record env method request user w ≡ carry_out env method request user w
  unfolding with_record answer_once
  with_record-fresh method w fresh = simp fresh

  -- What a key whose row holds a response answers.
  idempotent-found :
      (method : Action Response) (response : Response) (r : IdempotencyRecord) (w : World)
      → first (asked env request user) w.db.idempotency ≡ some r
      → Holds (request_hash env request) response r
      → ((idempotent env method request w).0 ≡ ok (record response { replayed = true }))
        × ((idempotent env method request w).1.db ≡ w.db)
  idempotent-found method response r w found holds =
      let body = with_record env method request user in
      let answered = replay_lem env request user method response r (enter w) found holds in
      let answer : Response = record response { replayed = true } in
      let same = idempotent-keyed method w in
      (
        ap (λ x. x.0) same ∙ atomic-ok body w answer (ap (λ x. x.0) answered),
        ap (λ x. x.1.db) same
            ∙ db-atomic_ok body w answer (ap (λ x. x.0) answered)
            ∙ ap (λ x. x.1.db) answered,
      )

  idempotent-different :
      (method : Action Response) (r : IdempotencyRecord) (w : World)
      → first (asked env request user) w.db.idempotency ≡ some r
      → str_eq r.request_hash (request_hash env request) ≡ false
      → (with_record env method request user w).0 ≡ err conflict_error
  unfolding with_record answer_once replay
  idempotent-different method r w found different = simp (found, different)

  -- After a first request with its key has returned a response, the key has a row that holds it.
  pub found-idempotent :
      (method : Action Response) (response : Response) (w : World)
      → ((w : World) → (method w).1.db.idempotency ≡ w.db.idempotency)
      → first (asked env request user) w.db.idempotency ≡ none
      → (idempotent env method request w).0 ≡ ok response
      → (r : IdempotencyRecord) × (first
            (asked env request user)
            (idempotent env method request w).1.db.idempotency
          ≡ some r)
        × Holds (request_hash env request) response r
  found-idempotent method response w quiet fresh done =
      let body = with_record env method request user in
      let same = idempotent-keyed method w in
      let ran = ok-atomic body w response (sym (ap (λ x. x.0) same) ∙ done) in
      let first_time = with_record-fresh method (enter w) fresh in
      let (r, found, holds) =
        carry_out_lem env request user method quiet response (enter w) fresh
          (sym (ap (λ x. x.0) first_time) ∙ ran) in
      (
        r,
        ap (λ x. first (asked env request user) x.1.db.idempotency) same
            ∙ ap (λ db. first (asked env request user) db.idempotency)
                (db-atomic_ok body w response ran)
            ∙ ap (λ x. first (asked env request user) x.1.db.idempotency) first_time
            ∙ found,
        holds,
      )

-- A view's method that does not touch the table of the decorator, and a request with a key that
-- the user has not used: if the request returns a response, then the same request at any later
-- time returns that response, marked as a replay, whatever its method would have done, and writes
-- no row.
pub idempotent-repeat :
    (env : Env) (method again : Action Response) (request : HttpRequest) (user later : ℕ)
    (response : Response) (w : World)
    → HasKey request user
    → ((w : World) → (method w).1.db.idempotency ≡ w.db.idempotency)
    → first (asked env request user) w.db.idempotency ≡ none
    → (idempotent env method request w).0 ≡ ok response
    → let w' = record (idempotent env method request w).1 { now = later } in
      ((idempotent env again request w').0 ≡ ok (record response { replayed = true }))
      × ((idempotent env again request w').1.db ≡ w'.db)
idempotent-repeat env method again request user later response w keyed quiet fresh done =
    let w' = record (idempotent env method request w).1 { now = later } in
    let (r, found, holds) =
      found-idempotent env request user keyed method response w quiet fresh done in
    idempotent-found env request user keyed again response r w' found holds

-- A request with a key that the user has used for a request with another digest is a conflict,
-- whatever its method, and writes no row.
pub idempotent_conflict :
    (env : Env) (method : Action Response) (request : HttpRequest) (user : ℕ)
    (r : IdempotencyRecord) (w : World)
    → HasKey request user
    → first (asked env request user) w.db.idempotency ≡ some r
    → r.request_hash ≢ request_hash env request
    → ((idempotent env method request w).0 ≡ err conflict_error)
      × ((idempotent env method request w).1.db ≡ w.db)
idempotent_conflict env method request user r w keyed found different =
    let body = with_record env method request user in
    let apart : str_eq r.request_hash (request_hash env request) ≡ false =
      ground (arith, eq_iff r.request_hash (request_hash env request), different) in
    let failed = idempotent-different env request user keyed method r (enter w) found apart in
    let same = idempotent-keyed env request user keyed method w in
    (
      ap (λ x. x.0) same ∙ atomic-err body w conflict_error failed,
      ap (λ x. x.1.db) same ∙ db-atomic_err body w conflict_error failed,
    )

-- Where a request with a key raises, from its method or from the decorator, it leaves no row of
-- any table behind, so that it can be sent again.
pub idempotent_rollback :
    (env : Env) (method : Action Response) (request : HttpRequest) (e : Error) (w : World)
    → str_eq request.idempotency_key "" ≡ false
    → (idempotent env method request w).0 ≡ err e
    → (idempotent env method request w).1.db ≡ w.db
idempotent_rollback env method request e w keyed failed = elim (Option-cases request.user) [
  | inl nobody ↦ unfold idempotent in simp (keyed, nobody)
  | inr (user, somebody) ↦ elim (Bool-cases (ltb 255 (text_length request.idempotency_key))) [
    | inl long ↦ unfold idempotent in simp (keyed, somebody, long)
    | inr short ↦
        let body = with_record env method request user in
        let same = idempotent-keyed env request user (keyed, somebody, short) method w in
        ap (λ x. x.1.db) same
        ∙ db-atomic_err body w e (err-atomic body w e (sym (ap (λ x. x.0) same) ∙ failed))
  ]
]
