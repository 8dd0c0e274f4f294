-- ===== src/Webhooks.antt =====
-- The delivery of a webhook: the task `deliver_webhook` of apps/webhooks/tasks.py on one row of
-- apps/webhooks/models.py. The address check, the signature and the request are an outcome
-- here, which Webhooks.Service computes.
use django_boilderplate.Security.LoginProtection.{second}
use django_boilderplate.Prelude.{
  ◌∷◌, ◌^◌, ◌-◌, ◌+◌, ◌*◌, ◌&&◌, ℕ, some, none, min, ltb, leb, if◌then◌else◌, false, [], String,
  Option, List, Bool,
}
pub mod Batch
pub mod Dispatch
pub mod Emission
pub mod Retries
pub mod Service
pub mod Signature
pub mod Workers
use django_boilderplate.Models.Webhooks.{
  pending, processing, succeeded, failed, abandoned, WebhookDelivery,
}

-- What the attempt ends with: a response with its code and its text, cut to 4096 characters, or an
-- `httpx.HTTPError` or a `ValidationError`, or an exception that the task does not catch.
pub data Outcome : Type 0 where
  responded : (code : ℕ) → (body : String) → Outcome
  refused crashed : Outcome

-- fifteen minutes
abbrev pub claim_time : ℕ
claim_time = 900 * second

abbrev pub max_attempts : ℕ
max_attempts = 8

-- `status == PROCESSING and last_attempt_at and last_attempt_at > now - 15 minutes`
abbrev pub is_claimed : ℕ → WebhookDelivery → Bool
is_claimed now d = elim d.last_attempt_at [ none ↦ false | some t ↦ ltb now (t + claim_time) ]

-- the row once an attempt has begun
abbrev pub begin_attempt : ℕ → WebhookDelivery → WebhookDelivery
begin_attempt now d = record d {
  attempt_count = d.attempt_count + 1;
  last_attempt_at = some now;
  status = processing;
}

-- The first transaction of the task; `none` is a return.
unfoldable pub claim : ℕ → WebhookDelivery → Option WebhookDelivery
claim now d = elim d.status [
  | succeeded ↦ none
  | abandoned ↦ none
  | processing ↦ if is_claimed now d then none else some (begin_attempt now d)
  | pending ↦ some (begin_attempt now d)
  | failed ↦ some (begin_attempt now d)
]

-- seconds until the next attempt
unfoldable pub retry_seconds : ℕ → ℕ
retry_seconds attempts = min 3600 (30 * 2 ^ (attempts - 1))

-- the `except` branch
unfoldable pub fail_attempt : ℕ → WebhookDelivery → WebhookDelivery
unfolding retry_seconds
fail_attempt now d =
    if leb max_attempts d.attempt_count
    then record d { status = abandoned; next_retry_at = none }
    else record d {
      status = failed;
      next_retry_at = some (now + retry_seconds d.attempt_count * second);
    }

abbrev pub is_success : ℕ → Bool
is_success code = leb 200 code && ltb code 300

-- The copy that the worker holds, after the attempt; a crash leaves nothing more to save.
unfoldable pub settle : ℕ → Outcome → WebhookDelivery → WebhookDelivery
unfolding fail_attempt
settle now crashed d = d
settle now refused d = fail_attempt now d
settle now (responded code body) d =
    let answered : WebhookDelivery = record d { response_code = some code; response_body = body } in
    if is_success code
    then record answered { status = succeeded; next_retry_at = none }
    else fail_attempt now answered

-- `delivery.save(update_fields=[...])`: the worker's copy, on the row of the table.
abbrev pub save : WebhookDelivery → WebhookDelivery → WebhookDelivery
save copy row = record row {
  response_code = copy.response_code;
  response_body = copy.response_body;
  status = copy.status;
  next_retry_at = copy.next_retry_at;
}

-- One run of `deliver_webhook` without others in between: the time it begins, the time it ends and
-- its outcome.
pub record Attempt : Type 0 where
  pub begins : ℕ
  pub ends : ℕ
  pub outcome : Outcome

-- the rest of the task, for what its first transaction yields
abbrev pub finish_attempt : Attempt → WebhookDelivery → Option WebhookDelivery → WebhookDelivery
finish_attempt a row none = row
finish_attempt a row (some copy) = save (settle a.ends a.outcome copy) copy

unfoldable pub deliver_webhook : Attempt → WebhookDelivery → WebhookDelivery
unfolding claim settle
deliver_webhook a row = finish_attempt a row (claim a.begins row)

unfoldable pub deliver_each : List Attempt → WebhookDelivery → WebhookDelivery
deliver_each [] row = row
deliver_each (a ∷ attempts) row = deliver_each attempts (deliver_webhook a row)
