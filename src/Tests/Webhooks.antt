-- ===== src/Tests/Webhooks.antt =====
-- Runs of the webhooks.
use django_boilderplate.Webhooks.Signature.{
  signature_headers-create_endpoint, attempt-validate_url, Checked, header,
}
use django_boilderplate.Webhooks.Batch.{Queues, due_ids-all, due_ids-due, has_id, due_row}
use django_boilderplate.Webhooks.Emission.{emit-deliveries, dispatches, is_delivery, new_event}
use django_boilderplate.Webhooks.Workers.Counting.{abandoned-count}
use django_boilderplate.Common.Crypto.{
  decrypt_value, key_material, encrypt_value, generate_token, keyed_hash,
}
use django_boilderplate.Common.Logging.{null}
use django_boilderplate.Webhooks.Workers.Exclusive.{flights-bounded}
use django_boilderplate.Webhooks.Dispatch.{
  dispatch_pending_webhooks, is_stuck, is_retry, is_new, due_ids,
}
use django_boilderplate.Tests.Sample.{sample_settings, empty_db, server, sample}
use django_boilderplate.Env.{Env}
use django_boilderplate.World.{CacheEntry, Action, ok, World}
use django_boilderplate.Webhooks.Service.{
  signed_text, signature_headers, serialize_event, validate_parts, validate_url, post_event,
  add_endpoint, attempt, create_endpoint, emit,
}
use Prim.Native.String.{◌++◌ as cat}
use Prim.Native.Nat.{suc, zero}
use mathlib.Core.Logic.{◌⊎◌}
use django_boilderplate.Webhooks.Workers.{
  Reachable, Pace, Delivering, new, next, start, finish, in_time, any_pace,
}
use django_boilderplate.Webhooks.{
  fail_attempt, begin_attempt, settle, claim, save, retry_seconds, deliver_each, Attempt, refused,
}
use django_boilderplate.Webhooks.Workers.Refinement.{Step-refines, Move, phase}
use django_boilderplate.Models.Webhooks.{WebhookEvent, WebhookEndpoint, pending, WebhookDelivery}
use django_boilderplate.Webhooks.Retries.{deliver_each_failures, is_abandoned}
use django_boilderplate.Prelude.{
  ◌++◌, map, ap, ◌≤◌, ℕ, sorted_set, some, length, insert_text, exists, String, ◌≡◌, ◌∷◌, true,
  refl, none, arith, [], List,
}

abbrev new_delivery : WebhookDelivery
new_delivery = record {
  pk = 1;
  endpoint = 1;
  event = 1;
  status = pending;
  attempt_count = 0;
  response_code = none;
  response_body = "";
  last_attempt_at = none;
  next_retry_at = none;
}

abbrev down : Attempt
down = record { begins = 5; ends = 6; outcome = refused }

abbrev nine : List Attempt
nine = down ∷ down ∷ down ∷ down ∷ down ∷ down ∷ down ∷ down ∷ down ∷ []

deliver_each_failures_example :
    ((deliver_each nine new_delivery).attempt_count ≡ 8)
    × (is_abandoned (deliver_each nine new_delivery).status ≡ true)
deliver_each_failures_example = deliver_each_failures nine new_delivery refl (omega arith) refl

abbrev hook : WebhookEndpoint
hook = record {
  pk = 3;
  owner = none;
  name = "h";
  url = "example.org";
  event_types = "user.created" ∷ [];
  secret_hash = "";
  encrypted_secret = "";
  is_active = true;
}

abbrev with_hook : World
with_hook = server (record empty_db { endpoints = hook ∷ [] })

abbrev happened : WebhookEvent
happened = record { pk = 9; event_type = "user.created"; payload = null; created_at = 5 }

-- a cipher that drops nothing
abbrev open_sample : Env
open_sample = record sample {
  fernet_encrypt = λ key n value. value;
  fernet_decrypt = λ key value. some value;
}

abbrev new_hook : WebhookEndpoint
new_hook = record hook {
  pk = 100;
  secret_hash = keyed_hash open_sample "a" "webhook-secret";
  encrypted_secret = "a";
}

signature_headers-create_endpoint_example :
    (headers : List (String × String)) × ((signature_headers open_sample new_hook happened "{}"
        with_hook).0
      ≡ ok headers)
    × (header "X-Webhook-Timestamp" headers ≡ some (open_sample.unix_time 50))
    × (header "X-Webhook-Signature" headers
        ≡ some (cat "v1=" (open_sample.hmac_sha256 "a" (signed_text open_sample 50 "{}"))))
unfolding create_endpoint add_endpoint validate_url validate_parts generate_token encrypt_value
    key_material keyed_hash sorted_set insert_text
signature_headers-create_endpoint_example =
    signature_headers-create_endpoint open_sample none "h" "example.org" ("user.created" ∷ [])
      (server empty_db) new_hook "a" happened "{}" with_hook refl (λ key n value. refl) refl

attempt-validate_url_example : Checked sample "example.org" 50
unfolding attempt post_event validate_url validate_parts serialize_event signature_headers
    decrypt_value key_material
attempt-validate_url_example = attempt-validate_url sample hook happened with_hook 200 "{}" refl

emit-deliveries_example :
    let (r, w') = emit sample "user.created" null with_hook in
    (r ≡ ok (new_event sample "user.created" null with_hook))
    × (w'.db.webhook_events ≡ new_event sample "user.created" null with_hook ∷ [])
    × (exists (is_delivery 3 100) w'.db.deliveries ≡ true)
    × (length w'.db.deliveries ≡ 1)
    × (w'.effects ≡ dispatches sample "user.created" null with_hook)
emit-deliveries_example = emit-deliveries sample "user.created" null with_hook 3 refl refl refl

due_ids-due_example :
    (length (due_ids 50 (hook ∷ []) (record new_delivery { endpoint = 3 } ∷ [])) ≤ 100)
    × (due_row 50 (hook ∷ []) (record new_delivery { endpoint = 3 } ∷ []) 1 ≡ true)
unfolding due_ids is_new is_retry is_stuck
due_ids-due_example = due_ids-due 50 (hook ∷ []) (record new_delivery { endpoint = 3 } ∷ []) 1 refl

-- a broker that keeps the tasks as entries of the cache
abbrev broker : ℕ → Action (Unit {0})
broker pk w =
    (ok tt, record w { cache = w.cache ++ record { key = "job"; value = pk; expires = 0 } ∷ [] })

abbrev jobs : World → List ℕ
jobs w = map (λ e. e.value) w.cache

values-append :
    (xs : List CacheEntry) (e : CacheEntry)
    → map (λ c. c.value) (xs ++ e ∷ []) ≡ map (λ c. c.value) xs ++ e.value ∷ []
values-append [] e = refl
values-append (x ∷ xs) e = ap (λ ys. x.value ∷ ys) (values-append xs e)

abbrev broker-Queues : Queues broker jobs
broker-Queues = record {
  returns = λ pk w. refl;
  queued = λ pk w. values-append w.cache (record { key = "job"; value = pk; expires = 0 });
}

abbrev one_due : World
one_due = server (record empty_db {
  endpoints = hook ∷ [];
  deliveries = record new_delivery { endpoint = 3 } ∷ [];
})

abbrev enabled_hooks : Env
enabled_hooks = record sample { settings = record sample_settings { enable_webhooks = true } }

due_ids-all_example :
    let (r, w') = dispatch_pending_webhooks enabled_hooks broker one_due in
    (r ≡ ok 1)
    × (has_id 1 (jobs w') ≡ true)
    × (claim 60 (record new_delivery { endpoint = 3 })
        ≡ some (begin_attempt 60 (record new_delivery { endpoint = 3 })))
unfolding due_ids is_new is_retry is_stuck
due_ids-all_example =
    due_ids-all broker jobs broker-Queues enabled_hooks one_due 60
      (record new_delivery { endpoint = 3 }) refl (omega arith) refl refl (omega arith)

-- A worker that claims the row at the fifth microsecond and fails at once.
abbrev failing : WebhookDelivery → WebhookDelivery
failing row = save (settle 5 refused (begin_attempt 5 row)) (begin_attempt 5 row)

abbrev alone : WebhookDelivery → Delivering
alone row = record { now = 5; row = row; flights = [] }

failing-Reachable :
    (pace : Pace) (row : WebhookDelivery)
    → claim 5 row ≡ some (begin_attempt 5 row)
    → Reachable pace (alone row)
    → Reachable pace (alone (failing row))
failing-Reachable pace row e reach =
    let copy = begin_attempt 5 row in
    next (record { now = 5; row = copy; flights = copy ∷ [] }) (alone (failing row))
      (next (alone row) (record { now = 5; row = copy; flights = copy ∷ [] }) reach
        (start 5 row copy [] e))
      (finish 5 copy copy [] [] refused refl)

abbrev fails : ℕ → WebhookDelivery
fails zero = new_delivery
fails (suc n) = failing (fails n)

eight_fail : (pace : Pace) → Reachable pace (alone (fails 8))
unfolding claim settle fail_attempt retry_seconds
eight_fail pace =
    let go = failing-Reachable pace in
    go (fails 7) refl (
      go (fails 6) refl (
        go (fails 5) refl (
          go (fails 4) refl (
            go (fails 3) refl (
              go (fails 2) refl
                (go (fails 1) refl (go (fails 0) refl (new 5 new_delivery refl refl))))))))

abandoned-count_example : 8 ≤ (fails 8).attempt_count
unfolding settle fail_attempt retry_seconds
abandoned-count_example = abandoned-count any_pace (alone (fails 8)) (eight_fail any_pace) refl

flights-bounded_example : length (alone (fails 8)).flights ≤ 1
flights-bounded_example = flights-bounded (alone (fails 8)) (eight_fail in_time)

-- a worker that has begun
abbrev claimed : WebhookDelivery
claimed = begin_attempt 5 new_delivery

claimed-Reachable :
    (pace : Pace) → Reachable pace (record { now = 5; row = claimed; flights = claimed ∷ [] })
unfolding claim
claimed-Reachable pace =
    next (alone new_delivery) (record { now = 5; row = claimed; flights = claimed ∷ [] })
      (new 5 new_delivery refl refl) (start 5 new_delivery claimed [] refl)

Step-refines_example :
    (phase claimed ≡ phase (save (settle 5 refused claimed) claimed))
    ⊎ Move (phase claimed) (phase (save (settle 5 refused claimed) claimed))
Step-refines_example =
    Step-refines (record { now = 5; row = claimed; flights = claimed ∷ [] })
      (alone (save (settle 5 refused claimed) claimed)) (claimed-Reachable in_time)
      (finish 5 claimed claimed [] [] refused refl)
