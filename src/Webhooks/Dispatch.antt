-- ===== src/Webhooks/Dispatch.antt =====
-- `dispatch_pending_webhooks` of apps/webhooks/tasks.py: which deliveries are handed to workers.
use django_boilderplate.Env.{Env}
use django_boilderplate.World.{◌>>◌, gets, ◌>>=◌, pure, Action}
use django_boilderplate.Webhooks.{claim_time}
use django_boilderplate.Prelude.{
  ◌∷◌, ◌==◌, ◌-◌, ◌+◌, ◌++◌, ◌&&◌, ℕ, take, some, select, none, map, ltb, length, leb, is_none,
  if◌then◌else◌, false, exists, [], Option, List, Bool,
}
use django_boilderplate.Models.Webhooks.{
  WebhookDelivery, WebhookEndpoint, pending, processing, failed,
}

-- the rows that one run hands out at most
abbrev pub batch : ℕ
batch = 100

abbrev pub is_active_endpoint : List WebhookEndpoint → ℕ → Bool
is_active_endpoint endpoints pk = exists (λ e. e.pk == pk && e.is_active) endpoints

-- `value__lte=now`
abbrev has_come : ℕ → Option ℕ → Bool
has_come now none = false
has_come now (some t) = leb t now

-- `last_attempt_at__lt=now - timedelta(minutes=15)`
abbrev is_stale : ℕ → Option ℕ → Bool
is_stale now none = false
is_stale now (some t) = ltb (t + claim_time) now

-- the three queries, without the test of the endpoint
unfoldable pub is_new : WebhookDelivery → Bool
is_new d = elim d.status [ pending ↦ is_none d.next_retry_at | _ ↦ false ]

unfoldable pub is_retry : ℕ → WebhookDelivery → Bool
is_retry now d = elim d.status [ failed ↦ has_come now d.next_retry_at | _ ↦ false ]

unfoldable pub is_stuck : ℕ → WebhookDelivery → Bool
is_stuck now d = elim d.status [ processing ↦ is_stale now d.last_attempt_at | _ ↦ false ]

abbrev pks : List WebhookDelivery → List ℕ
pks = map (λ d. d.pk)

-- the keys of the rows of a query on deliveries of active endpoints
abbrev pub query_pks :
    List WebhookEndpoint → (WebhookDelivery → Bool) → List WebhookDelivery → List ℕ
query_pks endpoints p rows = pks (select (λ d. p d && is_active_endpoint endpoints d.endpoint) rows)

-- `ids += list(query[: max(0, 100 - len(ids))])`
abbrev pub add_batch : List ℕ → List ℕ → List ℕ
add_batch ids found = ids ++ take (batch - length ids) found

unfoldable pub due_ids : ℕ → List WebhookEndpoint → List WebhookDelivery → List ℕ
unfolding is_new is_retry is_stuck
due_ids now endpoints rows =
    let fresh = take batch (query_pks endpoints is_new rows) in
    let retried = add_batch fresh (query_pks endpoints (is_retry now) rows) in
    add_batch retried (query_pks endpoints (is_stuck now) rows)

-- The loop; `deliver` is `deliver_webhook.delay`, which queues the task or runs it.
unfoldable pub deliver_ids : (ℕ → Action (Unit {0})) → List ℕ → Action (Unit {0})
deliver_ids deliver [] = pure tt
deliver_ids deliver (pk ∷ ids) = do deliver pk; deliver_ids deliver ids

unfoldable pub dispatch_pending_webhooks : Env → (ℕ → Action (Unit {0})) → Action ℕ
unfolding due_ids deliver_ids
dispatch_pending_webhooks env deliver = do
  ids ← gets (λ w. due_ids w.now w.db.endpoints w.db.deliveries)
  let hand_out : Action ℕ = do deliver_ids deliver ids; pure (length ids)
  if env.settings.enable_webhooks then hand_out else pure 0
