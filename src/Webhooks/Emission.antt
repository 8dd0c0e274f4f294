-- ===== src/Webhooks/Emission.antt =====
-- Which deliveries an event has.
use django_boilderplate.Security.LoginProtection.{text_in}
use django_boilderplate.World.{ok, dispatch_webhooks, Effect, World}
use django_boilderplate.Common.Logging.{Value}
use django_boilderplate.Env.{Env}
use django_boilderplate.Models.Webhooks.{WebhookEvent, WebhookEndpoint, WebhookDelivery}
use django_boilderplate.Prelude.{
  ◌∙◌, ◌+◌, ltb, length-append, inr, inl, false, exists_weaken, exists-select, exists-nonempty,
  exists-append, ap, Bool-cases, select, ◌≡◌, ◌∷◌, ◌==◌, ◌++◌, ◌&&◌, ℕ, suc, refl, length,
  if◌then◌else◌, exists, arith, [], String, List, Bool,
}
use django_boilderplate.Webhooks.Service.{emit_rows, is_subscribed, new_deliveries, emit}

-- A delivery of the event to the endpoint.
abbrev pub is_delivery : (endpoint event : ℕ) → WebhookDelivery → Bool
is_delivery endpoint event d = d.endpoint == endpoint && d.event == event

exists-new_deliveries :
    (pk event endpoint : ℕ) (es : List WebhookEndpoint)
    → exists (is_delivery endpoint event) (new_deliveries pk event es)
      ≡ exists (λ e. e.pk == endpoint) es
unfolding new_deliveries
exists-new_deliveries pk event endpoint [] = refl
exists-new_deliveries pk event endpoint (e ∷ es) =
    ground (arith, exists-new_deliveries (suc pk) event endpoint es)

length-new_deliveries :
    (pk event : ℕ) (es : List WebhookEndpoint) → length (new_deliveries pk event es) ≡ length es
unfolding new_deliveries
length-new_deliveries pk event [] = refl
length-new_deliveries pk event (e ∷ es) = ground (arith, length-new_deliveries (suc pk) event es)

module _ (env : Env) (event_type : String) (payload : Value) (w : World) where
  abbrev subscribers : List WebhookEndpoint
  subscribers = select (is_subscribed event_type) w.db.endpoints

  abbrev pub new_event : WebhookEvent
  new_event = record {
    pk = w.next_pk;
    event_type = event_type;
    payload = payload;
    created_at = w.now;
  }

  -- the callbacks that an event leaves
  abbrev pub dispatches : List Effect
  dispatches =
      if env.settings.enable_webhooks && exists (is_subscribed event_type) w.db.endpoints
      then dispatch_webhooks ∷ []
      else []

  deliveries-emit :
      ((emit env event_type payload w).0 ≡ ok new_event)
      × ((emit env event_type payload w).1.db.deliveries
          ≡ w.db.deliveries ++ new_deliveries (suc w.next_pk) w.next_pk subscribers)
      × ((emit env event_type payload w).1.db.webhook_events
          ≡ w.db.webhook_events ++ new_event ∷ [])
  unfolding emit emit_rows
  deliveries-emit =
      let dispatched = env.settings.enable_webhooks && ltb 0 (length subscribers) in
      elim (Bool-cases dispatched) [
        | inl e ↦ (simp e (ground arith), simp e (ground arith), simp e (ground arith))
        | inr e ↦ (simp e (ground arith), simp e (ground arith), simp e (ground arith))
      ]

  effects-emit :
      w.depth ≡ 0
      → w.callbacks ≡ []
      → (emit env event_type payload w).1.effects ≡ w.effects ++ dispatches
  unfolding emit emit_rows
  effects-emit outermost idle =
      let any = exists-nonempty (is_subscribed event_type) w.db.endpoints in
      elim (Bool-cases
        (env.settings.enable_webhooks && exists (is_subscribed event_type) w.db.endpoints)) [
          | inl e ↦ simp (any, e, outermost, idle)
          | inr e ↦ simp (any, e, outermost, idle)
        ]

-- `emit`, outside other transactions and with a key for the event that no delivery refers to: it
-- returns the event and adds its row, gives a delivery to each endpoint that is active and declares the type, to no
-- other and one for each, and asks for a dispatch after the commit exactly if webhooks are enabled
-- and there is such an endpoint.
pub emit-deliveries :
    (env : Env) (event_type : String) (payload : Value) (w : World) (endpoint : ℕ)
    → exists (λ d. d.event == w.next_pk) w.db.deliveries ≡ false
    → w.depth ≡ 0
    → w.callbacks ≡ []
    → let (r, w') = emit env event_type payload w in
      (r ≡ ok (new_event env event_type payload w))
      × (w'.db.webhook_events ≡ w.db.webhook_events ++ new_event env event_type payload w ∷ [])
      × (exists (is_delivery endpoint w.next_pk) w'.db.deliveries
          ≡ exists
              (λ e. (e.is_active && text_in event_type e.event_types) && e.pk == endpoint)
              w.db.endpoints)
      × (length w'.db.deliveries
          ≡ length w.db.deliveries + length (select (is_subscribed event_type) w.db.endpoints))
      × (w'.effects ≡ w.effects ++ dispatches env event_type payload w)
emit-deliveries env event_type payload w endpoint fresh outermost idle =
    let (returned, rows, events) = deliveries-emit env event_type payload w in
    let chosen = subscribers env event_type payload w in
    let new = new_deliveries (suc w.next_pk) w.next_pk chosen in
    (
      returned,
      events,
      ap (exists (is_delivery endpoint w.next_pk)) rows
          ∙ exists-append (is_delivery endpoint w.next_pk) w.db.deliveries new
          ∙ simp
              (
                exists_weaken (is_delivery endpoint w.next_pk) (λ d. d.event == w.next_pk)
                    w.db.deliveries (λ d h. ground (arith, h)) fresh,
                exists-new_deliveries (suc w.next_pk) w.next_pk endpoint chosen,
              )
              (exists-select (λ e. e.pk == endpoint) (is_subscribed event_type) w.db.endpoints),
      ap length rows
          ∙ length-append w.db.deliveries new
          ∙ ap (λ n. length w.db.deliveries + n)
              (length-new_deliveries (suc w.next_pk) w.next_pk chosen),
      effects-emit env event_type payload w outermost idle,
    )
