-- ===== src/Webhooks/Retries.antt =====
-- How often a webhook is tried, and when.
use django_boilderplate.Models.Webhooks.{
  pending, processing, succeeded, failed, abandoned, DeliveryStatus, WebhookDelivery,
}
use django_boilderplate.Webhooks.{
  crashed, finish_attempt, save, refused, responded, is_success, Outcome, fail_attempt,
  begin_attempt, max_attempts, Attempt, settle, deliver_each, deliver_webhook, claim,
}
use django_boilderplate.Prelude.{
  ap, ◌∙◌, min, length, inr, inl, exists, arith, Bool-cases, ◌≡◌, ◌∷◌, ◌<◌, ◌+◌, ℕ, true, some,
  refl, not, leb, false, [], List, Bool,
}

abbrev is_failure : Outcome → Bool
is_failure refused = true
is_failure crashed = false
is_failure (responded code _) = not (is_success code)

-- A row that waits for an attempt, and one that is given up.
abbrev is_waiting : DeliveryStatus → Bool
is_waiting pending = true
is_waiting failed = true
is_waiting processing = false
is_waiting succeeded = false
is_waiting abandoned = false

abbrev pub is_abandoned : DeliveryStatus → Bool
is_abandoned abandoned = true
is_abandoned pending = false
is_abandoned processing = false
is_abandoned succeeded = false
is_abandoned failed = false

claim-waiting :
    (now : ℕ) (d : WebhookDelivery)
    → is_waiting d.status ≡ true
    → claim now d ≡ some (begin_attempt now d)
unfolding claim
claim-waiting now d h = ground arith

settle_failure :
    (now : ℕ) (o : Outcome) (d : WebhookDelivery)
    → is_failure o ≡ true
    → (is_waiting (settle now o d).status ≡ not (leb max_attempts d.attempt_count))
      × (is_abandoned (settle now o d).status ≡ leb max_attempts d.attempt_count)
unfolding settle fail_attempt
settle_failure now refused d h = ground arith
settle_failure now crashed d h = cc
settle_failure now (responded code body) d h = ground arith

deliver-claimed :
    (a : Attempt) (d copy : WebhookDelivery)
    → claim a.begins d ≡ some copy
    → deliver_webhook a d ≡ save (settle a.ends a.outcome copy) copy
unfolding deliver_webhook
deliver-claimed a d copy e = ap (finish_attempt a d) e

-- one failing attempt
deliver_failure :
    (a : Attempt) (d : WebhookDelivery)
    → is_waiting d.status ≡ true
    → is_failure a.outcome ≡ true
    → ((deliver_webhook a d).attempt_count ≡ d.attempt_count + 1)
      × (is_waiting (deliver_webhook a d).status ≡ not (leb max_attempts (d.attempt_count + 1)))
      × (is_abandoned (deliver_webhook a d).status ≡ leb max_attempts (d.attempt_count + 1))
deliver_failure a d waiting fails =
    let copy = begin_attempt a.begins d in
    let e = deliver-claimed a d copy (claim-waiting a.begins d waiting) in
    let (still, given_up) = settle_failure a.ends a.outcome copy fails in
    (
      ap (λ x. x.attempt_count) e,
      ap (λ x. is_waiting x.status) e ∙ still,
      ap (λ x. is_abandoned x.status) e ∙ given_up,
    )

not_abandoned : (s : DeliveryStatus) → is_waiting s ≡ true → is_abandoned s ≡ false
not_abandoned pending h = refl
not_abandoned failed h = refl
not_abandoned processing h = refl
not_abandoned succeeded h = refl
not_abandoned abandoned h = cc

unmoved :
    (a : Attempt) (d : WebhookDelivery) → is_abandoned d.status ≡ true → deliver_webhook a d ≡ d
unfolding deliver_webhook claim
unmoved a d h = ground arith

deliver-abandoned :
    (attempts : List Attempt) (d : WebhookDelivery)
    → is_abandoned d.status ≡ true
    → deliver_each attempts d ≡ d
unfolding deliver_each
deliver-abandoned [] d h = refl
deliver-abandoned (a ∷ attempts) d h = simp (unmoved a d h) (deliver-abandoned attempts d h)

-- A delivery that waits and has fewer than eight attempts behind it, over any number of failing
-- attempts that do not overlap: the attempts are counted up to eight, and the delivery is given up
-- exactly if eight are reached.
pub deliver_each_failures :
    (attempts : List Attempt) (d : WebhookDelivery)
    → is_waiting d.status ≡ true
    → d.attempt_count < max_attempts
    → exists (λ a. not (is_failure a.outcome)) attempts ≡ false
    → ((deliver_each attempts d).attempt_count
        ≡ min max_attempts (d.attempt_count + length attempts))
      × (is_abandoned (deliver_each attempts d).status
          ≡ leb max_attempts (d.attempt_count + length attempts))
unfolding deliver_each
deliver_each_failures [] d waiting few fails =
    (omega arith, not_abandoned d.status waiting ∙ ground arith)
deliver_each_failures (a ∷ attempts) d waiting few fails =
    let (count, open_still, given_up) = deliver_failure a d waiting (ground arith) in
    elim (Bool-cases (leb max_attempts (d.attempt_count + 1))) [
      | inl last ↦
          let same = deliver-abandoned attempts (deliver_webhook a d) (given_up ∙ last) in
          simp same (ground arith)
      | inr more ↦
          let rest =
            deliver_each_failures attempts (deliver_webhook a d) (ground arith) (ground arith)
              (ground arith) in
          (rest.0 ∙ ground arith, rest.1 ∙ ground arith)
    ]
