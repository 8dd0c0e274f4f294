-- ===== src/Webhooks/Workers/Refinement.antt =====
-- What a delivery goes through, for one who does not see the workers.
use django_boilderplate.Webhooks.Workers.Exclusive.{Reachable-Exclusive, Held-alone}
use django_boilderplate.Webhooks.Workers.{
  start, finish, die, pass, Step, in_time, Reachable, Delivering, is_caught,
}
use django_boilderplate.Webhooks.{
  crashed, refused, responded, is_success, fail_attempt, settle, save, claim, max_attempts, Outcome,
}
use django_boilderplate.Webhooks.Workers.Counting.{claim-begins}
use django_boilderplate.Prelude.{
  ◌⊎◌, ◌≢◌, ◌∙◌, sym, subst, refl, leb→le, leb, inr, inl, false, arith, after, Bool-cases, Bool,
  ◌≤◌, ◌≡◌, ◌<◌, ◌+◌, ℕ, true, some,
}
use django_boilderplate.Models.Webhooks.{
  WebhookDelivery, DeliveryStatus, pending, processing, succeeded, failed, abandoned,
}

-- A delivery waits after some attempts, is tried, has been delivered or has been given up.
pub data Phase : Type 0 where
  waiting : ℕ → Phase
  trying : ℕ → Phase
  delivered given_up : Phase

abbrev phase_of : DeliveryStatus → ℕ → Phase
phase_of pending n = waiting n
phase_of failed n = waiting n
phase_of processing n = trying n
phase_of succeeded n = delivered
phase_of abandoned n = given_up

abbrev pub phase : WebhookDelivery → Phase
phase d = phase_of d.status d.attempt_count

-- What may happen to it: the end of an attempt, the next attempt, also after one that was lost.
pub data Move : Phase → Phase → Type 0 where
  try : (n : ℕ) → Move (waiting n) (trying (n + 1))
  try_again : (n : ℕ) → Move (trying n) (trying (n + 1))
  deliver : (n : ℕ) → Move (trying n) delivered
  put_off : (n : ℕ) → n < max_attempts → Move (trying n) (waiting n)
  give_up : (n : ℕ) → max_attempts ≤ n → Move (trying n) given_up

-- the statuses from which an attempt may begin
abbrev may_start : DeliveryStatus → Bool
may_start pending = true
may_start failed = true
may_start processing = true
may_start succeeded = false
may_start abandoned = false

Move-may_start :
    (status : DeliveryStatus) (n : ℕ)
    → may_start status ≡ true
    → Move (phase_of status n) (trying (n + 1))
Move-may_start pending n h = try n
Move-may_start failed n h = try n
Move-may_start processing n h = try_again n
Move-may_start succeeded n h = absurd (ground (arith, h))
Move-may_start abandoned n h = absurd (ground (arith, h))

may_start-claim :
    (now : ℕ) (row copy : WebhookDelivery) → claim now row ≡ some copy → may_start row.status ≡ true
unfolding claim
may_start-claim now row copy e = ground (arith, e)

Move-claim :
    (now : ℕ) (row copy : WebhookDelivery)
    → claim now row ≡ some copy
    → Move (phase row) (phase copy)
Move-claim now row copy e =
    subst (λ c. Move (phase row) (phase c)) (claim-begins now row copy e)
      (Move-may_start row.status row.attempt_count (may_start-claim now row copy e))

Move-fail_attempt :
    (now : ℕ) (c : WebhookDelivery)
    → Move (trying c.attempt_count) (phase_of (fail_attempt now c).status c.attempt_count)
unfolding fail_attempt
Move-fail_attempt now c = elim (Bool-cases (leb max_attempts c.attempt_count)) [
  | inl e ↦ simp e (give_up c.attempt_count (leb→le max_attempts c.attempt_count e))
  | inr e ↦ simp e (put_off c.attempt_count (ground (arith, e)))
]

Move-settle :
    (now : ℕ) (outcome : Outcome) (c : WebhookDelivery)
    → is_caught outcome ≡ true
    → Move (trying c.attempt_count) (phase_of (settle now outcome c).status c.attempt_count)
unfolding settle
Move-settle now crashed c caught = absurd (ground (arith, caught))
Move-settle now refused c caught = Move-fail_attempt now c
Move-settle now (responded code body) c caught = elim (Bool-cases (is_success code)) [
  | inl e ↦ simp e (deliver c.attempt_count)
  | inr e ↦
      simp e (Move-fail_attempt now (record c { response_code = some code; response_body = body }))
]

-- the end of the attempt of the only worker
Move-finish :
    (now : ℕ) (row copy : WebhookDelivery) (outcome : Outcome)
    → row ≡ copy
    → copy.status ≡ processing
    → is_caught outcome ≡ true
    → Move (phase row) (phase (save (settle now outcome copy) row))
Move-finish now row copy outcome same busy caught =
    subst (λ r. Move (phase r) (phase (save (settle now outcome copy) r))) (sym same)
      (subst
        (λ st. Move (phase_of st copy.attempt_count) (phase (save (settle now outcome copy) copy)))
        (sym busy) (Move-settle now outcome copy caught))

-- Where every worker is done within fifteen minutes, each step of the workers leaves the phase of the
-- delivery as it is or is a move of the phases.
pub Step-refines :
    (s t : Delivering)
    → Reachable in_time s
    → Step in_time s t
    → (phase s.row ≡ phase t.row) ⊎ Move (phase s.row) (phase t.row)
Step-refines s t reach (start now row copy flights e) = inr (Move-claim now row copy e)
Step-refines s t reach (finish now row copy others more outcome caught) =
    let (_, same, busy) = Held-alone now row copy others more (Reachable-Exclusive s reach) in
    inr (Move-finish now row copy outcome same busy caught)
Step-refines s t reach (die now row copy others more) = inl refl
Step-refines s t reach (pass now later row flights after may) = inl refl

Move-delivered : (p q : Phase) → Move p q → p ≢ delivered
Move-delivered p q (try n) h = cc
Move-delivered p q (try_again n) h = cc
Move-delivered p q (deliver n) h = cc
Move-delivered p q (put_off n _) h = cc
Move-delivered p q (give_up n _) h = cc

-- Where every worker is done within fifteen minutes, no step changes the phase of a delivery that
-- has succeeded.
succeeded_stays :
    (s t : Delivering)
    → Reachable in_time s
    → Step in_time s t
    → phase s.row ≡ delivered
    → phase t.row ≡ delivered
succeeded_stays s t reach step done = elim (Step-refines s t reach step) [
  | inl same ↦ sym same ∙ done
  | inr move ↦ absurd (Move-delivered (phase s.row) (phase t.row) move done)
]
