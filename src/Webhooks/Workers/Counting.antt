-- ===== src/Webhooks/Workers/Counting.antt =====
-- Attempts are counted whatever the workers do.
use django_boilderplate.Webhooks.Workers.{
  new, next, start, finish, die, pass, is_caught, Reachable, Step, Pace, Delivering,
}
use django_boilderplate.Models.Webhooks.{abandoned, WebhookDelivery}
use django_boilderplate.Webhooks.{
  begin_attempt, claim, Outcome, fail_attempt, max_attempts, settle, responded, refused, crashed,
}
use django_boilderplate.Prelude.{
  ap, subst, some, arith, All-map, ◌≤◌, ◌≡◌, ◌∷◌, ◌++◌, ℕ, true, after, [], List, All,
}
use django_boilderplate.Webhooks.Retries.{is_abandoned}

-- No copy is ahead of the row, and a row that is given up has eight attempts.
abbrev Counted : Delivering → Type 0
Counted s =
    All (λ c. c.attempt_count ≤ s.row.attempt_count) s.flights
    × (is_abandoned s.row.status ≡ true → max_attempts ≤ s.row.attempt_count)

module _ {ℓ κ} {A : Type ℓ} (P : A → Type κ) where
  All-without : (xs ys : List A) (a : A) → All P (xs ++ a ∷ ys) → All P (xs ++ ys)
  All-without [] ys a h = h.1
  All-without (b ∷ xs) ys a h = (h.0, All-without xs ys a h.1)

  All-middle : (xs ys : List A) (a : A) → All P (xs ++ a ∷ ys) → P a
  All-middle [] ys a h = h.0
  All-middle (b ∷ xs) ys a h = All-middle xs ys a h.1

settle-abandoned :
    (now : ℕ) (outcome : Outcome) (c : WebhookDelivery)
    → is_caught outcome ≡ true
    → is_abandoned (settle now outcome c).status ≡ true
    → max_attempts ≤ c.attempt_count
unfolding settle fail_attempt
settle-abandoned now (responded code body) c caught h = ground (arith, h)
settle-abandoned now refused c caught h = ground (arith, h)
settle-abandoned now crashed c caught h = absurd (ground (arith, caught))

pub claim-begins :
    (now : ℕ) (row copy : WebhookDelivery)
    → claim now row ≡ some copy
    → begin_attempt now row ≡ copy
unfolding claim
claim-begins now row copy e = ground (arith, e)

Step-Counted : (pace : Pace) (s t : Delivering) → Counted s → Step pace s t → Counted t
Step-Counted pace s t (below, given) (start now row copy flights e) =
    subst (λ c. Counted (record { now = now; row = c; flights = c ∷ flights }))
      (claim-begins now row copy e)
      (
        (omega arith, All-map (λ c h. omega (arith, h)) flights below),
        λ h. absurd (ground (arith, h)),
      )
Step-Counted pace s t (below, given) (finish now row copy others more outcome caught) = (
  All-without (λ c. c.attempt_count ≤ row.attempt_count) others more copy below,
  λ h. omega (
    arith,
    All-middle (λ c. c.attempt_count ≤ row.attempt_count) others more copy below,
    settle-abandoned now outcome copy caught h,
  ),
)
Step-Counted pace s t (below, given) (die now row copy others more) =
    (All-without (λ c. c.attempt_count ≤ row.attempt_count) others more copy below, given)
Step-Counted pace s t h (pass now later row flights after may) = h

Reachable-Counted : (pace : Pace) (s : Delivering) → Reachable pace s → Counted s
Reachable-Counted pace s (new now row e none_yet) = (tt, λ h. absurd (ground (arith, e, h)))
Reachable-Counted pace s (next r s2 earlier step) =
    Step-Counted pace r s2 (Reachable-Counted pace r earlier) step

-- Whatever the workers do, at any pace, a delivery is given up only once eight attempts have begun.
pub abandoned-count :
    (pace : Pace) (s : Delivering)
    → Reachable pace s
    → s.row.status ≡ abandoned
    → max_attempts ≤ s.row.attempt_count
abandoned-count pace s reach given = (Reachable-Counted pace s reach).1 (ap is_abandoned given)
