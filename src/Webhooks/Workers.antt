-- ===== src/Webhooks/Workers.antt =====
-- Workers that run `deliver_webhook` of apps/webhooks/tasks.py on one delivery at the same time:
-- each begins with the transaction that claims the row, then works on its own copy without a lock,
-- and saves its copy at the end.
use django_boilderplate.Webhooks.{
  crashed, responded, refused, claim, settle, save, is_claimed, Outcome,
}
use django_boilderplate.Prelude.{false, Bool, ◌≤◌, ◌≡◌, ◌∷◌, ◌++◌, ℕ, true, some, [], List, All}
use django_boilderplate.Models.Webhooks.{WebhookDelivery, pending}
pub mod Counting
pub mod Exclusive
pub mod Refinement

-- The time, the row in the table, and the copies of the workers that are at it.
pub record Delivering : Type 0 where
  pub now : ℕ
  pub row : WebhookDelivery
  pub flights : List WebhookDelivery

-- Whether every worker is done within the fifteen minutes for which its claim counts.
pub data Pace : Type 0 where
  any_pace in_time : Pace

-- the time may come to `t` while the workers are at it
abbrev pub MayPass : Pace → ℕ → List WebhookDelivery → Type 0
MayPass any_pace t flights = Unit
MayPass in_time t flights = All (λ c. is_claimed t c ≡ true) flights

-- the attempt ends with a response or an exception that the task catches
abbrev pub is_caught : Outcome → Bool
is_caught crashed = false
is_caught (responded code body) = true
is_caught refused = true

-- One step: a worker claims the row, ends with what its attempt answered, or dies (an exception that
-- the task does not catch included), or time passes.
pub data Step (pace : Pace) : Delivering → Delivering → Type 0 where
  start :
      (now : ℕ) (row copy : WebhookDelivery) (flights : List WebhookDelivery)
      → claim now row ≡ some copy
      → Step pace
          (record { now = now; row = row; flights = flights })
          (record { now = now; row = copy; flights = copy ∷ flights })
  finish :
      (now : ℕ) (row copy : WebhookDelivery) (others more : List WebhookDelivery)
      (outcome : Outcome)
      → is_caught outcome ≡ true
      → Step pace
          (record { now = now; row = row; flights = others ++ copy ∷ more })
          (record { now = now; row = save (settle now outcome copy) row; flights = others ++ more })
  die :
      (now : ℕ) (row copy : WebhookDelivery) (others more : List WebhookDelivery)
      → Step pace
          (record { now = now; row = row; flights = others ++ copy ∷ more })
          (record { now = now; row = row; flights = others ++ more })
  pass :
      (now later : ℕ) (row : WebhookDelivery) (flights : List WebhookDelivery)
      → now ≤ later
      → MayPass pace later flights
      → Step pace
          (record { now = now; row = row; flights = flights })
          (record { now = later; row = row; flights = flights })

-- The states that a new delivery comes to.
pub data Reachable (pace : Pace) : Delivering → Type 0 where
  new :
      (now : ℕ) (row : WebhookDelivery)
      → row.status ≡ pending
      → row.attempt_count ≡ 0
      → Reachable pace (record { now = now; row = row; flights = [] })
  next : (s t : Delivering) → Reachable pace s → Step pace s t → Reachable pace t
