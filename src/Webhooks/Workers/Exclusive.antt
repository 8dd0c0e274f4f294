-- ===== src/Webhooks/Workers/Exclusive.antt =====
-- Workers that are done in time never overlap.
use django_boilderplate.Webhooks.{settle, save, is_claimed, claim}
use django_boilderplate.Prelude.{
  ◌≤◌, ◌≡◌, ◌∷◌, ◌++◌, ℕ, true, sym, subst, some, refl, none, length, arith, after, [], List,
}
use django_boilderplate.Webhooks.Workers.{
  Reachable, Step, MayPass, Delivering, new, next, start, finish, die, pass, in_time,
}
use django_boilderplate.Models.Webhooks.{WebhookDelivery, processing}
use django_boilderplate.Webhooks.Workers.Counting.{claim-begins}

-- One worker is at the row, or none.
abbrev Held : ℕ → WebhookDelivery → List WebhookDelivery → Type 0
Held now row [] = Unit
Held now row (c ∷ []) = (row ≡ c) × (c.status ≡ processing) × (is_claimed now c ≡ true)
Held now row (_ ∷ _ ∷ _) = ⊥

abbrev pub Exclusive : Delivering → Type 0
Exclusive s = Held s.now s.row s.flights

claim-held :
    (now : ℕ) (c : WebhookDelivery)
    → c.status ≡ processing
    → is_claimed now c ≡ true
    → claim now c ≡ none
unfolding claim
claim-held now c busy held = ground (arith, busy, held)

-- What a claim leaves.
Held-start :
    (now : ℕ) (row copy : WebhookDelivery) (flights : List WebhookDelivery)
    → Held now row flights
    → claim now row ≡ some copy
    → Held now copy (copy ∷ flights)
Held-start now row copy [] held e =
    subst (λ c. Held now c (c ∷ [])) (claim-begins now row copy e) (refl, refl, ground arith)
Held-start now row copy (c ∷ []) (same, busy, held) e =
    absurd (ground (arith, claim-held now c busy held, e, same))
Held-start now row copy (_ ∷ _ ∷ _) held e = held

-- A worker that leaves was the only one.
pub Held-alone :
    (now : ℕ) (row copy : WebhookDelivery) (others more : List WebhookDelivery)
    → Held now row (others ++ copy ∷ more)
    → (others ++ more ≡ []) × (row ≡ copy) × (copy.status ≡ processing)
Held-alone now row copy [] [] (same, busy, held) = (refl, same, busy)
Held-alone now row copy [] (_ ∷ _) held = absurd held
Held-alone now row copy (_ ∷ []) more held = absurd held
Held-alone now row copy (_ ∷ _ ∷ _) more held = absurd held

Held-left :
    (now : ℕ) (row row' copy : WebhookDelivery) (others more : List WebhookDelivery)
    → Held now row (others ++ copy ∷ more)
    → Held now row' (others ++ more)
Held-left now row row' copy others more held =
    subst (Held now row') (sym (Held-alone now row copy others more held).0) tt

Held-pass :
    (now later : ℕ) (row : WebhookDelivery) (flights : List WebhookDelivery)
    → Held now row flights
    → MayPass in_time later flights
    → Held later row flights
Held-pass now later row [] held may = tt
Held-pass now later row (c ∷ []) (same, busy, held) may = (same, busy, may.0)
Held-pass now later row (_ ∷ _ ∷ _) held may = held

Step-Exclusive : (s t : Delivering) → Exclusive s → Step in_time s t → Exclusive t
Step-Exclusive s t held (start now row copy flights e) = Held-start now row copy flights held e
Step-Exclusive s t held (finish now row copy others more outcome caught) =
    Held-left now row (save (settle now outcome copy) row) copy others more held
Step-Exclusive s t held (die now row copy others more) = Held-left now row row copy others more held
Step-Exclusive s t held (pass now later row flights after may) =
    Held-pass now later row flights held may

pub Reachable-Exclusive : (s : Delivering) → Reachable in_time s → Exclusive s
Reachable-Exclusive s (new now row e none_yet) = tt
Reachable-Exclusive s (next r s2 earlier step) =
    Step-Exclusive r s2 (Reachable-Exclusive r earlier) step

length-Held :
    (now : ℕ) (row : WebhookDelivery) (flights : List WebhookDelivery)
    → Held now row flights
    → length flights ≤ 1
length-Held now row [] held = omega arith
length-Held now row (_ ∷ []) held = omega arith
length-Held now row (_ ∷ _ ∷ _) held = absurd held

-- Where every worker is done within fifteen minutes, at most one is at a delivery at a time.
pub flights-bounded : (s : Delivering) → Reachable in_time s → length s.flights ≤ 1
flights-bounded s reach = length-Held s.now s.row s.flights (Reachable-Exclusive s reach)
