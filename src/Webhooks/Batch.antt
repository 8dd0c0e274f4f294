-- ===== src/Webhooks/Batch.antt =====
-- What one dispatch hands out, and that the workers take it.
use django_boilderplate.Env.{Env}
use django_boilderplate.World.{pure, continue, ok, World, Action, ◌>>◌}
use django_boilderplate.Webhooks.{begin_attempt, claim}
use django_boilderplate.Webhooks.Dispatch.{
  dispatch_pending_webhooks, deliver_ids, add_batch, is_stuck, batch, is_retry, is_active_endpoint,
  due_ids, query_pks, is_new,
}
use django_boilderplate.Models.Webhooks.{WebhookDelivery, WebhookEndpoint}
use django_boilderplate.Prelude.{
  if◌then◌else◌, exists-first, first, false, ◌++◌, take_all, exists-take, exists-append, ap, ◌∷◌,
  ◌-◌, ◌+◌, true, take, sym, some, refl, length-take, length-append, arith, ap₂, after, [], ◌≤◌,
  ◌≡◌, ◌∙◌, ◌||◌, ◌==◌, ◌&&◌, ℕ, select, length, exists-select, exists-map, exists, List, Bool,
}

-- a row that waits for a worker
abbrev is_due : ℕ → List WebhookEndpoint → WebhookDelivery → Bool
is_due now endpoints d =
    (is_new d || (is_retry now d || is_stuck now d)) && is_active_endpoint endpoints d.endpoint

abbrev pub has_id : ℕ → List ℕ → Bool
has_id pk ids = exists (λ i. i == pk) ids

length-add_batch : (ids found : List ℕ) → length ids ≤ batch → length (add_batch ids found) ≤ batch
length-add_batch ids found h = omega (
  arith,
  h,
  length-append ids (take (batch - length ids) found),
  length-take (batch - length ids) found,
)

-- Where there is room, a batch takes everything.
add_batch-room :
    (ids found : List ℕ) → length ids + length found ≤ batch → add_batch ids found ≡ ids ++ found
add_batch-room ids found h =
    ap (λ xs. ids ++ xs) (take_all (batch - length ids) found (omega (arith, h)))

has_id-add_batch :
    (pk : ℕ) (ids found : List ℕ)
    → has_id pk (add_batch ids found) ≡ true
    → (has_id pk ids || has_id pk found) ≡ true
has_id-add_batch pk ids found h = ground (
  arith,
  h,
  exists-append (λ i. i == pk) ids (take (batch - length ids) found),
  exists-take (λ i. i == pk) (batch - length ids) found,
)

or_assoc : (x y z : Bool) → ((x || y) || z) ≡ (x || (y || z))
or_assoc true y z = refl
or_assoc false y z = refl

has_id-three :
    (pk : ℕ) (a b c : List ℕ)
    → length a + (length b + length c) ≤ batch
    → has_id pk (add_batch (add_batch (take batch a) b) c)
      ≡ (has_id pk a || (has_id pk b || has_id pk c))
has_id-three pk a b c h =
    let all_a = take_all batch a (omega (arith, h)) in
    let all_b = add_batch-room a b (omega (arith, h)) in
    let all_c = add_batch-room (a ++ b) c (omega (arith, h, length-append a b)) in
    ap (λ xs. has_id pk (add_batch (add_batch xs b) c)) all_a
    ∙ ap (λ xs. has_id pk (add_batch xs c)) all_b
    ∙ ap (has_id pk) all_c
    ∙ exists-append (λ i. i == pk) (a ++ b) c
    ∙ ap (λ x. x || has_id pk c) (exists-append (λ i. i == pk) a b)
    ∙ or_assoc (has_id pk a) (has_id pk b) (has_id pk c)

-- How the tests of the three parts combine.
or_steps :
    (t s f r a : Bool)
    → (t || s) ≡ true
    → (t ≡ true → (f || r) ≡ true)
    → (f ≡ true → a ≡ true)
    → (a || (r || s)) ≡ true
or_steps t s f r a outer inner fresh = ground (arith, outer, inner, fresh)

-- Three queries with one further test, as one query.
exists_three :
    (a b c active key : WebhookDelivery → Bool) (rows : List WebhookDelivery)
    → exists (λ d. ((a d || (b d || c d)) && active d) && key d) rows ≡ (
        exists (λ d. (a d && active d) && key d) rows
        || (exists (λ d. (b d && active d) && key d) rows
            || exists (λ d. (c d && active d) && key d) rows))
exists_three a b c active key [] = refl
exists_three a b c active key (d ∷ rows) = ground (arith, exists_three a b c active key rows)

module _ (now : ℕ) (endpoints : List WebhookEndpoint) (rows : List WebhookDelivery) where
  abbrev found : (WebhookDelivery → Bool) → List ℕ
  found p = query_pks endpoints p rows

  -- One run hands out at most a hundred deliveries.
  length-due_ids : length (due_ids now endpoints rows) ≤ batch
  unfolding due_ids
  length-due_ids =
      length-add_batch _ (found (is_stuck now))
        (length-add_batch _ (found (is_retry now)) (length-take batch (found is_new)))

  has_id-query_pks :
      (p : WebhookDelivery → Bool) (pk : ℕ)
      → has_id pk (found p)
        ≡ exists (λ d. (p d && is_active_endpoint endpoints d.endpoint) && d.pk == pk) rows
  has_id-query_pks p pk =
      exists-map (λ i. i == pk) (λ d. d.pk)
        (select (λ d. p d && is_active_endpoint endpoints d.endpoint) rows)
      ∙ exists-select (λ d. d.pk == pk) (λ d. p d && is_active_endpoint endpoints d.endpoint) rows

  abbrev pub due_row : ℕ → Bool
  due_row pk = exists (λ d. is_due now endpoints d && d.pk == pk) rows

  -- the rows of the three queries together
  due_row-queries :
      (pk : ℕ)
      → due_row pk ≡ (
          has_id pk (found is_new)
          || (has_id pk (found (is_retry now)) || has_id pk (found (is_stuck now))))
  due_row-queries pk =
      exists_three is_new (is_retry now) (is_stuck now)
        (λ d. is_active_endpoint endpoints d.endpoint) (λ d. d.pk == pk) rows
      ∙ ap₂ ◌||◌ (sym (has_id-query_pks is_new pk)) (
          ap₂ ◌||◌ (sym (has_id-query_pks (is_retry now) pk))
            (sym (has_id-query_pks (is_stuck now) pk)))

  -- the number of rows that the three queries find
  abbrev due_count : ℕ
  due_count =
      length (found is_new) + (length (found (is_retry now)) + length (found (is_stuck now)))

  has_id-due_ids :
      (pk : ℕ) → due_count ≤ batch → has_id pk (due_ids now endpoints rows) ≡ due_row pk
  unfolding due_ids
  has_id-due_ids pk few =
      has_id-three pk (found is_new) (found (is_retry now)) (found (is_stuck now)) few
      ∙ sym (due_row-queries pk)

  due_row-due_ids : (pk : ℕ) → has_id pk (due_ids now endpoints rows) ≡ true → due_row pk ≡ true
  unfolding due_ids
  due_row-due_ids pk h =
      let fresh = take batch (found is_new) in
      let retried = add_batch fresh (found (is_retry now)) in
      due_row-queries pk
      ∙ or_steps (has_id pk retried) (has_id pk (found (is_stuck now))) (has_id pk fresh)
          (has_id pk (found (is_retry now))) (has_id pk (found is_new))
          (has_id-add_batch pk retried (found (is_stuck now)) h)
          (has_id-add_batch pk fresh (found (is_retry now)))
          (exists-take (λ i. i == pk) batch (found is_new))

due_row-first :
    (now : ℕ) (endpoints : List WebhookEndpoint) (rows : List WebhookDelivery) (d : WebhookDelivery)
    → first (λ r. r.pk == d.pk) rows ≡ some d
    → is_due now endpoints d ≡ true
    → due_row now endpoints rows d.pk ≡ true
due_row-first now endpoints rows d there due =
    exists-first (λ r. r.pk == d.pk) (is_due now endpoints) rows d there due

append_nil : (xs : List ℕ) → xs ++ [] ≡ xs
append_nil [] = refl
append_nil (x ∷ xs) = ap (λ ys. x ∷ ys) (append_nil xs)

append_assoc : (xs ys zs : List ℕ) → (xs ++ ys) ++ zs ≡ xs ++ (ys ++ zs)
append_assoc [] ys zs = refl
append_assoc (x ∷ xs) ys zs = ap (λ ts. x ∷ ts) (append_assoc xs ys zs)

or_right : (a : Bool) {b : Bool} → b ≡ true → (a || b) ≡ true
or_right true h = refl
or_right false h = h

-- A row that is due is taken by a worker that comes for it, then or later.
claim_due :
    (now later : ℕ) (endpoints : List WebhookEndpoint) (d : WebhookDelivery)
    → is_due now endpoints d ≡ true
    → now ≤ later
    → claim later d ≡ some (begin_attempt later d)
unfolding claim is_new is_retry is_stuck
claim_due now later endpoints d due after = ground (arith, due, after)

-- One run of the dispatch hands out at most a hundred deliveries, each of them due and of an active
-- endpoint.
pub due_ids-due :
    (now : ℕ) (endpoints : List WebhookEndpoint) (rows : List WebhookDelivery) (pk : ℕ)
    → has_id pk (due_ids now endpoints rows) ≡ true
    → (length (due_ids now endpoints rows) ≤ batch) × (due_row now endpoints rows pk ≡ true)
due_ids-due now endpoints rows pk h =
    (length-due_ids now endpoints rows, due_row-due_ids now endpoints rows pk h)

-- `deliver_webhook.delay` as a broker has it: it returns, and the task waits behind the others; `queue`
-- are the deliveries that wait.
pub record Queues (deliver : ℕ → Action (Unit {0})) (queue : World → List ℕ) : Type 0 where
  pub returns : (pk : ℕ) (w : World) → (deliver pk w).0 ≡ ok tt
  pub queued : (pk : ℕ) (w : World) → queue (deliver pk w).1 ≡ queue w ++ pk ∷ []

module _ (deliver : ℕ → Action (Unit {0})) (queue : World → List ℕ)
    (queues : Queues deliver queue) where
  deliver_ids_lem :
      (ids : List ℕ) (w : World)
      → ((deliver_ids deliver ids w).0 ≡ ok tt)
        × (queue (deliver_ids deliver ids w).1 ≡ queue w ++ ids)
  unfolding deliver_ids
  deliver_ids_lem [] w = (refl, sym (append_nil (queue w)))
  deliver_ids_lem (pk ∷ ids) w =
      let w1 = (deliver pk w).1 in
      let (fine, all) = deliver_ids_lem ids w1 in
      let stepped = ap (λ r. continue r (λ _. deliver_ids deliver ids) w1) (queues.returns pk w) in
      (
        ap (λ x. x.0) stepped ∙ fine,
        ap (λ x. queue x.1) stepped
            ∙ all
            ∙ ap (λ q. q ++ ids) (queues.queued pk w)
            ∙ append_assoc (queue w) (pk ∷ []) ids,
      )

  -- Where webhooks are enabled and tasks are queued: if the three queries find no more than a hundred
  -- deliveries, a run of the dispatch returns their number and queues each due one, and a worker that
  -- comes for one of them at that time or later, while its row is as it was, begins an attempt.
  pub due_ids-all :
      (env : Env) (w : World) (later : ℕ) (d : WebhookDelivery)
      → env.settings.enable_webhooks ≡ true
      → due_count w.now w.db.endpoints w.db.deliveries ≤ batch
      → first (λ r. r.pk == d.pk) w.db.deliveries ≡ some d
      → is_due w.now w.db.endpoints d ≡ true
      → w.now ≤ later
      → let (r, w') = dispatch_pending_webhooks env deliver w in
        (r ≡ ok (length (due_ids w.now w.db.endpoints w.db.deliveries)))
        × (has_id d.pk (queue w') ≡ true)
        × (claim later d ≡ some (begin_attempt later d))
  unfolding dispatch_pending_webhooks
  due_ids-all env w later d enabled few there due after =
      let ids = due_ids w.now w.db.endpoints w.db.deliveries in
      let (fine, all) = deliver_ids_lem ids w in
      let w1 = (deliver_ids deliver ids w).1 in
      let hand_out : Action ℕ = deliver_ids deliver ids >> pure (length ids) in
      let goes : dispatch_pending_webhooks env deliver w ≡ (ok (length ids), w1) =
        ap (λ b. (if b then hand_out else pure 0) w) enabled
        ∙ ap (λ r. continue r (λ _. pure (length ids)) w1) fine in
      (
        ap (λ x. x.0) goes,
        ap (λ x. has_id d.pk (queue x.1)) goes
            ∙ ap (has_id d.pk) all
            ∙ exists-append (λ i. i == d.pk) (queue w) ids
            ∙ or_right (has_id d.pk (queue w)) (
                has_id-due_ids w.now w.db.endpoints w.db.deliveries d.pk few
                ∙ due_row-first w.now w.db.endpoints w.db.deliveries d there due),
        claim_due w.now later w.db.endpoints d due after,
      )
