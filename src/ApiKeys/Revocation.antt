-- ===== src/ApiKeys/Revocation.antt =====
-- A revoked key stays revoked.
use django_boilderplate.ApiKeys.RoundTrip.{answer, authenticate_lem, key_accepts_revoked}
use django_boilderplate.Audit.{record_audit}
use django_boilderplate.Security.Events.{record_event}
use django_boilderplate.ApiKeys.{
  revoke_key, revoke_found, has_key_pk, authenticate, revoke, has_prefix, is_marked, prefix_of,
}
use django_boilderplate.Models.ApiKeys.{ApiKey}
use django_boilderplate.World.{enter, db-atomic_ok, atomic-ok, ok, World}
use django_boilderplate.Common.Network.{Request}
use django_boilderplate.Env.{Env}
use django_boilderplate.Prelude.{
  update_where, is_none, inr, inl, first-update_where, Option-cases, Bool-cases, ==-refl, some,
  if◌then◌else◌, first, ℕ, none, Option, List, ◌≡◌, ◌∙◌, refl, arith, ap, String,
}

-- The rows that `revoke` leaves.
abbrev revoked_rows : ℕ → ApiKey → List ApiKey → List ApiKey
revoked_rows now key rows =
    if is_none key.revoked_at
    then update_where (has_key_pk key.pk) (λ k. record k { revoked_at = some now }) rows
    else rows

module _ (env : Env) (key : ApiKey) (actor : Option ℕ) (request : Option Request) (w : World)
    (known : first (has_key_pk key.pk) w.db.api_keys ≡ some key) where
  revoke_found_ok : (revoke_found env key.pk actor request (enter w)).0 ≡ ok tt
  unfolding revoke_found revoke_key record_event record_audit
  revoke_found_ok = simp known (ground arith)

  keys-revoke_found :
      (revoke_found env key.pk actor request (enter w)).1.db.api_keys
      ≡ revoked_rows w.now key w.db.api_keys
  unfolding revoke_found revoke_key record_event record_audit
  keys-revoke_found =
      simp known (elim (Bool-cases (is_none key.revoked_at)) [ inl e ↦ simp e | inr e ↦ simp e ])

  revoke-result : (revoke env key.pk actor request w).0 ≡ ok tt
  unfolding revoke
  revoke-result = atomic-ok (revoke_found env key.pk actor request) w tt revoke_found_ok

  keys-revoke :
      (revoke env key.pk actor request w).1.db.api_keys ≡ revoked_rows w.now key w.db.api_keys
  unfolding revoke
  keys-revoke =
      ap (λ db. db.api_keys)
        (db-atomic_ok (revoke_found env key.pk actor request) w tt revoke_found_ok)
      ∙ keys-revoke_found

-- The row of a prefix that was found before is found revoked.
found-revoked_rows :
    (now : ℕ) (key : ApiKey) (prefix : String) (rows : List ApiKey)
    → first (has_prefix prefix) rows ≡ some key
    → (key' : ApiKey) × (at : ℕ) × (first (has_prefix prefix) (revoked_rows now key rows)
        ≡ some key')
      × (key'.revoked_at ≡ some at)
found-revoked_rows now key prefix rows found = elim (Option-cases key.revoked_at) [
  | inl e ↦ (
    record key { revoked_at = some now },
    now,
    simp e (
        first-update_where (has_prefix prefix) (has_key_pk key.pk)
          (λ k. record k { revoked_at = some now }) rows (λ _. refl)
        ∙ simp found (ground (arith, ==-refl key.pk))),
    refl,
  )
  | inr (at, e) ↦ (key, at, simp e found, e)
]

module _ (env : Env) (raw : String) (ip : Option String) (w : World) where
  authenticate_refused :
      (key : ApiKey) (at : ℕ)
      → first (has_prefix (prefix_of env raw)) w.db.api_keys ≡ some key
      → key.revoked_at ≡ some at
      → (authenticate env raw ip w).0 ≡ ok none
  authenticate_refused key at found gone = elim (Bool-cases (is_marked env raw)) [
    | inl e ↦
        authenticate_lem env raw ip w e
        ∙ ap (λ o. ok (answer env w raw o)) found
        ∙ ap (λ b. ok (if b then some key else none)) (key_accepts_revoked env w raw key at gone)
    | inr e ↦ unfold authenticate in simp e
  ]

-- Once a key is revoked, no text that names its prefix authenticates, at any later time, also if
-- it was revoked before.
pub authenticate-revoke :
    (env : Env) (key : ApiKey) (actor : Option ℕ) (request : Option Request) (w : World)
    (raw : String) (ip : Option String) (later : ℕ)
    → first (has_prefix (prefix_of env raw)) w.db.api_keys ≡ some key
    → first (has_key_pk key.pk) w.db.api_keys ≡ some key
    → let (r, w') = revoke env key.pk actor request w in
      (r ≡ ok tt) × ((authenticate env raw ip (record w' { now = later })).0 ≡ ok none)
authenticate-revoke env key actor request w raw ip later found known =
    let w' = (revoke env key.pk actor request w).1 in
    let (key', at, now_found, gone) =
      found-revoked_rows w.now key (prefix_of env raw) w.db.api_keys found in
    (
      revoke-result env key actor request w known,
      authenticate_refused env raw ip (record w' { now = later }) key' at
          (ap (first (has_prefix (prefix_of env raw))) (keys-revoke env key actor request w known)
            ∙ now_found)
          gone,
    )
