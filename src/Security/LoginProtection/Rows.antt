-- ===== src/Security/LoginProtection/Rows.antt =====
-- What one failure does to the table of throttle rows.
use django_boilderplate.Models.Accounts.{later_than}
use django_boilderplate.Prelude.{
  ◌||◌, ◌&&◌, is_some-first, inr, inl, first-passes, eq_iff, false, true, Bool, Option-cases, ℕ,
  ◌≡◌, refl, String, not, none, some, List, [], ◌∷◌, ◌++◌, arith, ◌==◌, first, exists, update_where,
}
use django_boilderplate.Env.{Env, Settings}
use django_boilderplate.Models.Security.{LoginThrottleState}
use django_boilderplate.World.{World, ok}
use django_boilderplate.Security.LoginProtection.{
  text_in, Dimension, lock_seconds, failed_row, new_row, has_key, is_locking, longest_lock,
  state_key, register_row,
}

-- The whole seconds that `check` reports are zero exactly when no row of the hashes is locked.
pub longest_lock-positive :
    (now : ℕ) (hashes : List String) (rows : List LoginThrottleState)
    → not (longest_lock now hashes rows == 0) ≡ exists (is_locking now hashes) rows
unfolding longest_lock
longest_lock-positive now hashes [] = refl
longest_lock-positive now hashes (r ∷ rows) = ground (arith, longest_lock-positive now hashes rows)

-- The row that a failure starts from, and the table with that row.
abbrev pub stored : Settings → ℕ → String → List LoginThrottleState → LoginThrottleState
stored s now key rows = elim (first (has_key key) rows) [ some r ↦ r | none ↦ new_row s now key ]

abbrev pub with_row : Settings → ℕ → String → List LoginThrottleState → List LoginThrottleState
with_row s now key rows = elim (first (has_key key) rows) [
  | some _ ↦ rows
  | none ↦ rows ++ new_row s now key ∷ []
]

abbrev pub failed_table : Settings → ℕ → String → List LoginThrottleState → List LoginThrottleState
failed_table s now key rows =
    let r = failed_row s now (stored s now key rows) in
    update_where (has_key r.dimension_hash) (λ _. r) (with_row s now key rows)

module _ (env : Env) (d : Dimension) (w : World) where
  abbrev pub row : LoginThrottleState
  row = failed_row env.settings w.now (stored env.settings w.now (state_key env d) w.db.throttles)

  pub register_row-result :
      (register_row env d w).0 ≡ ok (lock_seconds env.settings row.attempt_count)
  unfolding register_row
  register_row-result = ground arith

  pub throttles-register_row :
      (register_row env d w).1.db.throttles
      ≡ failed_table env.settings w.now (state_key env d) w.db.throttles
  unfolding register_row
  throttles-register_row = ground arith

  pub now-register_row : (register_row env d w).1.now ≡ w.now
  unfolding register_row
  now-register_row = ground arith

abbrev pub failure_lock : Settings → ℕ → String → List LoginThrottleState → ℕ
failure_lock s now key rows =
    lock_seconds s (failed_row s now (stored s now key rows)).attempt_count

hash-stored :
    (s : Settings) (now : ℕ) (key : String) (rows : List LoginThrottleState)
    → (stored s now key rows).dimension_hash ≡ key
hash-stored s now key rows = elim (Option-cases (first (has_key key) rows)) [
  | inl e ↦ rw (e, stored)
  | inr (r, e) ↦ ground (arith, first-passes (has_key key) rows e, eq_iff r.dimension_hash key)
]

-- Rows of the key are replaced by `new`; a key outside `hs` is not counted twice.
exists-replace :
    (now : ℕ) (k : String) (hs : List String) (new : LoginThrottleState)
    (rows : List LoginThrottleState)
    → text_in k hs ≡ false
    → new.dimension_hash ≡ k
    → exists (is_locking now (k ∷ hs)) (update_where (has_key k) (λ _. new) rows) ≡ (
        exists (has_key k) rows && later_than now new.locked_until
        || exists (is_locking now hs) rows)
exists-replace now k hs new [] h e = refl
exists-replace now k hs new (r ∷ rows) h e = ground (
  arith,
  exists-replace now k hs new rows h e,
  eq_iff k r.dimension_hash,
  eq_iff r.dimension_hash k,
  eq_iff k k,
)

pub exists-append :
    (p : LoginThrottleState → Bool) (r : LoginThrottleState) (rows : List LoginThrottleState)
    → exists p (rows ++ r ∷ []) ≡ (exists p rows || p r)
exists-append p r [] = ground arith
exists-append p r (x ∷ rows) = ground (arith, exists-append p r rows)

module _ (s : Settings) (now : ℕ) (key : String) (rows : List LoginThrottleState) where
  pub exists-with_row : exists (has_key key) (with_row s now key rows) ≡ true
  exists-with_row = elim (Option-cases (first (has_key key) rows)) [
    | inl e ↦ rw (e, with_row) (rw exists-append (ground (arith, eq_iff key key)))
    | inr (r, e) ↦ rw (e, with_row) (ground (arith, is_some-first (has_key key) rows))
  ]

  pub locking-with_row :
      (hs : List String)
      → exists (is_locking now hs) (with_row s now key rows) ≡ exists (is_locking now hs) rows
  locking-with_row hs = elim (Option-cases (first (has_key key) rows)) [
    | inl e ↦ rw (e, with_row) (rw exists-append (ground arith))
    | inr (r, e) ↦ rw (e, with_row)
  ]

  pub hash-failed_row : (failed_row s now (stored s now key rows)).dimension_hash ≡ key
  unfolding failed_row
  hash-failed_row = hash-stored s now key rows

  pub later-failed_row :
      later_than now (failed_row s now (stored s now key rows)).locked_until
      ≡ not (failure_lock s now key rows == 0)
  unfolding failed_row
  later-failed_row = ground arith

  -- One more failure: the key is locked as its lock says, the others as before.
  pub locking-failed_table :
      (hs : List String)
      → text_in key hs ≡ false
      → exists (is_locking now (key ∷ hs)) (failed_table s now key rows)
        ≡ (not (failure_lock s now key rows == 0) || exists (is_locking now hs) rows)
  locking-failed_table hs h = ground (
    arith,
    exists-replace now key hs (failed_row s now (stored s now key rows)) (with_row s now key rows),
    hash-failed_row,
    exists-with_row,
    locking-with_row hs,
    later-failed_row,
  )
