-- ===== src/Security/LoginProtection/Lockout.antt =====
-- What the throttle table does to later logins.
use django_boilderplate.Security.LoginProtection.Rows.{
  locking-failed_table, now-register_row, longest_lock-positive, throttles-register_row,
  register_row-result, failure_lock,
}
use django_boilderplate.Prelude.{
  ◌∙◌, ap, ◌≢◌, if◌then◌else◌, Option, false, Bool, ℕ, ◌≡◌, refl, String, not, none, some, List, [],
  ◌∷◌, arith, ◌==◌, exists,
}
use django_boilderplate.Env.{Env}
use django_boilderplate.Models.Security.{LoginThrottleState}
use django_boilderplate.World.{err, Result, World, ok}
use django_boilderplate.Security.LoginProtection.{
  lockout, combo, by_id, by_ip, is_account, check, LockoutState, ip_text, longest_after,
  register_failure, digest, register_each, text_in, Dimension, is_locking, longest_lock, state_key,
  register_row,
}

-- The lock that a failure of `d` sets, and the state after it.
abbrev pub lock_of : Env → Dimension → World → ℕ
lock_of env d w = failure_lock env.settings w.now (state_key env d) w.db.throttles

abbrev pub after_failure : Env → Dimension → World → World
after_failure env d w = (register_row env d w).1

register_each-cons :
    (env : Env) (d : Dimension) (ds : List Dimension) (l a : ℕ) (w : World)
    → register_each (register_row env) (d ∷ ds) l a w
      ≡ register_each
          (register_row env)
          ds
          (longest_after (lock_of env d w) l)
          (if is_account d then longest_after (lock_of env d w) a else a)
          (after_failure env d w)
unfolding register_each
register_each-cons env d ds l a w = rw (register_row-result env d w)

locking-register_row :
    (env : Env) (d : Dimension) (hs : List String) (l : ℕ) (w : World)
    → text_in (state_key env d) hs ≡ false
    → exists (is_locking w.now hs) w.db.throttles ≡ not (l == 0)
    → exists
        (is_locking (after_failure env d w).now (state_key env d ∷ hs))
        (after_failure env d w).db.throttles
      ≡ not (longest_after (lock_of env d w) l == 0)
locking-register_row env d hs l w h e =
    rw (throttles-register_row env d w, now-register_row env d w)
      (ground
        (arith, locking-failed_table env.settings w.now (state_key env d) w.db.throttles hs h))

-- No row is counted under no key.
locking-nil : (now : ℕ) (rows : List LoginThrottleState) → exists (is_locking now []) rows ≡ false
locking-nil now [] = refl
locking-nil now (r ∷ rows) = locking-nil now rows

exists-locking-reverse :
    (now : ℕ) (a b c : String) (rows : List LoginThrottleState)
    → exists (is_locking now (a ∷ b ∷ c ∷ [])) rows ≡ exists (is_locking now (c ∷ b ∷ a ∷ [])) rows
exists-locking-reverse now a b c [] = refl
exists-locking-reverse now a b c (r ∷ rows) = ground (arith, exists-locking-reverse now a b c rows)

-- The digests of the three counters of an attempt are different texts.
abbrev pub KeysDiffer : Env → String → Option String → Type 0
KeysDiffer env identifier ip =
    let h = digest env identifier in
    let g = digest env (ip_text env ip) in
    (text_in (state_key env (by_ip g)) (state_key env (by_id h) ∷ []) ≡ false)
    × (text_in (state_key env (combo h g)) (state_key env (by_ip g) ∷ state_key env (by_id h) ∷ [])
        ≡ false)

-- The three steps of a failure: the lock state that is returned, and the table that is left.
module _ (env : Env) (a b c : Dimension) (w : World) where
  abbrev pub w1 : World
  w1 = after_failure env a w

  abbrev pub w2 : World
  w2 = after_failure env b w1

  abbrev pub w3 : World
  w3 = after_failure env c w2

  abbrev pub longest : ℕ
  longest =
      longest_after (lock_of env c w2)
        (longest_after (lock_of env b w1) (longest_after (lock_of env a w) 0))

  abbrev pub account_longest : ℕ
  account_longest =
      let one = if is_account a then longest_after (lock_of env a w) 0 else 0 in
      let two = if is_account b then longest_after (lock_of env b w1) one else one in
      if is_account c then longest_after (lock_of env c w2) two else two

  pub register_each-three :
      register_each (register_row env) (a ∷ b ∷ c ∷ []) 0 0 w
      ≡ (ok (lockout longest account_longest), w3)
  register_each-three =
      register_each-cons env a (b ∷ c ∷ []) _ _ w
      ∙ register_each-cons env b (c ∷ []) _ _ w1
      ∙ register_each-cons env c [] _ _ w2
      ∙ (unfold register_each in refl)

  locking-three :
      text_in (state_key env b) (state_key env a ∷ []) ≡ false
      → text_in (state_key env c) (state_key env b ∷ state_key env a ∷ []) ≡ false
      → exists
          (is_locking w3.now (state_key env c ∷ state_key env b ∷ state_key env a ∷ []))
          w3.db.throttles
        ≡ not (longest == 0)
  locking-three ab abc =
      locking-register_row env c (state_key env b ∷ state_key env a ∷ []) _ w2 abc (
        locking-register_row env b (state_key env a ∷ []) _ w1 ab
          (locking-register_row env a [] 0 w refl (locking-nil w.now w.db.throttles)))

  longest_lock-three :
      text_in (state_key env b) (state_key env a ∷ []) ≡ false
      → text_in (state_key env c) (state_key env b ∷ state_key env a ∷ []) ≡ false
      → not (
          longest_lock w3.now
            (state_key env a ∷ state_key env b ∷ state_key env c ∷ [])
            w3.db.throttles
          == 0)
        ≡ not (longest == 0)
  longest_lock-three ab abc =
      let rows = w3.db.throttles in
      longest_lock-positive w3.now (state_key env a ∷ state_key env b ∷ state_key env c ∷ []) rows
      ∙ exists-locking-reverse w3.now (state_key env a) (state_key env b) (state_key env c) rows
      ∙ locking-three ab abc

abbrev pub locked_of : Result LockoutState → Option Bool
locked_of (ok s) = some s.locked
locked_of (err _) = none

-- Without Redis, and where the digests of the three counters of the attempt differ: registering a
-- failure returns a lock state, and a check of the same identifier and address right after it
-- reports locked exactly if the failure did.
pub check-register_failure :
    (env : Env) (identifier : String) (ip : Option String) (w : World)
    → env.settings.redis_enabled ≡ false
    → KeysDiffer env identifier ip
    → let (r, w') = register_failure env identifier ip w in
      (locked_of r ≢ none) × (locked_of (check env identifier ip w').0 ≡ locked_of r)
unfolding register_failure check
check-register_failure env identifier ip w database differ =
    let h = digest env identifier in
    let g = digest env (ip_text env ip) in
    let a = by_id h in
    let b = by_ip g in
    let c = combo h g in
    simp (database, register_each-three env a b c w)
      ((λ e. cc), ap some (longest_lock-three env a b c w differ.0 differ.1))
