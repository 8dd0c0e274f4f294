-- ===== src/Security/LoginProtection/Attempts.antt =====
-- The counters behind the locks over a run of failures, and that a reset clears them.
use django_boilderplate.Security.LoginProtection.Rows.{longest_lock-positive}
use django_boilderplate.Security.LoginProtection.Counters.{
  Counts-three, differ-Apart, longest-three, Counts, Apart, attempts,
}
use native.Mathlib.Numerals.{add-one}
use django_boilderplate.Security.LoginProtection.Lockout.{
  check-register_failure, register_each-three, account_longest, locked_of, KeysDiffer, longest, w3,
}
use django_boilderplate.World.{ok, World}
use django_boilderplate.Env.{Env}
use django_boilderplate.Security.LoginProtection.{
  dimensions, reset, longest_lock, is_locking, check, lockout, ip_text, digest, combo, by_ip, by_id,
  register_failure, text_in, state_key, Dimension,
}
use django_boilderplate.Prelude.{
  map, delete_where, zero, suc, ap, Option, ◌==◌, ◌<◌, not, ◌∙◌, ◌≡◌, ◌∷◌, ◌+◌, ℕ, some, refl, leb,
  false, exists, arith, [], String, List,
}
use django_boilderplate.Models.Security.{LoginThrottleState}

-- `n` failures in a row of one identifier from one address.
pub fail_times : Env → String → Option String → ℕ → World → World
fail_times env identifier ip zero w = w
fail_times env identifier ip (suc n) w =
    (register_failure env identifier ip (fail_times env identifier ip n w)).1

-- The counters of an attempt, by what it is made with.
abbrev id_counter : Env → String → Option String → Dimension
id_counter env identifier ip = by_id (digest env identifier)

abbrev ip_counter : Env → String → Option String → Dimension
ip_counter env identifier ip = by_ip (digest env (ip_text env ip))

abbrev combo_counter : Env → String → Option String → Dimension
combo_counter env identifier ip = combo (digest env identifier) (digest env (ip_text env ip))

-- No failure of the identifier, of the address or of the two together counts any more.
abbrev IsUnseen : Env → String → Option String → World → Type 0
IsUnseen env identifier ip w =
    (attempts env w.now (id_counter env identifier ip) w ≡ 0)
    × (attempts env w.now (ip_counter env identifier ip) w ≡ 0)
    × (attempts env w.now (combo_counter env identifier ip) w ≡ 0)

module _ (env : Env) (identifier : String) (ip : Option String)
    (database : env.settings.redis_enabled ≡ false) (differ : KeysDiffer env identifier ip)
    (backoff : 0 < env.settings.login_max_backoff_seconds)
    (lockout_time : 0 < env.settings.login_lockout_seconds) where
  abbrev a : Dimension
  a = id_counter env identifier ip

  abbrev b : Dimension
  b = ip_counter env identifier ip

  abbrev c : Dimension
  c = combo_counter env identifier ip

  register_failure-three :
      (w : World)
      → register_failure env identifier ip w
        ≡ (ok (lockout (longest env a b c w) (account_longest env a b c w)), w3 env a b c w)
  unfolding register_failure
  register_failure-three w = simp database (register_each-three env a b c w)

  apart : Apart (state_key env a) (state_key env b) (state_key env c)
  apart = differ-Apart (state_key env a) (state_key env b) (state_key env c) differ.0 differ.1

  Counts-register_failure :
      (t n : ℕ) (w : World)
      → Counts env a b c t n w
      → Counts env a b c t (suc n) (register_failure env identifier ip w).1
  Counts-register_failure t n w h =
      rw (register_failure-three w, ← add-one n)
        (Counts-three env a b c apart backoff lockout_time t n w h)

  Counts-fail_times :
      (n : ℕ) (w : World)
      → IsUnseen env identifier ip w
      → Counts env a b c w.now n (fail_times env identifier ip n w)
  unfolding fail_times
  Counts-fail_times zero w h = record {
    time = refl;
    first_count = h.0;
    second_count = h.1;
    third_count = h.2;
  }
  Counts-fail_times (suc n) w h =
      Counts-register_failure w.now n (fail_times env identifier ip n w) (Counts-fail_times n w h)

  register_failure-locked :
      (n : ℕ) (w : World)
      → IsUnseen env identifier ip w
      → locked_of (register_failure env identifier ip (fail_times env identifier ip n w)).0
        ≡ some (leb env.settings.login_max_attempts (n + 1))
  register_failure-locked n w h =
      ap (λ r. locked_of r.0) (register_failure-three (fail_times env identifier ip n w))
      ∙ ap some (
          longest-three env a b c apart backoff lockout_time w.now n
            (fail_times env identifier ip n w) (Counts-fail_times n w h))

  -- At one instant, without Redis, with digests that differ and with lock times above zero: of an
  -- identifier and an address that no failure counts against, after `n` failures in a row
  -- the next one, and the check that follows it, report a lock exactly if `n + 1` has reached
  -- LOGIN_MAX_ATTEMPTS.
  pub fail_times-locked :
      (n : ℕ) (w : World)
      → IsUnseen env identifier ip w
      → let w' = fail_times env identifier ip n w in
        let (r, w'') = register_failure env identifier ip w' in
        (locked_of r ≡ some (leb env.settings.login_max_attempts (n + 1)))
        × (locked_of (check env identifier ip w'').0
            ≡ some (leb env.settings.login_max_attempts (n + 1)))
  fail_times-locked n w h =
      let locked = register_failure-locked n w h in
      (
        locked,
        (check-register_failure env identifier ip (fail_times env identifier ip n w) database
              differ).1
            ∙ locked,
      )

-- No row of the deleted keys is left to lock.
locking-delete_where :
    (now : ℕ) (hashes : List String) (rows : List LoginThrottleState)
    → exists (is_locking now hashes) (delete_where (λ r. text_in r.dimension_hash hashes) rows)
      ≡ false
locking-delete_where now hashes [] = refl
locking-delete_where now hashes (r ∷ rows) = ground (arith, locking-delete_where now hashes rows)

longest_lock-delete_where :
    (now : ℕ) (hashes : List String) (rows : List LoginThrottleState)
    → not (longest_lock now hashes (delete_where (λ r. text_in r.dimension_hash hashes) rows) == 0)
      ≡ false
longest_lock-delete_where now hashes rows =
    longest_lock-positive now hashes (delete_where (λ r. text_in r.dimension_hash hashes) rows)
    ∙ locking-delete_where now hashes rows

-- Without Redis: after a reset for an identifier and an address, a check of them reports no lock,
-- whatever was registered before.
pub check-reset :
    (env : Env) (identifier : String) (ip : Option String) (w : World)
    → env.settings.redis_enabled ≡ false
    → locked_of (check env identifier ip (reset env identifier ip w).1).0 ≡ some false
unfolding check reset
check-reset env identifier ip w database = simp database (
    ap some (
      longest_lock-delete_where w.now (map (state_key env) (dimensions env identifier ip))
        w.db.throttles))
