-- ===== src/Security/LoginProtection/Counters.antt =====
-- What the counters of the throttle rows count.
use django_boilderplate.Security.LoginProtection.Backoff.{lock_seconds-below, lock_seconds_bounds}
use django_boilderplate.Security.LoginProtection.Lockout.{
  w2, w1, lock_of, longest, w3, after_failure,
}
use django_boilderplate.World.{World}
use django_boilderplate.Security.LoginProtection.Rows.{
  throttles-register_row, now-register_row, failure_lock, exists-with_row, with_row,
  hash-failed_row, stored, failed_table,
}
use django_boilderplate.Env.{Settings, Env}
use django_boilderplate.Security.LoginProtection.{
  text_in, lock_seconds, new_row, state_key, second, failed_row, Dimension, has_key,
}
use django_boilderplate.Prelude.{
  eq_refl, ap, ◌==◌, ◌<◌, not, leb→le, Bool-cases, ◌∙◌, inr, inl, Option-cases, ◌≡◌, ◌∷◌, ◌+◌, ◌++◌,
  ◌*◌, ℕ, update_where, true, str_eq, some, refl, none, leb, if◌then◌else◌, first, false, exists,
  eq_iff, arith, [], String, List, Bool,
}
use django_boilderplate.Models.Security.{LoginThrottleState}

-- The failures of a key that still count at `now`.
abbrev live_attempts : ℕ → String → List LoginThrottleState → ℕ
live_attempts now key rows = elim (first (has_key key) rows) [
  | none ↦ 0
  | some r ↦ if leb r.expires_at now then 0 else r.attempt_count
]

-- The counter of an attempt that a key has for `now`, in the whole state.
unfoldable pub attempts : Env → ℕ → Dimension → World → ℕ
attempts env now d w = live_attempts now (state_key env d) w.db.throttles

first-replace_self :
    (key : String) (new : LoginThrottleState) (rows : List LoginThrottleState)
    → new.dimension_hash ≡ key
    → exists (has_key key) rows ≡ true
    → first (has_key key) (update_where (has_key key) (λ _. new) rows) ≡ some new
first-replace_self key new [] h e = cc
first-replace_self key new (r ∷ rows) h e =
    ground (arith, first-replace_self key new rows h, eq_iff key key)

first-replace_ne :
    (key j : String) (new : LoginThrottleState) (rows : List LoginThrottleState)
    → new.dimension_hash ≡ key
    → str_eq key j ≡ false
    → first (has_key j) (update_where (has_key key) (λ _. new) rows) ≡ first (has_key j) rows
first-replace_ne key j new [] h e = refl
first-replace_ne key j new (r ∷ rows) h e = ground (
  arith,
  first-replace_ne key j new rows h e,
  eq_iff key j,
  eq_iff r.dimension_hash key,
  eq_iff r.dimension_hash j,
)

first-append :
    (p : LoginThrottleState → Bool) (r : LoginThrottleState) (rows : List LoginThrottleState)
    → p r ≡ false
    → first p (rows ++ r ∷ []) ≡ first p rows
first-append p r [] h = ground arith
first-append p r (x ∷ rows) h = ground (arith, first-append p r rows h)

module _ (s : Settings) (now : ℕ) (key : String) (rows : List LoginThrottleState) where
  pub first-failed_self :
      first (has_key key) (failed_table s now key rows)
      ≡ some (failed_row s now (stored s now key rows))
  first-failed_self = simp (hash-failed_row s now key rows) (
      first-replace_self key (failed_row s now (stored s now key rows)) (with_row s now key rows)
        (hash-failed_row s now key rows) (exists-with_row s now key rows))

  pub first-with_row_ne :
      (j : String)
      → str_eq key j ≡ false
      → first (has_key j) (with_row s now key rows) ≡ first (has_key j) rows
  first-with_row_ne j h = elim (Option-cases (first (has_key key) rows)) [
    | inl e ↦ rw (e, with_row) (first-append (has_key j) (new_row s now key) rows h)
    | inr (r, e) ↦ rw (e, with_row)
  ]

  pub first-failed_ne :
      (j : String)
      → str_eq key j ≡ false
      → first (has_key j) (failed_table s now key rows) ≡ first (has_key j) rows
  first-failed_ne j h = simp (hash-failed_row s now key rows) (
      first-replace_ne key j (failed_row s now (stored s now key rows)) (with_row s now key rows)
        (hash-failed_row s now key rows) h
      ∙ first-with_row_ne j h)

  -- A failure adds one to what still counted, for as long as the ceiling of the locks.
  pub live_attempts-failed_self :
      (t : ℕ)
      → live_attempts t key (failed_table s now key rows) ≡ (
          if leb (now + s.login_max_backoff_seconds * second) t
          then 0
          else live_attempts now key rows + 1)
  unfolding failed_row
  live_attempts-failed_self t = ground (arith, first-failed_self)

  pub lock-live_attempts :
      failure_lock s now key rows ≡ lock_seconds s (live_attempts now key rows + 1)
  unfolding failed_row
  lock-live_attempts = ground arith

module _ (env : Env) (d : Dimension) (t : ℕ) (w : World) (time : w.now ≡ t) where
  pub now-after_failure : (after_failure env d w).now ≡ t
  now-after_failure = now-register_row env d w ∙ time

  pub attempts-after_failure_self :
      0 < env.settings.login_max_backoff_seconds
      → attempts env t d (after_failure env d w) ≡ attempts env t d w + 1
  unfolding attempts
  attempts-after_failure_self h =
      rw (throttles-register_row env d w, time)
        (ground
          (arith, live_attempts-failed_self env.settings t (state_key env d) w.db.throttles t))

  pub attempts-after_failure_ne :
      (e : Dimension)
      → str_eq (state_key env d) (state_key env e) ≡ false
      → attempts env t e (after_failure env d w) ≡ attempts env t e w
  unfolding attempts
  attempts-after_failure_ne e h =
      rw (throttles-register_row env d w, time)
        (ground (
          arith,
          first-failed_ne env.settings t (state_key env d) w.db.throttles (state_key env e) h,
        ))

  pub lock_of-attempts : lock_of env d w ≡ lock_seconds env.settings (attempts env t d w + 1)
  unfolding attempts
  lock_of-attempts = rw time (lock-live_attempts env.settings t (state_key env d) w.db.throttles)

-- All three counters of an attempt stand at `n`.
pub record Counts (env : Env) (a b c : Dimension) (t n : ℕ) (w : World) : Type 0 where
  pub time : w.now ≡ t
  pub first_count : attempts env t a w ≡ n
  pub second_count : attempts env t b w ≡ n
  pub third_count : attempts env t c w ≡ n

-- A lock time is zero exactly below the limit.
lock_seconds-eq_zero :
    (s : Settings) (n : ℕ)
    → 0 < s.login_lockout_seconds
    → 0 < s.login_max_backoff_seconds
    → not (lock_seconds s n == 0) ≡ leb s.login_max_attempts n
lock_seconds-eq_zero s n h k = elim (Bool-cases (leb s.login_max_attempts n)) [
  | inl e ↦ ground (arith, lock_seconds_bounds s n (leb→le s.login_max_attempts n e))
  | inr e ↦ ground (arith, lock_seconds-below s n (ground arith))
]

-- The keys of the counters, pairwise and both ways round.
pub record Apart (i j k : String) : Type 0 where
  pub ij : str_eq i j ≡ false
  pub ji : str_eq j i ≡ false
  pub ik : str_eq i k ≡ false
  pub ki : str_eq k i ≡ false
  pub jk : str_eq j k ≡ false
  pub kj : str_eq k j ≡ false

differ_sym : (i j : String) → str_eq i j ≡ false → str_eq j i ≡ false
differ_sym i j h = ground (arith, eq_iff i j, eq_iff j i, eq_refl i)

pub differ-Apart :
    (i j k : String) → text_in j (i ∷ []) ≡ false → text_in k (j ∷ i ∷ []) ≡ false → Apart i j k
differ-Apart i j k h g =
    let ij : str_eq i j ≡ false = ground arith in
    let ik : str_eq i k ≡ false = ground arith in
    let jk : str_eq j k ≡ false = ground arith in
    record {
      ij = ij;
      ji = differ_sym i j ij;
      ik = ik;
      ki = differ_sym i k ik;
      jk = jk;
      kj = differ_sym j k jk;
    }

module _ (env : Env) (a b c : Dimension)
    (apart : Apart (state_key env a) (state_key env b) (state_key env c))
    (backoff : 0 < env.settings.login_max_backoff_seconds)
    (lockout_time : 0 < env.settings.login_lockout_seconds) (t n : ℕ) (w : World)
    (h : Counts env a b c t n w) where
  pub time_one : (w1 env a b c w).now ≡ t
  time_one = now-after_failure env a t w h.time

  pub time_two : (w2 env a b c w).now ≡ t
  time_two = now-after_failure env b t (w1 env a b c w) time_one

  pub second_then : attempts env t b (w1 env a b c w) ≡ n
  second_then = attempts-after_failure_ne env a t w h.time b apart.ij ∙ h.second_count

  pub third_then : attempts env t c (w2 env a b c w) ≡ n
  third_then =
      attempts-after_failure_ne env b t (w1 env a b c w) time_one c apart.jk
      ∙ attempts-after_failure_ne env a t w h.time c apart.ik
      ∙ h.third_count

  pub Counts-three : Counts env a b c t (n + 1) (w3 env a b c w)
  Counts-three = record {
    time = now-after_failure env c t (w2 env a b c w) time_two;
    first_count =
        attempts-after_failure_ne env c t (w2 env a b c w) time_two a apart.ki
        ∙ attempts-after_failure_ne env b t (w1 env a b c w) time_one a apart.ji
        ∙ attempts-after_failure_self env a t w h.time backoff
        ∙ ap (λ m. m + 1) h.first_count;
    second_count =
        attempts-after_failure_ne env c t (w2 env a b c w) time_two b apart.kj
        ∙ attempts-after_failure_self env b t (w1 env a b c w) time_one backoff
        ∙ ap (λ m. m + 1) second_then;
    third_count =
        attempts-after_failure_self env c t (w2 env a b c w) time_two backoff
        ∙ ap (λ m. m + 1) third_then;
  }

  pub longest-three : not (longest env a b c w == 0) ≡ leb env.settings.login_max_attempts (n + 1)
  longest-three = rw (lock_of-attempts env a t w h.time) (
      rw (lock_of-attempts env b t (w1 env a b c w) time_one) (
        rw (lock_of-attempts env c t (w2 env a b c w) time_two) (
          rw (h.first_count, second_then, third_then)
            (ground (arith, lock_seconds-eq_zero env.settings (n + 1) lockout_time backoff)))))
