-- ===== src/Security/LoginProtection/Backoff.antt =====
-- The length of a lock as a function of the number of failures: `_lock_seconds`.
use native.Mathlib.Nat.{one-le-pow, pow-le-pow_right}
use django_boilderplate.Prelude.{ℕ, ◌-◌, ◌*◌, ◌^◌, ◌≤◌, ◌<◌, ◌≡◌, min, arith}
use django_boilderplate.Env.{Settings}
use django_boilderplate.Security.LoginProtection.{lock_seconds}

-- The time of a lock before the ceiling is applied.
le-scaled : (b k : ℕ) → b ≤ b * 2 ^ k
le-scaled b k = grind (arith, one-le-pow k 2 (omega arith))

scaled_mono : (b : ℕ) {j k : ℕ} → j ≤ k → b * 2 ^ j ≤ b * 2 ^ k
scaled_mono b h = grind (arith, pow-le-pow_right {n = 2} (omega arith) h)

-- Below the limit there is no lock.
pub lock_seconds-below : (s : Settings) (n : ℕ) → n < s.login_max_attempts → lock_seconds s n ≡ 0
unfolding lock_seconds
lock_seconds-below s n h = ground arith

-- From LOGIN_MAX_ATTEMPTS failures on, a lock is at least the smaller of LOGIN_LOCKOUT_SECONDS and
-- LOGIN_MAX_BACKOFF_SECONDS and at most the latter.
pub lock_seconds_bounds :
    (s : Settings) (n : ℕ)
    → s.login_max_attempts ≤ n
    → (min s.login_lockout_seconds s.login_max_backoff_seconds ≤ lock_seconds s n)
      × (lock_seconds s n ≤ s.login_max_backoff_seconds)
unfolding lock_seconds
lock_seconds_bounds s n h =
    ground (arith, le-scaled s.login_lockout_seconds (min (n - s.login_max_attempts) 6))

-- More failures never mean a shorter lock.
pub lock_seconds_mono : (s : Settings) (m n : ℕ) → m ≤ n → lock_seconds s m ≤ lock_seconds s n
unfolding lock_seconds
lock_seconds_mono s m n h = ground (
  arith,
  scaled_mono s.login_lockout_seconds {j = min (m - s.login_max_attempts) 6}
      {k = min (n - s.login_max_attempts) 6} (omega arith),
)
