-- ===== src/Security/LoginProtection.antt =====
-- `LoginProtectionService` of apps/security/services.py, with its two stores: the table of
-- throttle rows, and the cache where Redis is enabled.
pub mod Backoff
pub mod Rows
pub mod Lockout
pub mod Counters
pub mod Attempts
use Prim.Native.String.{◌++◌ as cat}
use django_boilderplate.Prelude.{
  ℕ, ◌+◌, ◌-◌, ◌*◌, ◌/◌, ◌^◌, min, max, String, Bool, true, false, not, ◌&&◌, Option, none, some,
  List, [], ◌∷◌, ◌++◌, map, ltb, leb, ◌==◌, str_eq, if◌then◌else◌, first, delete_where,
  update_where, exists,
}
use django_boilderplate.Env.{Env, Settings}
use django_boilderplate.Models.Accounts.{later_than}
use django_boilderplate.Models.Security.{LoginThrottleState}
use django_boilderplate.World.{
  ◌>>=◌, ◌>>◌, Action, World, Db, CacheEntry, ok, gets, pure, atomic, modify_db,
}

-- microseconds in a second
abbrev pub second : ℕ
second = 1000000

pub record LockoutState : Type 0 where
  pub locked : Bool
  pub retry_after : ℕ
  pub account_locked : Bool

-- The three counters of an attempt, with the digests that their texts hold.
pub data Dimension : Type 0 where
  by_id by_ip : String → Dimension
  combo : String → String → Dimension

abbrev dimension_text : Dimension → String
dimension_text (by_id h) = cat "id:" h
dimension_text (by_ip h) = cat "ip:" h
dimension_text (combo h g) = cat "combo:" (cat h (cat ":" g))

-- `dimension.startswith("id:")`
abbrev pub is_account : Dimension → Bool
is_account (by_id _) = true
is_account _ = false

-- `LockoutState(bool(longest), longest, bool(account_longest))`
abbrev pub lockout : ℕ → ℕ → LockoutState
lockout longest account_longest = record {
  locked = not (longest == 0);
  retry_after = longest;
  account_locked = not (account_longest == 0);
}

abbrev pub text_in : String → List String → Bool
text_in k = exists (λ j. str_eq j k)

-- `LOGIN_LOCKOUT_SECONDS * 2 ** exponent`, capped
unfoldable pub lock_seconds : Settings → ℕ → ℕ
lock_seconds s attempts =
    if ltb attempts s.login_max_attempts
    then 0
    else min (s.login_lockout_seconds * 2 ^ min (attempts - s.login_max_attempts) 6)
        s.login_max_backoff_seconds

-- One pass of the loops over the dimensions, with the lock that a dimension now has.
abbrev pub longest_after : ℕ → ℕ → ℕ
longest_after lock longest = if lock == 0 then longest else max longest lock

unfoldable pub register_each : (Dimension → Action ℕ) → List Dimension → ℕ → ℕ → Action LockoutState
register_each register [] longest account_longest = pure (lockout longest account_longest)
register_each register (d ∷ ds) longest account_longest = do
  lock ← register d
  register_each register ds (longest_after lock longest)
      (if is_account d then longest_after lock account_longest else account_longest)

-- the table

-- The row of a dimension after one more failure at `now`.
unfoldable pub failed_row : Settings → ℕ → LoginThrottleState → LoginThrottleState
unfolding lock_seconds
failed_row s now state =
    let attempts = (if leb state.expires_at now then 0 else state.attempt_count) + 1 in
    let lock = lock_seconds s attempts in
    record state {
      attempt_count = attempts;
      locked_until = if lock == 0 then none else some (now + lock * second);
      expires_at = now + s.login_max_backoff_seconds * second;
    }

-- The row that `get_or_create` inserts.
abbrev pub new_row : Settings → ℕ → String → LoginThrottleState
new_row s now key = record {
  dimension_hash = key;
  attempt_count = 0;
  locked_until = none;
  expires_at = now + s.login_max_backoff_seconds * second;
}

abbrev pub has_key : String → LoginThrottleState → Bool
has_key key r = str_eq r.dimension_hash key

-- `get_or_create`
unfoldable get_or_create_row : Settings → String → Action LoginThrottleState
get_or_create_row s key w = elim (first (has_key key) w.db.throttles) [
  | some state ↦ (ok state, w)
  | none ↦
      let state = new_row s w.now key in
      (ok state, record w { db = record w.db { throttles = w.db.throttles ++ state ∷ [] } })
]

abbrev save_row : LoginThrottleState → Db → Db
save_row r db = record db {
  throttles = update_where (has_key r.dimension_hash) (λ _. r) db.throttles;
}

-- whole seconds left of a lock, at least one
abbrev pub seconds_left : ℕ → Option ℕ → ℕ
seconds_left now none = 0
seconds_left now (some t) = max 1 ((t - now) / second)

abbrev pub is_locking : ℕ → List String → LoginThrottleState → Bool
is_locking now hashes r = text_in r.dimension_hash hashes && later_than now r.locked_until

unfoldable pub longest_lock : ℕ → List String → List LoginThrottleState → ℕ
longest_lock now hashes [] = 0
longest_lock now hashes (r ∷ rows) =
    let rest = longest_lock now hashes rows in
    if is_locking now hashes r then max (seconds_left now r.locked_until) rest else rest

-- the cache

abbrev is_current : ℕ → String → CacheEntry → Bool
is_current now key e = str_eq e.key key && ltb now e.expires

-- `cache.get(key)`
abbrev cache_get : String → World → Option CacheEntry
cache_get key w = first (is_current w.now key) w.cache

-- `cache.set(key, value, timeout=seconds)`
abbrev cache_set : String → ℕ → ℕ → Action (Unit {0})
cache_set key value timeout w = (
  ok tt,
  record w {
    cache =
        record { key = key; value = value; expires = w.now + timeout * second }
        ∷ delete_where (λ e. str_eq e.key key) w.cache;
  },
)

-- `cache.add`, and on an entry that is there `cache.incr`, which keeps the expiry. The fall-back
-- on the `ValueError` of `incr` is for an entry that goes in between.
unfoldable count_attempt : Settings → String → Action ℕ
count_attempt s key w = elim (cache_get key w) [
  | none ↦ (cache_set key 1 s.login_max_backoff_seconds >> pure 1) w
  | some e ↦ (
    ok (e.value + 1),
    record w {
      cache = record e { value = e.value + 1 } ∷ delete_where (λ f. str_eq f.key key) w.cache;
    },
  )
]

-- `ttl or settings.LOGIN_LOCKOUT_SECONDS`, where the cache can tell the time left
abbrev cached_lock : Settings → World → String → ℕ
cached_lock s w key = elim (cache_get key w) [
  | none ↦ 0
  | some e ↦
      let left = (e.expires - w.now) / second in
      if s.cache_has_ttl && not (left == 0) then left else s.login_lockout_seconds
]

unfoldable longest_cached : Settings → World → List String → ℕ → ℕ
longest_cached s w [] acc = acc
longest_cached s w (key ∷ keys) acc = longest_cached s w keys (max acc (cached_lock s w key))

module _ (env : Env) where
  -- `_digest`
  unfoldable pub digest : String → String
  digest value = env.sha256 (env.casefold (env.strip value))

  -- `ip_address or "unknown"`
  abbrev pub ip_text : Option String → String
  ip_text none = "unknown"
  ip_text (some ip) = if str_eq ip "" then "unknown" else ip

  -- `_dimensions`
  unfoldable pub dimensions : String → Option String → List Dimension
  unfolding digest
  dimensions identifier ip =
      let h = digest identifier in let g = digest (ip_text ip) in by_id h ∷ by_ip g ∷ combo h g ∷ []

  -- `_state_key`
  unfoldable pub state_key : Dimension → String
  state_key d = env.sha256 (cat "login-protection:" (dimension_text d))

  abbrev lock_key : Dimension → String
  lock_key d = cat "login-protection:lock:" (dimension_text d)

  abbrev attempts_key : Dimension → String
  attempts_key d = cat "login-protection:attempts:" (dimension_text d)

  -- `_check_database`
  unfoldable check_database : List Dimension → Action LockoutState
  unfolding state_key longest_lock
  check_database ds = gets (λ w. lockout (longest_lock w.now (map state_key ds) w.db.throttles) 0)

  -- `_check_cache`
  unfoldable check_cache : List Dimension → Action LockoutState
  unfolding longest_cached
  check_cache ds = gets (λ w. lockout (longest_cached env.settings w (map lock_key ds) 0) 0)

  unfoldable pub check : String → Option String → Action LockoutState
  unfolding dimensions check_database check_cache
  check identifier ip =
      let ds = dimensions identifier ip in
      if env.settings.redis_enabled then check_cache ds else check_database ds

  -- the body of the loop of `_register_database_failure`
  unfoldable pub register_row : Dimension → Action ℕ
  unfolding state_key get_or_create_row failed_row lock_seconds
  register_row d = atomic do
    state ← get_or_create_row env.settings (state_key d)
    now ← gets (λ w. w.now)
    let state' = failed_row env.settings now state
    modify_db (save_row state')
    pure (lock_seconds env.settings state'.attempt_count)

  -- the body of the loop of `_register_cache_failure`
  unfoldable register_cached : Dimension → Action ℕ
  unfolding count_attempt lock_seconds
  register_cached d = do
    attempts ← count_attempt env.settings (attempts_key d)
    let lock = lock_seconds env.settings attempts
    (if lock == 0 then pure tt else cache_set (lock_key d) 1 lock)
    pure lock

  unfoldable pub register_failure : String → Option String → Action LockoutState
  unfolding dimensions register_row register_cached register_each
  register_failure identifier ip =
      let ds = dimensions identifier ip in
      if env.settings.redis_enabled
      then register_each register_cached ds 0 0
      else register_each register_row ds 0 0

  unfoldable pub reset : String → Option String → Action (Unit {0})
  unfolding dimensions state_key
  reset identifier ip w =
      let ds = dimensions identifier ip in
      if env.settings.redis_enabled
      then (
        ok tt,
        record w {
          cache =
              delete_where (λ e. text_in e.key (map attempts_key ds ++ map lock_key ds)) w.cache;
        },
      )
      else (
        ok tt,
        record w {
          db = record w.db {
            throttles =
                delete_where (λ r. text_in r.dimension_hash (map state_key ds)) w.db.throttles;
          };
        },
      )
