-- ===== src/Middleware.antt =====
-- The middleware of apps/authentication/middleware.py and common/middleware/request_id.py, and the
-- checks of the account in apps/authentication/jwt.py.
use Prim.Native.Char.{code}
use django_boilderplate.World.Monad.{◌>>◌}
use django_boilderplate.Authentication.Accounts.{is_user}
use django_boilderplate.Models.Accounts.{can_authenticate_now, User}
use django_boilderplate.Env.{Env}
use django_boilderplate.Models.Authentication.{is_revoked, UserSession}
use django_boilderplate.World.{
  authentication_failed, api, or_raise, raise_if, when, gets, ◌>>=◌, pure, ok, World, Action,
}
use django_boilderplate.Security.LoginProtection.{second}
use django_boilderplate.Prelude.{
  ◌∷◌, ◌||◌, ◌==◌, ◌+◌, ◌*◌, ◌&&◌, ℕ, update_where, true, text_length, str_eq, some, not, none, ltb,
  leb, if◌then◌else◌, first, false, delete_where, [], String, Option, Bool,
}
use django_boilderplate.Authentication.Sessions.{current}
pub mod Flushing
pub mod RequestIds

abbrev pub touch_interval : ℕ
touch_interval = 300 * second

-- `request.session.flush()`, for the key of the session
abbrev pub flush_key : Option String → Action (Unit {0})
flush_key none w = (ok tt, w)
flush_key (some key) w = (
  ok tt,
  record w {
    session_key = none;
    db = record w.db { sessions = delete_where (λ s. str_eq s.session_key key) w.db.sessions };
  },
)

abbrev pub flush : Action (Unit {0})
flush w = flush_key w.session_key w

-- `user_session.save(update_fields=["last_activity_at"])`, a column with `auto_now`
abbrev pub touch_session : UserSession → Action (Unit {0})
touch_session s w = (
  ok tt,
  record w {
    db = record w.db {
      user_sessions =
          update_where (λ x. x.pk == s.pk) (λ x. record x { last_activity_at = w.now })
            w.db.user_sessions;
    };
  },
)

-- the two branches for the row of the session
unfoldable pub keep_session : Option UserSession → Action (Unit {0})
keep_session none = pure tt
keep_session (some s) = do
  now ← gets (λ w. w.now)
  if is_revoked s
      then flush
      else when (ltb (s.last_activity_at + touch_interval) now) (touch_session s)

-- `session_key` of a request is neither missing nor empty
abbrev pub has_session : World → Bool
has_session w = elim w.session_key [ none ↦ false | some key ↦ not (str_eq key "") ]

module _ (env : Env) where
  -- what `UserSessionMiddleware` does for a user who is logged in, before the request goes on
  unfoldable pub check_session : User → Action (Unit {0})
  unfolding keep_session
  check_session user = do
    available ← gets (λ w. can_authenticate_now w.now w.db.bans user)
    found ← gets (λ w. current env w)
    if available then keep_session found else flush

  unfoldable pub prepare : Option User → Action (Unit {0})
  unfolding check_session
  prepare none = pure tt
  prepare (some user) = do present ← gets has_session; when present (check_session user)

  -- `UserSessionMiddleware.__call__`
  unfoldable user_session_middleware : {A : Type 0} → Option User → Action A → Action A
  unfolding prepare
  user_session_middleware user get_response = prepare user >> get_response

-- `ensure_account_available`, for the user of the row that is read now
unfoldable ensure_account_available : User → Action (Unit {0})
ensure_account_available user = do
  available ← gets (λ w. can_authenticate_now w.now w.db.bans user)
  raise_if (not available) (api authentication_failed 401 none)

-- the end of `StatusAwareTokenRefreshSerializer.validate`: the user of the new access token
unfoldable pub validate_refresh : (user_id : ℕ) → Action (Unit {0})
unfolding ensure_account_available
validate_refresh user_id = do
  found ← gets (λ w. first (is_user user_id) w.db.users)
  user ← or_raise found (api authentication_failed 401 none)
  ensure_account_available user

-- the classes of the pattern `VALID_REQUEST_ID`
abbrev is_alphanumeric : ℕ → Bool
is_alphanumeric c = (leb 65 c && leb c 90) || ((leb 97 c && leb c 122) || (leb 48 c && leb c 57))

abbrev pub is_id_character : ℕ → Bool
is_id_character c = is_alphanumeric c || (c == 46 || (c == 95 || (c == 58 || c == 45)))

unfoldable pub all_characters : (ℕ → Bool) → String → Bool
all_characters p String.[] = true
all_characters p (String.◌∷◌ c s) = p (code c) && all_characters p s

unfoldable pub is_request_id : String → Bool
unfolding all_characters text_length
is_request_id String.[] = false
is_request_id (String.◌∷◌ c s) =
    is_alphanumeric (code c) && (all_characters is_id_character s && leb (text_length s) 63)

-- the identifier that `RequestIDMiddleware` gives the request; `fresh` is `str(uuid.uuid4())`
unfoldable pub chosen_id : (incoming : String) → (fresh : String) → String
unfolding is_request_id
chosen_id incoming fresh = if is_request_id incoming then incoming else fresh
