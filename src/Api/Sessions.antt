-- ===== src/Api/Sessions.antt =====
-- apps/api/views/sessions.py: the device sessions of a user.
use django_boilderplate.Notifications.{not_found}
use django_boilderplate.Authentication.Sessions.{revoke, revoke_all}
use django_boilderplate.World.{◌>>◌, or_raise, gets, pure, ◌>>=◌, Action}
use django_boilderplate.Common.Network.{Request}
use django_boilderplate.Common.Logging.{end, number, field, dict}
use django_boilderplate.Api.Responses.{answered, success_response}
use django_boilderplate.Env.{Env}
use django_boilderplate.Common.Errors.{RestResponse}
use django_boilderplate.Models.Authentication.{UserSession}
use django_boilderplate.Prelude.{true, ◌==◌, ◌&&◌, ℕ, str_eq, some, first, false, String, Bool}

abbrev is_own_session : ℕ → String → UserSession → Bool
is_own_session user identifier s = s.user == user && str_eq s.identifier identifier

abbrev count_response : ℕ → RestResponse
count_response n = success_response (dict (field "revoked_count" (number n) end)) 200

module _ (env : Env) where
  -- `UserSessionViewSet.revoke`
  unfoldable revoke_session_post : ℕ → String → Request → Action RestResponse
  unfolding revoke
  revoke_session_post user identifier request = do
    found ← gets (λ w. first (is_own_session user identifier) w.db.user_sessions)
    session ← or_raise found not_found
    revoke env session (some user) (some request)
    pure (answered "revoked")

  -- `UserSessionViewSet.revoke_others`
  unfoldable revoke_others_post : ℕ → Request → Action RestResponse
  unfolding revoke_all success_response
  revoke_others_post user request = do
    n ← revoke_all env user (some user) (some request) true
    pure (count_response n)

  -- `UserSessionViewSet.revoke_all`
  unfoldable revoke_all_post : ℕ → Request → Action RestResponse
  unfolding revoke_all success_response
  revoke_all_post user request = do
    n ← revoke_all env user (some user) (some request) false
    pure (count_response n)
