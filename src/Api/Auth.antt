-- ===== src/Api/Auth.antt =====
-- The views of apps/api/views/auth.py with the serializers of apps/api/serializers/auth.py, for
-- requests without a user; those of a user who is logged in are in `Account`. The fields of a
-- request are parsed by the framework: `none` is a request that they refuse.
use django_boilderplate.Models.Authentication.{UserSession}
use django_boilderplate.Common.Errors.{RestResponse}
use django_boilderplate.Common.Network.{Request}
use django_boilderplate.Common.Logging.{end, text, field, dict, Value}
use django_boilderplate.Middleware.{validate_refresh}
use django_boilderplate.Authentication.Login.{login}
use django_boilderplate.Api.Responses.{sent, success_response, answered, checked, user_data}
use django_boilderplate.Authentication.Accounts.Closing.{confirm_deletion}
use django_boilderplate.Authentication.Accounts.Identity.{confirm_email_change}
use django_boilderplate.Authentication.Accounts.Passwords.{reset_password, request_password_reset}
use django_boilderplate.Authentication.Accounts.Registration.{resend_verification, verify_email}
use django_boilderplate.World.{
  authentication_failed, api, serializer_error, or_raise, raise_if, ◌>>◌, pure, ◌>>=◌, Action,
}
use django_boilderplate.Env.{Env}
use django_boilderplate.Models.Accounts.{User}
use django_boilderplate.Prelude.{ℕ, some, not, none, String, Option, Bool}
pub mod Account
pub mod Leaving
pub mod Rotation
pub mod Uniform

-- What the views call of Django and of simplejwt: the login, the logout and the new session key
-- after a change of the password; the pair of tokens for a user; the blacklist and the exchange of
-- a refresh token, of which `false` and `none` are a `TokenError`.
pub record Framework : Type 0 where
  pub login : User → Action (Unit {0})
  pub logout : Action (Unit {0})
  pub update_session_auth_hash : User → Action (Unit {0})
  pub for_user : User → Action (String × String)
  pub blacklist : String → Action Bool
  pub refresh : String → Action (Option (ℕ × Value))

pub record LoginData : Type 0 where
  pub identifier : String
  pub password : String
  pub code : String

pub record ResetData : Type 0 where
  pub token : String
  pub new_password : String

module _ (env : Env) where
  -- `VerifyEmailView.post`
  unfoldable verify_email_post : Option String → Option Request → Action RestResponse
  unfolding verify_email
  verify_email_post parsed request = do
    token ← checked parsed
    verify_email env token request
    pure (answered "verified")

  -- `ResendVerificationView.post`
  unfoldable pub resend_verification_post : Option String → Action RestResponse
  unfolding resend_verification
  resend_verification_post parsed = do
    email ← checked parsed
    resend_verification env email
    pure (sent "If eligible, a verification email will be sent.")

  -- `PasswordResetRequestView.post`
  unfoldable pub password_reset_post : Option String → Action RestResponse
  unfolding request_password_reset
  password_reset_post parsed = do
    email ← checked parsed
    request_password_reset env email
    pure (sent "If eligible, a password reset email will be sent.")

  -- `PasswordResetConfirmSerializer`
  unfoldable validate_reset : Option ResetData → Action ResetData
  validate_reset parsed = do
    data_ ← checked parsed
    raise_if (not (env.is_valid_password none data_.new_password)) serializer_error
    pure data_

  -- `PasswordResetConfirmView.post`
  unfoldable password_reset_confirm_post : Option ResetData → Option Request → Action RestResponse
  unfolding validate_reset reset_password
  password_reset_confirm_post parsed request = do
    data_ ← validate_reset parsed
    reset_password env data_.token data_.new_password request
    pure (answered "password_reset")

  -- `ConfirmEmailChangeView.post`
  unfoldable confirm_email_change_post : Option String → Option Request → Action RestResponse
  unfolding confirm_email_change
  confirm_email_change_post parsed request = do
    token ← checked parsed
    confirm_email_change env token request
    pure (answered "email_changed")

  -- `DeleteAccountConfirmView.post`
  unfoldable delete_account_confirm_post : Option String → Option Request → Action RestResponse
  unfolding confirm_deletion
  delete_account_confirm_post parsed request = do
    token ← checked parsed
    confirm_deletion env token request
    pure (answered "deleted")

  module _ (django : Framework) where
    -- what `LoginView` answers
    unfoldable login_response : User → UserSession → (access refresh : String) → Action RestResponse
    unfolding user_data
    login_response user session access refresh = do
      shown ← user_data env (some user.pk) user
      pure (
          success_response
            (dict (
              field "user" shown (
                field "access" (text access) (
                  field "refresh" (text refresh)
                    (field "session_id" (text session.identifier) end)))))
            200)

    -- `LoginView.post`
    unfoldable login_post : Option LoginData → Request → Action RestResponse
    unfolding login login_response
    login_post parsed request = do
      data_ ← checked parsed
      entered ← login env django.login request data_.identifier data_.password data_.code
      pair ← django.for_user entered.0
      login_response entered.0 entered.1 pair.0 pair.1

    -- `RefreshView.post`, with the checks of `StatusAwareTokenRefreshSerializer`
    unfoldable refresh_post : Option String → Action RestResponse
    unfolding validate_refresh
    refresh_post parsed = do
      raw ← checked parsed
      exchanged ← django.refresh raw
      token ← or_raise exchanged (api authentication_failed 401 none)
      validate_refresh token.0
      pure (success_response token.1 200)
