-- ===== src/Api/Auth/Account.antt =====
-- The views of apps/api/views/auth.py for a user who is logged in.
use django_boilderplate.Models.Authentication.{UserSession}
use django_boilderplate.Authentication.Sessions.{revoke, current}
use django_boilderplate.ApiKeys.{text_items}
use django_boilderplate.Authentication.Accounts.{is_username_of_other, get_user}
use django_boilderplate.Authentication.Tokens.{invalid_token_error}
use django_boilderplate.Common.Logging.{end, list, boolean as boolean_value, text, field, dict}
use django_boilderplate.Common.Errors.{RestResponse}
use django_boilderplate.Authentication.Accounts.Passwords.{change_password}
use django_boilderplate.Common.Network.{Request}
use django_boilderplate.Api.Responses.{sent, answered, checked, success_response, user_data}
use django_boilderplate.World.{feature_disabled, api, gets, ◌>>◌, raise_if, ◌>>=◌, pure, Action}
use django_boilderplate.Api.Auth.{serializer_error, Framework}
use django_boilderplate.Authentication.TwoFactor.{
  regenerate_codes, disable, confirm_setup, begin_setup,
}
use django_boilderplate.Authentication.Accounts.Closing.{deactivate, request_deletion}
use django_boilderplate.Models.Accounts.{User}
use django_boilderplate.Authentication.Accounts.Identity.{change_username, request_email_change}
use django_boilderplate.Env.{Env}
use django_boilderplate.Prelude.{
  true, str_eq, some, not, none, if◌then◌else◌, exists, String, Option,
}

pub record PasswordsData : Type 0 where
  pub old_password : String
  pub new_password : String

pub record EmailData : Type 0 where
  pub password : String
  pub new_email : String

pub record DisableData : Type 0 where
  pub code : String
  pub password : String

module _ (env : Env) where
  -- `ChangeEmailView.post`
  unfoldable change_email_post : User → Option EmailData → Action RestResponse
  unfolding request_email_change
  change_email_post user parsed = do
    data_ ← checked parsed
    request_email_change env user data_.password data_.new_email
    pure (sent "A confirmation email will be sent to the new address.")

  -- `ChangeUsernameSerializer`
  unfoldable validate_username : User → Option String → Action String
  validate_username user parsed = do
    username ← checked parsed
    let name = env.strip username
    taken ← gets (λ w. exists (is_username_of_other env user.pk name) w.db.users)
    raise_if taken serializer_error
    pure name

  -- `ChangeUsernameView.post`
  unfoldable change_username_post : User → Option String → Option Request → Action RestResponse
  unfolding validate_username change_username user_data success_response
  change_username_post user parsed request = do
    username ← validate_username user parsed
    changed ← change_username env user username request
    shown ← user_data env (some user.pk) changed
    pure (success_response shown 200)

  -- `DeleteAccountRequestView.post`
  unfoldable delete_account_post : User → Option String → Action RestResponse
  unfolding request_deletion
  delete_account_post user parsed = do
    password ← checked parsed
    request_deletion env user password
    pure (sent "A deletion confirmation email will be sent.")

  -- `TwoFactorSetupView.post`
  unfoldable two_factor_setup_post : User → Option String → Action RestResponse
  unfolding begin_setup success_response
  two_factor_setup_post user parsed = do
    raise_if (not env.settings.enable_two_factor) (api feature_disabled 404 none)
    password ← checked parsed
    setup ← begin_setup env user password
    pure (
        success_response
          (dict (field "secret" (text setup.0) (field "provisioning_uri" (text setup.1) end))) 200)

  -- `TwoFactorConfirmView.post`
  unfoldable two_factor_confirm_post : User → Option String → Option Request → Action RestResponse
  unfolding confirm_setup success_response
  two_factor_confirm_post user parsed request = do
    code ← checked parsed
    codes ← confirm_setup env user code request
    pure (
        success_response
          (dict (
            field "enabled" (boolean_value true)
              (field "recovery_codes" (list (text_items codes)) end)))
          200)

  -- `TwoFactorDisableView.post`
  unfoldable two_factor_disable_post :
      User → Option DisableData → Option Request → Action RestResponse
  unfolding disable
  two_factor_disable_post user parsed request = do
    data_ ← checked parsed
    disable env user data_.password data_.code request
    pure (answered "disabled")

  -- `RecoveryCodeRegenerateView.post`
  unfoldable regenerate_codes_post : User → Option String → Option Request → Action RestResponse
  unfolding regenerate_codes success_response
  regenerate_codes_post user parsed request = do
    code ← checked parsed
    codes ← regenerate_codes env user code request
    pure (success_response (dict (field "recovery_codes" (list (text_items codes)) end)) 200)

  module _ (django : Framework) where
    -- `RefreshToken(raw_refresh).blacklist()`, where the request gives a token
    unfoldable pub drop_refresh : Option String → Action (Unit {0})
    drop_refresh none = pure tt
    drop_refresh (some raw) =
        if str_eq raw ""
        then pure tt
        else do dropped ← django.blacklist raw; raise_if (not dropped) invalid_token_error

    -- `if current: SessionService.revoke(...)`
    unfoldable pub revoke_current : User → Option UserSession → Request → Action (Unit {0})
    unfolding revoke
    revoke_current user none request = pure tt
    revoke_current user (some session) request = revoke env session (some user.pk) (some request)

    -- `LogoutView.post`
    unfoldable pub logout_post : User → Option (Option String) → Request → Action RestResponse
    unfolding drop_refresh revoke_current current
    logout_post user parsed request = do
      raw ← checked parsed
      drop_refresh raw
      session ← gets (current env)
      revoke_current user session request
      django.logout
      pure (answered "logged_out")

    -- `ChangePasswordView.post`
    unfoldable pub change_password_post :
        User → Option PasswordsData → Option Request → Action RestResponse
    unfolding change_password
    change_password_post user parsed request = do
      data_ ← checked parsed
      change_password env user data_.old_password data_.new_password request
      refreshed ← get_user user.pk
      django.update_session_auth_hash refreshed
      pure (answered "password_changed")

    -- `DeactivateAccountView.post`
    unfoldable deactivate_post : User → Option String → Option Request → Action RestResponse
    unfolding deactivate
    deactivate_post user parsed request = do
      password ← checked parsed
      deactivate env user password request
      django.logout
      pure (answered "deactivated")
