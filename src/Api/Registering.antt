-- ===== src/Api/Registering.antt =====
-- `RegisterView` of apps/api/views/auth.py with `RegistrationSerializer` of
-- apps/api/serializers/auth.py. The fields of the request are parsed by the framework: `none` is a
-- request that its fields refuse.
use django_boilderplate.Common.Values.{is_true}
use django_boilderplate.Common.Logging.{boolean as boolean_value}
use django_boilderplate.Authentication.Accounts.{has_username, has_email, normalize_email_address}
use django_boilderplate.Models.Accounts.{User}
use django_boilderplate.Common.Network.{Request}
use django_boilderplate.Authentication.Accounts.Registration.{register_user}
use django_boilderplate.Env.{Env}
use django_boilderplate.World.{
  pure, gets, raise_if, serializer_error, ◌>>◌, or_raise, ◌>>=◌, registration_disabled, Action, api,
  Error,
}
use django_boilderplate.Prelude.{exists, ◌||◌, true, not, none, false, String, Option}
use django_boilderplate.Core.{get}

pub record RegistrationData : Type 0 where
  pub email : String
  pub username : String
  pub password : String
  pub first_name : String
  pub last_name : String

abbrev pub registration_key : String
registration_key = "site.registration_enabled"

abbrev pub registration_closed : Error
registration_closed = api registration_disabled 403 none

module _ (env : Env) where
  -- `serializer.is_valid(raise_exception=True)`: each test ends in the same exception
  unfoldable validate_registration : Option RegistrationData → Action RegistrationData
  validate_registration parsed = do
    data_ ← or_raise parsed serializer_error
    let email = normalize_email_address env data_.email
    let username = env.strip data_.username
    taken ← gets (λ w.
        exists (has_email env email) w.db.users || exists (has_username env username) w.db.users)
    raise_if (taken || not (env.is_valid_password none data_.password)) serializer_error
    pure (record data_ { email = email; username = username })

  -- the rest of `post`, once registration is open
  unfoldable pub register : Option RegistrationData → Option Request → Action User
  unfolding validate_registration register_user
  register parsed request = do
    d ← validate_registration parsed
    register_user env d.email d.username d.password d.first_name d.last_name request

  -- `RegisterView.post`
  unfoldable pub register_post : Option RegistrationData → Option Request → Action User
  unfolding register get is_true
  register_post parsed request = do
    enabled ← get registration_key (boolean_value true) false
    raise_if (not (is_true enabled)) registration_closed
    register parsed request
