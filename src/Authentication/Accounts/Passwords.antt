-- ===== src/Authentication/Accounts/Passwords.antt =====
-- `AccountService` of apps/authentication/services.py: the reset and the change of a password.
use django_boilderplate.Common.Email.{enqueue}
use django_boilderplate.Common.Logging.{end}
use django_boilderplate.Authentication.TwoFactor.{authentication_error}
use django_boilderplate.Security.LoginProtection.{second}
use django_boilderplate.Audit.{record_audit}
use django_boilderplate.Common.Network.{Request}
use django_boilderplate.Security.Events.{record_event}
use django_boilderplate.Models.Accounts.{User}
use django_boilderplate.Authentication.Accounts.{
  newest, audit_self, page, save_fields, get_user, has_email, revoke_everything,
  mark_password_changed,
}
use django_boilderplate.World.{
  on_commit, validation_error, send_email, raise_if, modify_db, ◌>>◌, atomic, draw, gets, pure,
  ◌>>=◌, Action,
}
use django_boilderplate.Authentication.Tokens.{consume, issue}
use django_boilderplate.Env.{Env}
use django_boilderplate.Prelude.{◌*◌, ◌&&◌, ℕ, true, some, not, none, false, [], String, Option}
use django_boilderplate.Models.Authentication.{password_reset}
use django_boilderplate.Models.Security.{password_changed, password_reset as password_reset_event}

module _ (env : Env) where
  -- `request_password_reset`, for the user that its query finds
  unfoldable pub send_reset : Option User → Action (Unit {0})
  unfolding issue enqueue
  send_reset none = pure tt
  send_reset (some user) = do
    raw ← issue env user.pk password_reset (env.settings.password_reset_timeout * second) []
    enqueue env "password_reset" user.email (page env "/reset-password?token=" raw)

  unfoldable pub request_password_reset : String → Action (Unit {0})
  unfolding send_reset newest
  request_password_reset email = do
    user ← gets (λ w. newest (λ u. has_email env (env.strip email) u && u.is_active) w.db.users)
    send_reset user

  -- `set_password`, saved with what hangs on it
  unfoldable store_password : ℕ → String → Action String
  unfolding mark_password_changed
  store_password pk password = do
    n ← draw
    modify_db (save_fields pk (λ u. record u { password = env.make_password n password }))
    mark_password_changed pk
    pure (env.make_password n password)

  -- the end of `reset_password`, for a token that was consumed
  unfoldable reset_for : ℕ → String → Option Request → Action User
  unfolding store_password revoke_everything record_event record_audit
  reset_for pk new_password request = do
    user ← get_user pk
    raise_if (not (env.is_valid_password (some user) new_password)) validation_error
    hash ← store_password pk new_password
    revoke_everything env pk (some pk) request false
    record_event env password_reset_event (some pk) request []
    audit_self env "password.reset" user request end end
    on_commit (send_email "password_changed" user.email "")
    pure (record user { password = hash })

  unfoldable pub reset_password : (raw new_password : String) → Option Request → Action User
  unfolding consume reset_for
  reset_password raw new_password request =
      atomic do token ← consume env raw password_reset; reset_for token.user new_password request

  unfoldable pub change_password :
      User → (old_password new_password : String) → Option Request → Action (Unit {0})
  unfolding store_password revoke_everything record_event record_audit
  change_password user old_password new_password request = atomic do
    locked ← get_user user.pk
    raise_if (not (env.check_password locked.password old_password)) authentication_error
    raise_if (not (env.is_valid_password (some locked) new_password)) validation_error
    store_password locked.pk new_password
    revoke_everything env locked.pk (some locked.pk) request true
    record_event env password_changed (some locked.pk) request []
    audit_self env "password.changed" locked request end end
    on_commit (send_email "password_changed" locked.email "")
