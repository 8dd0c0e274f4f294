-- ===== src/Authentication/Accounts/Identity.antt =====
-- `AccountService` of apps/authentication/services.py: the change of the address and of the user
-- name.
pub mod Username
use django_boilderplate.Common.Email.{enqueue}
use django_boilderplate.Common.Logging.{end, text, field}
use django_boilderplate.Models.Security.{email_changed}
use django_boilderplate.Authentication.TwoFactor.{authentication_error}
use django_boilderplate.Security.Events.{record_event}
use django_boilderplate.World.{
  pure, on_commit, send_email, key_error, modify_db, validation_error, or_raise, integrity_error,
  gets, raise_if, ◌>>=◌, ◌>>◌, atomic, Action,
}
use django_boilderplate.Common.Network.{Request}
use django_boilderplate.Audit.{record_audit}
use django_boilderplate.Authentication.Tokens.{issue, consume}
use django_boilderplate.Models.Authentication.{email_change, OneTimeToken}
use django_boilderplate.Authentication.Accounts.{
  is_username_of_other, page, audit_self, save_fields, hour, conflict_error, is_email_of_other,
  get_user, revoke_everything, normalize_email_address,
}
use django_boilderplate.Env.{Env}
use django_boilderplate.Models.Accounts.{User}
use django_boilderplate.Prelude.{
  ◌||◌, ◌∷◌, ◌&&◌, true, str_eq, some, not, none, if◌then◌else◌, exists, [], String, Option, List,
}

-- `metadata[name]`
unfoldable metadata_value : String → List (String × String) → Option String
metadata_value name [] = none
metadata_value name ((k, v) ∷ rest) = if str_eq k name then some v else metadata_value name rest

module _ (env : Env) where
  unfoldable pub request_email_change : User → (password new_email : String) → Action (Unit {0})
  unfolding normalize_email_address issue
  request_email_change user password new_email = do
    let normalized = normalize_email_address env new_email
    raise_if (not (env.check_password user.password password)) authentication_error
    taken ← gets (λ w. exists (is_email_of_other env user.pk normalized) w.db.users)
    raise_if taken conflict_error
    raw ← issue env user.pk email_change hour (("new_email", normalized) ∷ [])
    enqueue env "email_verification" normalized (page env "/confirm-email-change?token=" raw)

  -- What `confirm_email_change` does once the new address is found free.
  unfoldable change_email : User → String → Option Request → Action User
  unfolding normalize_email_address revoke_everything record_event record_audit
  change_email user new_email request = do
    now ← gets (λ w. w.now)
    let stored = normalize_email_address env new_email
    taken ← gets (λ w. exists (is_email_of_other env user.pk stored) w.db.users)
    raise_if taken integrity_error
    modify_db (save_fields user.pk (λ u. record u { email = stored; email_verified_at = some now }))
    revoke_everything env user.pk (some user.pk) request true
    record_event env email_changed (some user.pk) request []
    audit_self env "email.changed" user request (field "email" (text user.email) end)
        (field "email" (text new_email) end)
    on_commit (send_email "email_changed" user.email "")
    pure (record user { email = stored; email_verified_at = some now })

  -- the end of `confirm_email_change`, for a token that was consumed
  unfoldable confirm_for : OneTimeToken → Option Request → Action User
  unfolding metadata_value change_email
  confirm_for token request = do
    user ← get_user token.user
    new_email ← or_raise (metadata_value "new_email" token.metadata) key_error
    taken ← gets (λ w. exists (is_email_of_other env user.pk new_email) w.db.users)
    raise_if taken conflict_error
    change_email user new_email request

  unfoldable pub confirm_email_change : String → Option Request → Action User
  unfolding consume confirm_for
  confirm_email_change raw request =
      atomic do token ← consume env raw email_change; confirm_for token request

  -- `full_clean` also checks the constraints of the model; `save` checks them again.
  unfoldable pub change_username : User → String → Option Request → Action User
  unfolding record_audit
  change_username user username request = atomic do
    locked ← get_user user.pk
    let name = env.strip username
    raise_if (not (env.is_valid_email locked.email && env.is_valid_username name)) validation_error
    broken ← gets (λ w.
        exists
          (λ u.
            is_email_of_other env locked.pk locked.email u
            || is_username_of_other env locked.pk name u)
          w.db.users)
    raise_if broken validation_error
    let stored = env.strip name
    taken ← gets (λ w. exists (is_username_of_other env locked.pk stored) w.db.users)
    raise_if taken conflict_error
    modify_db (save_fields locked.pk (λ u. record u { username = stored }))
    audit_self env "username.changed" locked request (field "username" (text locked.username) end)
        (field "username" (text stored) end)
    pure (record locked { username = stored })
