-- ===== src/Authentication/Accounts/Closing.antt =====
-- `AccountService` of apps/authentication/services.py: the deactivation and the deletion of an
-- account.
use django_boilderplate.Common.Email.{enqueue}
use django_boilderplate.Common.Logging.{text, field, end}
use django_boilderplate.Models.Security.{account_deleted, account_deactivated}
use django_boilderplate.Models.Authentication.{account_deletion}
use django_boilderplate.Authentication.TwoFactor.{authentication_error}
use django_boilderplate.Audit.{record_audit}
use django_boilderplate.Common.Network.{Request}
use django_boilderplate.Security.Events.{record_event}
use django_boilderplate.Authentication.Tokens.{consume, issue}
use django_boilderplate.Models.Accounts.{deactivated, deleted, User}
use django_boilderplate.Authentication.Accounts.{
  is_username_of_other, is_email_of_other, audit_self, page, save_fields, hour, get_user,
  normalize_email_address, revoke_everything,
}
use django_boilderplate.Env.{Env}
use django_boilderplate.World.{
  publish, integrity_error, gets, draw, modify_db, ◌>>=◌, raise_if, atomic, delete_file, ◌>>◌,
  on_commit, pure, Db, Action,
}
use django_boilderplate.Prelude.{
  ◌||◌, ◌==◌, ℕ, update_where, str_eq, some, not, none, if◌then◌else◌, false, exists, [], String,
  Option,
}
use Prim.Native.String.{◌++◌ as cat}

-- `if avatar_name: transaction.on_commit(...)`
unfoldable drop_avatar : String → Action (Unit {0})
drop_avatar avatar = if str_eq avatar "" then pure tt else on_commit (delete_file avatar)

-- the profile of a deleted user
abbrev clear_profile : ℕ → Db → Db
clear_profile user db = record db {
  profiles =
      update_where (λ p. p.user == user) (λ p. record p { bio = ""; website = ""; location = "" })
        db.profiles;
}

module _ (env : Env) where
  -- the body of `deactivate`, inside its transaction
  unfoldable deactivate_locked : User → String → Option Request → Action (Unit {0})
  unfolding revoke_everything record_event record_audit
  deactivate_locked user password request = do
    locked ← get_user user.pk
    raise_if (not (env.check_password locked.password password)) authentication_error
    modify_db (save_fields locked.pk (λ u. record u { status = deactivated; is_active = false }))
    revoke_everything env locked.pk (some locked.pk) request false
    record_event env account_deactivated (some locked.pk) request []
    audit_self env "account.deactivated" locked request end end

  unfoldable pub deactivate : User → String → Option Request → Action (Unit {0})
  unfolding deactivate_locked
  deactivate user password request = atomic (deactivate_locked user password request)

  unfoldable pub request_deletion : User → String → Action (Unit {0})
  unfolding issue
  request_deletion user password = do
    raise_if (not (env.check_password user.password password)) authentication_error
    raw ← issue env user.pk account_deletion hour []
    enqueue env "account_security_warning" user.email (page env "/delete-account?token=" raw)

  -- the address and the name that a deleted user keeps
  abbrev deleted_name : ℕ → String
  deleted_name pk = cat "deleted-" (env.pk_hex pk)

  abbrev deleted_email : ℕ → String
  deleted_email pk = cat (deleted_name pk) "@invalid.local"

  -- the row of a user without what tells who it was; the password of the `n`-th draw
  unfoldable anonymized : ℕ → User → User
  unfolding normalize_email_address
  anonymized n user = record user {
    email = normalize_email_address env (deleted_email user.pk);
    username = env.strip (deleted_name user.pk);
    first_name = "";
    last_name = "";
    phone = "";
    avatar = "";
    status = deleted;
    is_active = false;
    email_verified_at = none;
    phone_verified_at = none;
    password = env.unusable_password n;
  }

  -- the end of `confirm_deletion`, for the user of a token that was consumed
  unfoldable delete_user : ℕ → Option Request → Action (Unit {0})
  unfolding anonymized revoke_everything record_event record_audit drop_avatar
  delete_user pk request = do
    user ← get_user pk
    n ← draw
    let gone = anonymized n user
    taken ← gets (λ w.
        exists
          (λ u.
            is_email_of_other env user.pk gone.email u
            || is_username_of_other env user.pk gone.username u)
          w.db.users)
    raise_if taken integrity_error
    modify_db (save_fields user.pk (λ _. gone))
    modify_db (clear_profile user.pk)
    revoke_everything env user.pk (some user.pk) request false
    record_event env account_deleted (some user.pk) request []
    audit_self env "account.deleted" user request
        (field "email" (text user.email) (field "username" (text user.username) end))
        (field "status" (text "deleted") end)
    drop_avatar user.avatar
    on_commit (publish "account.deleted" (env.pk_text user.pk))

  unfoldable pub confirm_deletion : String → Option Request → Action (Unit {0})
  unfolding consume delete_user
  confirm_deletion raw request =
      atomic do token ← consume env raw account_deletion; delete_user token.user request
