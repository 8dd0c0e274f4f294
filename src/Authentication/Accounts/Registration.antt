-- ===== src/Authentication/Accounts/Registration.antt =====
-- `AccountService` of apps/authentication/services.py: the registration of a user, and the
-- verification of the address.
use django_boilderplate.Common.Email.{enqueue}
use django_boilderplate.Common.Logging.{text, field, end}
use django_boilderplate.Models.Authentication.{email_verification}
use django_boilderplate.Common.Network.{Request}
use django_boilderplate.Authentication.Tokens.{issue, consume}
use django_boilderplate.Audit.{record_audit}
use django_boilderplate.Models.Accounts.{active, pending, status_eq, User}
use django_boilderplate.Authentication.Accounts.{
  newest, page, audit_self, conflict_error, save_fields, has_email, hour, get_user,
  on_integrity_error, create_user,
}
use django_boilderplate.Env.{Env}
use django_boilderplate.World.{
  on_commit, send_email, validation_error, raise_if, modify_db, ◌>>◌, when, atomic, gets, ◌>>=◌,
  pure, Action, Db,
}
use django_boilderplate.Models.Authorization.{Role}
use django_boilderplate.Prelude.{
  ◌∷◌, ◌==◌, ◌++◌, ◌*◌, ◌&&◌, ℕ, true, str_eq, some, not, none, is_none, if◌then◌else◌, first,
  exists, [], String, Option,
}

-- `UserRole.objects.get_or_create(user=user, role=default_role)`
unfoldable grant_default_role : ℕ → Option Role → Action (Unit {0})
grant_default_role user none = pure tt
grant_default_role user (some role) = do
  has ← gets (λ w. exists (λ a. a.user == user && a.role == role.pk) w.db.user_roles)
  now ← gets (λ w. w.now)
  when (not has) (
      modify_db (λ db. record db {
        user_roles =
            db.user_roles
            ++ record {
              user = user;
              role = role.pk;
              granted_by = none;
              valid_from = now;
              valid_until = none;
            }
              ∷ [];
      }))

-- the rows that belong to a new user
abbrev add_details : ℕ → Db → Db
add_details user db = record db {
  profiles = db.profiles ++ record { user = user; bio = ""; website = ""; location = "" } ∷ [];
  preferences =
      db.preferences
      ++ record {
        user = user;
        language = "en";
        timezone = "UTC";
        email_notifications = true;
        security_emails = true;
      }
        ∷ [];
  security_settings =
      db.security_settings
      ++ record {
        user = user;
        password_changed_at = none;
        locked_until = none;
        notify_new_device = true;
      }
        ∷ [];
}

module _ (env : Env) where
  unfoldable pub register_user :
      (email username password first_name last_name : String) → Option Request → Action User
  unfolding create_user on_integrity_error grant_default_role issue record_audit
  register_user email username password first_name last_name request = atomic do
    raise_if (not (env.is_valid_password none password)) validation_error
    user ← (λ w.
        on_integrity_error conflict_error
          (create_user env email username password first_name last_name w))
    modify_db (add_details user.pk)
    role ← gets (λ w. first (λ r. str_eq r.slug "user") w.db.roles)
    grant_default_role user.pk role
    raw ← issue env user.pk email_verification (24 * hour) []
    audit_self env "user.created" user request end (field "status" (text "pending") end)
    on_commit (send_email "email_verification" user.email (page env "/verify-email?token=" raw))
    pure user

  -- the user once the address is verified at `now`
  unfoldable pub verified : ℕ → User → User
  verified now user = record user {
    email_verified_at = some now;
    status = if status_eq user.status pending then active else user.status;
  }

  -- the body of `if not user.email_verified_at`
  unfoldable mark_verified : User → Option Request → Action User
  unfolding verified record_audit
  mark_verified user request = do
    now ← gets (λ w. w.now)
    modify_db (
        save_fields user.pk (λ u. record u {
          email_verified_at = (verified now user).email_verified_at;
          status = (verified now user).status;
        }))
    audit_self env "email.verified" user request end end
    on_commit (send_email "welcome" user.email "")
    pure (verified now user)

  -- the end of `verify_email`, for the user of a token that was consumed
  unfoldable verify_user : ℕ → Option Request → Action User
  unfolding mark_verified
  verify_user pk request = do
    user ← get_user pk
    if is_none user.email_verified_at then mark_verified user request else pure user

  unfoldable pub verify_email : String → Option Request → Action User
  unfolding consume verify_user
  verify_email raw request =
      atomic do token ← consume env raw email_verification; verify_user token.user request

  -- `resend_verification`, for the user that its query finds
  unfoldable pub resend_to : Option User → Action (Unit {0})
  unfolding issue enqueue
  resend_to none = pure tt
  resend_to (some user) = do
    raw ← issue env user.pk email_verification (24 * hour) []
    enqueue env "email_verification" user.email (page env "/verify-email?token=" raw)

  unfoldable pub resend_verification : String → Action (Unit {0})
  unfolding resend_to newest
  resend_verification email = do
    user ← gets (λ w.
        newest
          (λ u. has_email env (env.strip email) u && (is_none u.email_verified_at && u.is_active))
          w.db.users)
    resend_to user
