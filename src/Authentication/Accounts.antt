-- ===== src/Authentication/Accounts.antt =====
-- The rows of a user as the services of apps/authentication/services.py read and write them, with
-- the manager of apps/accounts/models.py. `AccountService` is in the children.
use django_boilderplate.Audit.{record_audit}
use django_boilderplate.Common.Logging.{Fields}
use django_boilderplate.Authentication.Tokens.{revoke_all_jwt}
use django_boilderplate.Common.Network.{Request}
use django_boilderplate.Authentication.Sessions.{revoke_all}
use django_boilderplate.Env.{Env}
use django_boilderplate.Models.Accounts.{pending, UserPreferences, UserSecuritySettings, User}
use django_boilderplate.World.{
  fresh_pk, integrity_error, validation_error, draw, does_not_exist, err, pure, value_error,
  modify_db, or_raise, raise_if, World, gets, conflict, ◌>>◌, ◌>>=◌, Result, ok, Db, api, Action,
  Error,
}
use django_boilderplate.Prelude.{
  if◌then◌else◌, List, ◌∷◌, ◌||◌, ◌==◌, ◌++◌, ◌&&◌, ℕ, update_where, true, str_eq, some, not, none,
  first, false, exists, [], String, Option, Bool,
}
pub mod Registration
pub mod Passwords
pub mod Identity
pub mod Closing
pub mod Ending
use Prim.Native.String.{◌++◌ as cat}

-- microseconds in an hour
abbrev pub hour : ℕ
hour = 3600000000

abbrev pub conflict_error : Error
conflict_error = api conflict 409 none

abbrev pub is_user : ℕ → User → Bool
is_user pk u = u.pk == pk

-- `.first()` of a query of users, whose order is the newest first
unfoldable pub newest : (User → Bool) → List User → Option User
newest p [] = none
newest p (u ∷ users) =
    let rest = newest p users in elim rest [ some v ↦ some v | none ↦ if p u then some u else none ]

-- `User.objects.select_for_update().get(pk=pk)`
abbrev pub get_user : ℕ → Action User
get_user pk = do found ← gets (λ w. first (is_user pk) w.db.users); or_raise found does_not_exist

-- `.save(update_fields=...)`: the named fields of the row, by `f`.
abbrev pub save_fields : ℕ → (User → User) → Db → Db
save_fields pk f db = record db { users = update_where (is_user pk) f db.users }

-- `UserSecuritySettings.objects.get_or_create(user=user)`
unfoldable pub security_settings_of : ℕ → Action UserSecuritySettings
security_settings_of user w = elim (first (λ s. s.user == user) w.db.security_settings) [
  | some s ↦ (ok s, w)
  | none ↦
      let s : UserSecuritySettings = record {
        user = user;
        password_changed_at = none;
        locked_until = none;
        notify_new_device = true;
      } in
      (ok s, record w { db = record w.db { security_settings = w.db.security_settings ++ s ∷ [] } })
]

abbrev pub save_security_settings : ℕ → (UserSecuritySettings → UserSecuritySettings) → Db → Db
save_security_settings user f db = record db {
  security_settings = update_where (λ s. s.user == user) f db.security_settings;
}

-- `UserPreferences.objects.get_or_create(user=user)`
unfoldable pub preferences_of : ℕ → Action UserPreferences
preferences_of user w = elim (first (λ p. p.user == user) w.db.preferences) [
  | some p ↦ (ok p, w)
  | none ↦
      let p : UserPreferences = record {
        user = user;
        language = "en";
        timezone = "UTC";
        email_notifications = true;
        security_emails = true;
      } in
      (ok p, record w { db = record w.db { preferences = w.db.preferences ++ p ∷ [] } })
]

-- `security_settings.password_changed_at = timezone.now()`, saved
unfoldable pub mark_password_changed : ℕ → Action (Unit {0})
unfolding security_settings_of
mark_password_changed user = do
  security_settings_of user
  now ← gets (λ w. w.now)
  modify_db (save_security_settings user (λ s. record s { password_changed_at = some now }))

-- `except IntegrityError`
unfoldable pub on_integrity_error : {A : Type 0} → Error → Result A × World → Result A × World
on_integrity_error e (ok a, w) = (ok a, w)
on_integrity_error e (err integrity_error, w) = (err e, w)
on_integrity_error e (err other, w) = (err other, w)

module _ (env : Env) where
  -- `UserManager.normalize_email_address`
  unfoldable pub normalize_email_address : String → String
  normalize_email_address email = env.casefold (env.normalize_email (env.strip email))

  -- `email__iexact=email`, and the unique constraint on the lower case of addresses
  abbrev pub has_email : String → User → Bool
  has_email email u = str_eq (env.lower u.email) (env.lower email)

  -- `username__iexact=username`, and the unique constraint on the lower case of user names
  abbrev pub has_username : String → User → Bool
  has_username username u = str_eq (env.lower u.username) (env.lower username)

  -- `Q(email__iexact=identifier.strip()) | Q(username__iexact=identifier.strip())`
  abbrev pub is_identified : String → User → Bool
  is_identified identifier u =
      has_email (env.strip identifier) u || has_username (env.strip identifier) u

  -- `.exclude(pk=pk)` of a query by address
  abbrev pub is_email_of_other : ℕ → String → User → Bool
  is_email_of_other pk email u = has_email email u && not (u.pk == pk)

  -- Another row has the user name, up to case.
  abbrev pub is_username_of_other : ℕ → String → User → Bool
  is_username_of_other pk username u = has_username username u && not (u.pk == pk)

  -- `_create_user`, whose `save` is under the unique constraints on address and user name.
  unfoldable pub create_user : (email username password first_name last_name : String) → Action User
  unfolding normalize_email_address
  create_user email username password first_name last_name = do
    raise_if (str_eq email "" || str_eq username "") value_error
    n ← draw
    let address = normalize_email_address email
    let name = env.strip username
    raise_if (not (env.is_valid_email address && env.is_valid_username name)) validation_error
    taken ← gets (λ w.
        exists
          (λ u. has_email (normalize_email_address address) u || has_username (env.strip name) u)
          w.db.users)
    raise_if taken integrity_error
    pk ← fresh_pk
    let user : User = record {
      pk = pk;
      email = normalize_email_address address;
      username = env.strip name;
      first_name = first_name;
      last_name = last_name;
      avatar = "";
      phone = "";
      status = pending;
      email_verified_at = none;
      phone_verified_at = none;
      is_active = true;
      is_staff = false;
      is_superuser = false;
      password = env.make_password n password;
      last_login = none;
      last_login_ip = none;
    }
    modify_db (λ db. record db { users = db.users ++ user ∷ [] })
    pure user

  -- What ends the sessions of a user: device sessions and refresh tokens.
  unfoldable pub revoke_everything :
      ℕ → (actor : Option ℕ) → Option Request → (exclude_current : Bool) → Action (Unit {0})
  unfolding revoke_all revoke_all_jwt
  revoke_everything user actor request exclude_current = do
    revoke_all env user actor request exclude_current
    revoke_all_jwt user
    pure tt

  -- The audit record of what a user did to the own account.
  abbrev pub audit_self : String → User → Option Request → Fields → Fields → Action (Unit {0})
  audit_self action user request before after =
      record_audit env action "accounts.user" (env.pk_text user.pk) (some user.pk) request before
        after

  abbrev pub page : String → String → String
  page path raw = cat env.settings.site_url (cat path raw)
