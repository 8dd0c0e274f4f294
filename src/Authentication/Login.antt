-- ===== src/Authentication/Login.antt =====
-- `AuthenticationService.login` of apps/authentication/services.py, with the lookup of the user in
-- apps/authentication/backends.py. Django's own `login`, which gives the session a new key, is the
-- argument `django_login`; how long the session cookie lives is not part of the state.
pub mod Steps
pub mod Guards
use django_boilderplate.Authentication.Sessions.{register}
use django_boilderplate.Security.KnownAccount.{lock_known_account}
use django_boilderplate.Authentication.Accounts.{
  save_fields, save_security_settings, security_settings_of, preferences_of, is_identified,
}
use django_boilderplate.Common.Network.{get_client_ip, Request}
use django_boilderplate.Authentication.TwoFactor.{authentication_error, credential_of, verify}
use django_boilderplate.Security.Events.{record_event}
use django_boilderplate.Security.LoginProtection.{
  LockoutState, seconds_left, digest, check, reset, register_failure,
}
use django_boilderplate.Env.{Env}
use django_boilderplate.Models.Authentication.{UserSession, is_enabled, TwoFactorCredential}
use django_boilderplate.Models.Accounts.{active, banned, status_eq, has_active_ban, User}
use django_boilderplate.Prelude.{
  ◌∷◌, ◌||◌, ◌&&◌, ℕ, str_eq, some, select, not, none, ltb, if◌then◌else◌, first, false, [], String,
  Option, List, Bool,
}
use django_boilderplate.Models.Security.{
  login_success, account_unlocked, new_device_login, login_failed as login_failed_event,
}
use django_boilderplate.World.{
  Error, send_email, account_banned, authentication_failed, modify_db, on_commit,
  two_factor_required, raise, when, api, raise_if, gets, ◌>>◌, ◌>>=◌, pure, Action, World,
  account_locked,
}

-- `User.objects.get(...)`: the only row that passes
unfoldable pub the_only : (User → Bool) → List User → Option User
the_only p users = elim (select p users) [
  | [] ↦ none
  | u ∷ rest ↦ elim rest [ [] ↦ some u | _ ∷ _ ↦ none ]
]

abbrev is_enabled_row : Option TwoFactorCredential → Bool
is_enabled_row none = false
is_enabled_row (some c) = is_enabled c

abbrev pub failure_error : LockoutState → Error
failure_error state =
    if state.locked then api account_locked 429 none else api authentication_failed 401 none

module _ (env : Env) where
  -- the test of the password in the backend
  unfoldable pub authenticated : String → Option User → Option User
  authenticated password none = none
  authenticated password (some user) =
      if env.check_password user.password password && user.is_active then some user else none

  -- `EmailOrUsernameBackend.authenticate`
  unfoldable pub authenticate : (identifier password : String) → World → Option User
  unfolding the_only authenticated
  authenticate identifier password w =
      if str_eq identifier "" || str_eq password ""
      then none
      else authenticated password (the_only (is_identified env identifier) w.db.users)

  -- `settings.ENABLE_TWO_FACTOR and user.two_factor.is_enabled`
  unfoldable pub has_two_factor : User → World → Bool
  has_two_factor user w =
      env.settings.enable_two_factor
      && is_enabled_row (first (credential_of user.pk) w.db.credentials)

  -- what is noted of a failed login
  unfoldable pub note_failure : Request → (identifier : String) → LockoutState → Action (Unit {0})
  unfolding record_event lock_known_account digest
  note_failure request identifier state = do
    record_event env login_failed_event none (some request)
        (("identifier_hash", digest env identifier) ∷ [])
    when state.account_locked (lock_known_account env identifier state.retry_after (some request))

  -- a login whose password is not the user's
  unfoldable pub login_failed : {A : Type 0} → Request → (identifier : String) → Action A
  unfolding register_failure note_failure
  login_failed request identifier = do
    state ← register_failure env identifier (get_client_ip env request)
    note_failure request identifier state
    raise (failure_error state)

  -- The lock on the account is refused, or cleared once its time is over.
  unfoldable pub check_account_lock : User → Request → Option ℕ → Action (Unit {0})
  unfolding record_event
  check_account_lock user request none = pure tt
  check_account_lock user request (some t) = do
    now ← gets (λ w. w.now)
    raise_if (ltb now t) (api account_locked 429 (some (seconds_left now (some t))))
    modify_db (save_security_settings user.pk (λ s. record s { locked_until = none }))
    record_event env account_unlocked (some user.pk) (some request) []

  -- the status of the account
  unfoldable pub check_status : User → Action (Unit {0})
  unfolding has_active_ban
  check_status user = do
    banned_now ← gets (λ w. status_eq user.status banned || has_active_ban w.now w.db.bans user.pk)
    raise_if banned_now (api account_banned 403 none)
    raise_if (not (status_eq user.status active)) (api authentication_failed 403 none)

  -- the code of an enabled second factor
  unfoldable pub check_code :
      User → (identifier : String) → Request → (code : String) → Action (Unit {0})
  unfolding verify register_failure
  check_code user identifier request code = do
    raise_if (str_eq code "") (api two_factor_required 401 none)
    verdict ← verify env user code
    when (not verdict.0)
        (register_failure env identifier (get_client_ip env request) >> raise authentication_error)

  unfoldable pub check_second_factor :
      User → (identifier : String) → Request → (code : String) → Action (Unit {0})
  unfolding has_two_factor check_code
  check_second_factor user identifier request code = do
    needed ← gets (has_two_factor user)
    when needed (check_code user identifier request code)

  -- the note to a user who logged in from a new device
  unfoldable announce_device : User → Request → Action (Unit {0})
  unfolding record_event preferences_of security_settings_of
  announce_device user request = do
    record_event env new_device_login (some user.pk) (some request) []
    preferences ← preferences_of user.pk
    settings ← security_settings_of user.pk
    when (preferences.security_emails && settings.notify_new_device)
        (on_commit (send_email "new_device_login" user.email ""))

  -- the time and the address of the last login
  abbrev logged_in : ℕ → Option String → User → User
  logged_in now ip user = record user { last_login_ip = ip; last_login = some now }

  module _ (django_login : User → Action (Unit {0})) where
    -- the login of a user who passed all checks
    unfoldable pub open_session :
        User → (identifier : String) → Request → Action (User × UserSession)
    unfolding reset register record_event announce_device
    open_session user identifier request = do
      reset env identifier (get_client_ip env request)
      django_login user
      session ← register env user request
      now ← gets (λ w. w.now)
      modify_db (save_fields user.pk (logged_in now (get_client_ip env request)))
      record_event env login_success (some user.pk) (some request) []
      when session.1 (announce_device user request)
      pure (logged_in now (get_client_ip env request) user, session.0)

    -- the login of the user that the backend found
    unfoldable pub login_user :
        Option User
        → (identifier : String) → Request
        → (code : String) → Action (User × UserSession)
    unfolding login_failed security_settings_of check_account_lock check_status check_second_factor
        open_session
    login_user none identifier request code = login_failed request identifier
    login_user (some user) identifier request code = do
      settings ← security_settings_of user.pk
      check_account_lock user request settings.locked_until
      check_status user
      check_second_factor user identifier request code
      open_session user identifier request

    -- `AuthenticationService.login`
    unfoldable pub login :
        Request → (identifier password code : String) → Action (User × UserSession)
    unfolding check authenticate login_user
    login request identifier password code = do
      state ← check env identifier (get_client_ip env request)
      raise_if state.locked (api account_locked 429 (some state.retry_after))
      user ← gets (authenticate identifier password)
      login_user user identifier request code
