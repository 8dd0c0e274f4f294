-- ===== src/Security/KnownAccount.antt =====
-- `LoginProtectionService.lock_known_account` of apps/security/services.py: the lock on the account
-- that an identifier names.
use django_boilderplate.Common.Email.{enqueue}
use django_boilderplate.Security.LoginProtection.{second}
use django_boilderplate.World.{modify_db, gets, when, ◌>>=◌, ◌>>◌, pure, Action}
use django_boilderplate.Common.Network.{Request}
use django_boilderplate.Models.Accounts.{is_locked, User}
use django_boilderplate.Authentication.Accounts.{
  save_security_settings, is_identified, preferences_of, newest, security_settings_of,
}
use django_boilderplate.Security.Events.{record_event}
use django_boilderplate.Env.{Env}
use django_boilderplate.Prelude.{◌+◌, ◌*◌, ℕ, some, not, none, [], String, Option}
use django_boilderplate.Models.Security.{account_locked}

module _ (env : Env) where
  -- the note to the user of an account that was not locked before
  unfoldable announce_lock : User → Option Request → Action (Unit {0})
  unfolding record_event preferences_of
  announce_lock user request = do
    record_event env account_locked (some user.pk) request []
    preferences ← preferences_of user.pk
    when preferences.security_emails (enqueue env "account_locked" user.email "")

  unfoldable lock_user : Option User → (retry_after : ℕ) → Option Request → Action (Unit {0})
  unfolding security_settings_of announce_lock
  lock_user none retry_after request = pure tt
  lock_user (some user) retry_after request = do
    settings ← security_settings_of user.pk
    now ← gets (λ w. w.now)
    modify_db (
        save_security_settings user.pk
          (λ s. record s { locked_until = some (now + retry_after * second) }))
    when (not (is_locked now settings)) (announce_lock user request)

  unfoldable pub lock_known_account :
      (identifier : String) → (retry_after : ℕ) → Option Request → Action (Unit {0})
  unfolding newest lock_user
  lock_known_account identifier retry_after request = do
    user ← gets (λ w. newest (is_identified env identifier) w.db.users)
    lock_user user retry_after request
