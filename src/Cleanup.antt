-- ===== src/Cleanup.antt =====
-- The periodic tasks that delete what is no longer needed: cleanup_sessions and cleanup_tokens of
-- apps/authentication/tasks.py, cleanup_login_attempts of apps/security/tasks.py, cleanup_audit_logs
-- of apps/audit/tasks.py, cleanup_notifications of apps/notifications/tasks.py and
-- cleanup_unused_files of apps/files/tasks.py.
use django_boilderplate.Models.Notifications.{Notification}
use django_boilderplate.Models.Audit.{AuditLog}
use django_boilderplate.Models.Security.{LoginThrottleState}
use django_boilderplate.Models.Authentication.{OneTimeToken, UserSession}
use django_boilderplate.Env.{Env}
use django_boilderplate.Prelude.{
  ◌∷◌, ◌||◌, ◌==◌, ◌+◌, ◌*◌, ◌&&◌, ℕ, update_where, true, str_eq, some, select, not, none, ltb,
  length, is_some, is_none, if◌then◌else◌, false, delete_where, [], Option, List, Bool,
}
use django_boilderplate.World.{
  delete_file, modify_db, when, gets, ◌>>◌, ◌>>=◌, pure, OutstandingToken, Action, emit,
}
use django_boilderplate.Common.Idempotency.{day}
use django_boilderplate.Models.Files.{StoredFile, FileStatus, pending, ready, quarantined, rejected}
pub mod Retention

-- `value < now - timedelta(days=n)`
abbrev is_older : ℕ → ℕ → ℕ → Bool
is_older now days t = ltb (t + days * day) now

-- the same of a column that may be empty
abbrev was_older : ℕ → ℕ → Option ℕ → Bool
was_older now days none = false
was_older now days (some t) = is_older now days t

module _ (env : Env) where
  abbrev pub is_stale_session : ℕ → UserSession → Bool
  is_stale_session now s = was_older now env.settings.session_retention s.revoked_at

  unfoldable pub cleanup_sessions : Action ℕ
  cleanup_sessions = do
    now ← gets (λ w. w.now)
    old ← gets (λ w. select (is_stale_session now) w.db.user_sessions)
    modify_db
        (λ db. record db { user_sessions = delete_where (is_stale_session now) db.user_sessions })
    pure (length old)

  abbrev pub is_stale_token : ℕ → OneTimeToken → Bool
  is_stale_token now t = is_older now env.settings.token_retention t.expires_at

  abbrev pub is_expired_jwt : ℕ → OutstandingToken → Bool
  is_expired_jwt now t = ltb t.expires_at now

  -- the one-time tokens, the blacklist entries and the outstanding tokens
  unfoldable pub cleanup_tokens : Action ℕ
  cleanup_tokens = do
    now ← gets (λ w. w.now)
    old ← gets (λ w. select (is_stale_token now) w.db.tokens)
    expired ← gets (λ w. select (is_expired_jwt now) w.db.jwts)
    modify_db (λ db. record db {
      tokens = delete_where (is_stale_token now) db.tokens;
      jwts = delete_where (is_expired_jwt now) db.jwts;
    })
    pure (length old + length (select (λ t. t.blacklisted) expired) + length expired)

  abbrev is_expired_throttle : ℕ → LoginThrottleState → Bool
  is_expired_throttle now t = ltb t.expires_at now

  unfoldable cleanup_login_attempts : Action ℕ
  cleanup_login_attempts = do
    now ← gets (λ w. w.now)
    old ← gets (λ w. select (is_expired_throttle now) w.db.throttles)
    modify_db (λ db. record db { throttles = delete_where (is_expired_throttle now) db.throttles })
    pure (length old)

  abbrev is_old_log : ℕ → AuditLog → Bool
  is_old_log now l = is_older now env.settings.audit_retention l.created_at

  -- the retention operation of `AuditLogQuerySet`
  unfoldable delete_old_logs : Action ℕ
  delete_old_logs = do
    now ← gets (λ w. w.now)
    old ← gets (λ w. select (is_old_log now) w.db.audit_logs)
    modify_db (λ db. record db { audit_logs = delete_where (is_old_log now) db.audit_logs })
    pure (length old)

  unfoldable cleanup_audit_logs : Action ℕ
  unfolding delete_old_logs
  cleanup_audit_logs = if env.settings.audit_retention == 0 then pure 0 else delete_old_logs

  abbrev is_old_notification : ℕ → Notification → Bool
  is_old_notification now n =
      was_older now 0 n.expires_at
      || (is_older now env.settings.notification_retention n.created_at && is_some n.read_at)

  unfoldable cleanup_notifications : Action ℕ
  cleanup_notifications = do
    now ← gets (λ w. w.now)
    old ← gets (λ w. select (is_old_notification now) w.db.notifications)
    modify_db (λ db. record db {
      notifications = delete_where (is_old_notification now) db.notifications;
    })
    pure (length old)

  abbrev is_pending_file : FileStatus → Bool
  is_pending_file pending = true
  is_pending_file ready = false
  is_pending_file quarantined = false
  is_pending_file rejected = false

  abbrev is_unused_file : ℕ → StoredFile → Bool
  is_unused_file now f =
      is_pending_file f.status
      && (is_older now env.settings.file_retention f.created_at && is_none f.deleted_at)

  -- one round of the loop; a row without a file has none to delete
  unfoldable drop_file : StoredFile → Action (Unit {0})
  drop_file f = do
    when (not (str_eq f.file "")) (emit (delete_file f.file))
    now ← gets (λ w. w.now)
    modify_db (λ db. record db {
      stored_files =
          update_where (λ g. g.pk == f.pk) (λ g. record g { deleted_at = some now })
            db.stored_files;
    })

  unfoldable drop_files : List StoredFile → Action (Unit {0})
  unfolding drop_file
  drop_files [] = pure tt
  drop_files (f ∷ fs) = do drop_file f; drop_files fs

  unfoldable cleanup_unused_files : Action ℕ
  unfolding drop_files
  cleanup_unused_files = do
    now ← gets (λ w. w.now)
    files ← gets (λ w. select (is_unused_file now) w.db.stored_files)
    drop_files files
    pure (length files)
