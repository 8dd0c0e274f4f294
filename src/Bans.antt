-- ===== src/Bans.antt =====
-- `BanService` of apps/accounts/services.py, and the task `expire_temporary_bans` of
-- apps/accounts/tasks.py.
pub mod Blocking
pub mod Frame
use django_boilderplate.Common.Network.{Request}
use django_boilderplate.Audit.{record_audit}
use django_boilderplate.World.{
  does_not_exist, fresh_pk, or_raise, when, integrity_error, gets, raise_if, modify_db, ◌>>=◌, ◌>>◌,
  pure, atomic, Action,
}
use django_boilderplate.Authentication.Accounts.{save_fields, get_user, revoke_everything}
use django_boilderplate.Env.{Env}
use django_boilderplate.Prelude.{
  ◌∷◌, ◌==◌, ◌+◌, ◌++◌, ◌&&◌, ℕ, updated, update_where, some, select, not, none, leb, is_none,
  if◌then◌else◌, first, false, exists, [], String, Option, List, Bool,
}
use django_boilderplate.Common.Logging.{null, text, field, end, Value}
use django_boilderplate.Models.Accounts.{
  status_eq, open_ended, ban_is_active, User, AccountStatus, UserBan, banned, active,
}

-- the user of a row, and the rows that count at `now`
abbrev active_ban_of : ℕ → ℕ → UserBan → Bool
active_ban_of now user b = b.user == user && ban_is_active now b

abbrev pub save_status : AccountStatus → User → User
save_status status u = record u { status = status }

-- `starts_at or timezone.now()`
abbrev pub or_now : ℕ → Option ℕ → ℕ
or_now now none = now
or_now now (some t) = t

module _ (env : Env) where
  abbrev pub expiry_value : Option ℕ → Value
  expiry_value none = null
  expiry_value (some t) = text (env.isoformat t)

  -- the ban that counts at once
  unfoldable pub enforce_ban : ℕ → (actor : Option ℕ) → Option Request → Action (Unit {0})
  unfolding revoke_everything
  enforce_ban user actor request = do
    modify_db (save_fields user (save_status banned))
    revoke_everything env user actor request false

  -- `UserBan.objects.create`, under the constraint that a ban ends after it starts
  unfoldable pub create_ban :
      ℕ → String → (actor : Option ℕ) → (starts_at : ℕ) → (expires_at : Option ℕ) → Action UserBan
  create_ban user reason actor starts_at expires_at = do
    raise_if (not (open_ended starts_at expires_at)) integrity_error
    pk ← fresh_pk
    let row : UserBan = record {
      pk = pk;
      user = user;
      reason = reason;
      banned_by = actor;
      starts_at = starts_at;
      expires_at = expires_at;
      revoked_at = none;
    }
    modify_db (λ db. record db { bans = db.bans ++ row ∷ [] })
    pure row

  -- the rest of `ban`, once the row is there
  unfoldable pub finish_ban :
      UserBan → String → (actor expires_at : Option ℕ) → Option Request → Action UserBan
  unfolding enforce_ban record_audit
  finish_ban row reason actor expires_at request = do
    now ← gets (λ w. w.now)
    when (leb row.starts_at now) (enforce_ban row.user actor request)
    record_audit env "account.banned" "accounts.user" (env.pk_text row.user) actor request end
        (field "reason" (text reason) (field "expires_at" (expiry_value expires_at) end))
    pure row

  -- the body of `ban`, for the user that it has locked
  unfoldable pub ban_locked :
      String → (actor starts_at expires_at : Option ℕ) → Option Request → User → Action UserBan
  unfolding create_ban finish_ban
  ban_locked reason actor starts_at expires_at request locked = do
    now ← gets (λ w. w.now)
    row ← create_ban locked.pk reason actor (or_now now starts_at) expires_at
    finish_ban row reason actor expires_at request

  unfoldable pub ban :
      ℕ
      → String
      → (actor : Option ℕ) → (starts_at expires_at : Option ℕ) → Option Request
      → Action UserBan
  unfolding ban_locked
  ban user reason actor starts_at expires_at request =
      atomic (get_user user >>= ban_locked reason actor starts_at expires_at request)

  -- What `revoke` does to a ban that it has found in force.
  unfoldable lift_ban : UserBan → (actor : Option ℕ) → Option Request → Action (Unit {0})
  unfolding record_audit
  lift_ban row actor request = do
    now ← gets (λ w. w.now)
    modify_db (λ db. record db {
      bans = update_where (λ b. b.pk == row.pk) (λ b. record b { revoked_at = some now }) db.bans;
    })
    still ← gets (λ w. exists (active_ban_of now row.user) w.db.bans)
    user ← get_user row.user
    when (not still && status_eq user.status banned)
        (modify_db (save_fields user.pk (save_status active)))
    record_audit env "account.ban_revoked" "accounts.user" (env.pk_text user.pk) actor request end
        end

  unfoldable pub revoke_ban : ℕ → (actor : Option ℕ) → Option Request → Action (Unit {0})
  unfolding lift_ban
  revoke_ban pk actor request = atomic do
    found ← gets (λ w. first (λ b. b.pk == pk) w.db.bans)
    row ← or_raise found does_not_exist
    when (is_none row.revoked_at) (lift_ban row actor request)

  -- the first loop of `expire_temporary_bans`
  unfoldable enforce_each : List User → Action ℕ
  unfolding enforce_ban record_audit
  enforce_each [] = pure 0
  enforce_each (u ∷ users) = do
    enforce_ban u.pk none none
    record_audit env "account.ban_activated" "accounts.user" (env.pk_text u.pk) none none end end
    n ← enforce_each users
    pure (n + 1)

-- the second loop of `expire_temporary_bans`
unfoldable release_each : List User → Action ℕ
release_each [] = pure 0
release_each (u ∷ users) = do
  now ← gets (λ w. w.now)
  still ← gets (λ w. exists (active_ban_of now u.pk) w.db.bans)
  when (not still) (modify_db (save_fields u.pk (save_status active)))
  n ← release_each users
  pure (if still then n else n + 1)

-- a ban of the user that is over, though not revoked
abbrev expired_ban_of : ℕ → ℕ → UserBan → Bool
expired_ban_of now user b =
    b.user == user && (is_none b.revoked_at && not (open_ended now b.expires_at))

-- The two chained filters over the bans of a user join the table twice, so each asks for a ban of
-- its own.
abbrev is_to_ban : ℕ → List UserBan → ℕ → Bool
is_to_ban now bans user =
    exists (λ b. b.user == user && (is_none b.revoked_at && leb b.starts_at now)) bans
    && exists (λ b. b.user == user && open_ended now b.expires_at) bans

unfoldable expire_temporary_bans : Env → Action ℕ
unfolding enforce_each release_each
expire_temporary_bans env = do
  now ← gets (λ w. w.now)
  to_ban ← gets (λ w.
      select (λ u. not (status_eq u.status banned) && is_to_ban now w.db.bans u.pk) w.db.users)
  activated ← enforce_each env to_ban
  to_release ← gets (λ w.
      select (λ u. status_eq u.status banned && exists (expired_ban_of now u.pk) w.db.bans)
        w.db.users)
  updated ← release_each to_release
  pure (updated + activated)
