-- ===== src/Bans/Frame.antt =====
-- The end of a ban's transaction leaves the bans alone.
use django_boilderplate.Common.Logging.{text, field, end}
use django_boilderplate.World.Monad.{◌>>◌}
use django_boilderplate.Authentication.Tokens.{revoke_all_jwt}
use django_boilderplate.Authentication.Accounts.{is_user, revoke_everything}
use django_boilderplate.Models.Security.{session_revoked}
use django_boilderplate.Bans.{save_status, enforce_ban}
use django_boilderplate.Audit.{record_audit}
use django_boilderplate.Models.Authentication.{UserSession}
use django_boilderplate.Security.Events.{record_event}
use django_boilderplate.Common.Crypto.{decrypt_value}
use django_boilderplate.Common.Network.{Request}
use django_boilderplate.Models.Accounts.{banned, UserBan}
use django_boilderplate.Env.{Env}
use django_boilderplate.World.{
  pure, Action, when, does_not_exist, or_raise, Db, Keeps, Keeps-bind, Keeps-when, Keeps-or_raise,
  Keeps-atomic,
}
use django_boilderplate.Prelude.{
  ◌&&◌, update_where, some, select, none, length, is_some, if◌then◌else◌, false, Bool, ◌∷◌, ◌==◌, ℕ,
  refl, is_none, first, arith, [], String, Option, List,
}
use django_boilderplate.Authentication.Sessions.{
  revoke_at, is_other, is_live_session, current, revoke_all, drop_django_session, revoke_row,
  revoke_locked, revoke, revoke_each,
}

abbrev pub bans : Db → List UserBan
bans db = db.bans

module _ (env : Env) (actor : Option ℕ) (request : Option Request) where
  Keeps-drop_django_session : (encrypted : String) → Keeps bans (drop_django_session env encrypted)
  unfolding drop_django_session decrypt_value
  Keeps-drop_django_session encrypted w = ground arith

  Keeps-revoke_row : (s : UserSession) → Keeps bans (revoke_row env s actor request)
  unfolding revoke_row record_event record_audit
  Keeps-revoke_row s w =
      let rest : Action (Unit {0}) =
        record_event env session_revoked (some s.user) request
          (("session_identifier", s.identifier) ∷ [])
        >> record_audit env "session.revoked" "authentication.usersession" (env.pk_text s.pk) actor
            request end (field "revoked_at" (text (env.isoformat w.now)) end) in
      Keeps-bind bans (drop_django_session env s.encrypted_session_key) (λ _. rest)
        (Keeps-drop_django_session s.encrypted_session_key) (λ _ w. refl)
        (record w {
          db = record w.db {
            user_sessions = update_where (λ r. r.pk == s.pk) (revoke_at w.now) w.db.user_sessions;
          };
        })

  Keeps-revoke_locked : (s : UserSession) → Keeps bans (revoke_locked env s actor request)
  unfolding revoke_locked
  Keeps-revoke_locked s w =
      Keeps-bind bans (or_raise (first (λ r. r.pk == s.pk) w.db.user_sessions) does_not_exist)
        (λ locked. when (is_none locked.revoked_at) (revoke_row env locked actor request))
        (Keeps-or_raise bans (first (λ r. r.pk == s.pk) w.db.user_sessions) does_not_exist)
        (λ locked.
          Keeps-when bans (is_none locked.revoked_at) (revoke_row env locked actor request)
            (Keeps-revoke_row locked))
        w

  Keeps-revoke : (s : UserSession) → Keeps bans (revoke env s actor request)
  unfolding revoke
  Keeps-revoke s = Keeps-atomic bans (revoke_locked env s actor request) (Keeps-revoke_locked s)

  Keeps-revoke_each : (ss : List UserSession) → Keeps bans (revoke_each env ss actor request)
  unfolding revoke_each
  Keeps-revoke_each [] w = refl
  Keeps-revoke_each (s ∷ ss) w =
      Keeps-bind bans (revoke env s actor request) (λ _. revoke_each env ss actor request)
        (Keeps-revoke s) (λ _. Keeps-revoke_each ss) w

  Keeps-revoke_all :
      (user : ℕ) (exclude_current : Bool)
      → Keeps bans (revoke_all env user actor request exclude_current)
  unfolding revoke_all
  Keeps-revoke_all user exclude_current w =
      let keep = (if is_some request && exclude_current then current env w else none) in
      let sessions = select (λ s. is_live_session user s && is_other keep s) w.db.user_sessions in
      Keeps-bind bans (revoke_each env sessions actor request) (λ _. pure (length sessions))
        (Keeps-revoke_each sessions) (λ _ w. refl) w

  pub Keeps-enforce_ban : (user : ℕ) → Keeps bans (enforce_ban env user actor request)
  unfolding enforce_ban revoke_everything revoke_all_jwt
  Keeps-enforce_ban user w =
      let w1 = record w {
        db = record w.db { users = update_where (is_user user) (save_status banned) w.db.users };
      } in
      let rest : Action (Unit {0}) = revoke_all_jwt user >> pure tt in
      Keeps-bind bans (revoke_all env user actor request false) (λ _. rest)
        (Keeps-revoke_all user false) (λ _ w. refl) w1
