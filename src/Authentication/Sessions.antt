-- ===== src/Authentication/Sessions.antt =====
-- `SessionService` of apps/authentication/services.py: the inventory of device sessions over Django's
-- own session table.
use django_boilderplate.Common.Logging.{text, field, end}
use django_boilderplate.Audit.{record_audit}
use django_boilderplate.Models.Security.{session_revoked}
use django_boilderplate.Security.Events.{record_event}
use django_boilderplate.Common.Network.{get_client_ip, Request}
use django_boilderplate.Models.Accounts.{User}
use django_boilderplate.Common.Crypto.{encrypt_value, decrypt_value, keyed_hash}
use django_boilderplate.World.{
  value_error, modify_db, when, does_not_exist, or_raise, draw, ◌>>◌, err, gets, ◌>>=◌, pure,
  atomic, ok, World, Action,
}
use django_boilderplate.Models.Authentication.{UserSession}
use django_boilderplate.Env.{Env, Agent}
use django_boilderplate.Prelude.{
  ◌∷◌, ◌==◌, ◌++◌, ◌&&◌, ℕ, update_where, true, suc, str_eq, some, select, not, none, length,
  is_some, is_none, if◌then◌else◌, first, exists, delete_where, [], String, Option, List, Bool,
}
pub mod Rows
pub mod Revocation

-- `agent.is_mobile`, `is_tablet`, `is_pc` in this order
abbrev device_of : Agent → String
device_of a =
    if a.is_mobile
    then "mobile"
    else if a.is_tablet
    then "tablet"
    else if a.is_pc
    then "pc"
    else "other"

-- The live sessions of a user.
abbrev pub is_live_session : ℕ → UserSession → Bool
is_live_session user s = s.user == user && is_none s.revoked_at

abbrev pub revoke_at : ℕ → UserSession → UserSession
revoke_at now s = record s { revoked_at = some now }

-- `request.session.save()` gives a new session its key.
unfoldable ensure_session : Env → Action String
ensure_session env w = elim w.session_key [
  | some key ↦ (ok key, w)
  | none ↦
      let key = env.random_hex w.draws in
      (
        ok key,
        record w {
          draws = suc w.draws;
          session_key = some key;
          db = record w.db { sessions = w.db.sessions ++ record { session_key = key } ∷ [] };
        },
      )
]

-- `bool(current)` and the query that leaves it out
abbrev pub is_other : Option UserSession → UserSession → Bool
is_other none s = true
is_other (some current) s = not (s.pk == current.pk)

module _ (env : Env) where
  abbrev pub session_hash : String → String
  session_hash key = keyed_hash env key "django-session"

  -- `update_or_create` of the row of a session key
  unfoldable update_or_create_session :
      String → (UserSession → UserSession) → (ℕ → UserSession) → Action UserSession
  update_or_create_session hash update create w =
      elim (first (λ s. str_eq s.session_key_hash hash) w.db.user_sessions) [
        | some s ↦
            let s' = update s in
            (
              ok s',
              record w {
                db = record w.db {
                  user_sessions = update_where (λ r. r.pk == s.pk) (λ _. s') w.db.user_sessions;
                };
              },
            )
        | none ↦
            let s' = create w.next_pk in
            (
              ok s',
              record w {
                next_pk = suc w.next_pk;
                db = record w.db { user_sessions = w.db.user_sessions ++ s' ∷ [] };
              },
            )
      ]

  -- `SessionService.register`: the session row, and whether the device is new.
  unfoldable pub register : User → Request → Action (UserSession × Bool)
  unfolding ensure_session update_or_create_session
  register user request = atomic do
    session_key ← ensure_session env
    let agent_text = env.first_2000 request.user_agent
    let agent = env.parse_user_agent agent_text
    known ← gets (λ w.
        exists (λ s. is_live_session user.pk s && str_eq s.user_agent agent_text)
          w.db.user_sessions)
    n ← draw
    encrypted ← encrypt_value env session_key "django-session"
    now ← gets (λ w. w.now)
    let row : ℕ → UserSession = λ pk. record {
      pk = pk;
      user = user.pk;
      identifier = env.random_hex n;
      session_key_hash = session_hash session_key;
      encrypted_session_key = encrypted;
      ip_address = get_client_ip env request;
      user_agent = agent_text;
      browser = env.strip agent.browser;
      operating_system = env.strip agent.os;
      device = device_of agent;
      last_activity_at = now;
      revoked_at = none;
    }
    session ← update_or_create_session (session_hash session_key) (λ s. row s.pk) row
    pure (session, not known)

  -- `SessionService.current`
  unfoldable pub current : World → Option UserSession
  current w = elim w.session_key [
    | none ↦ none
    | some key ↦
        if str_eq key ""
        then none
        else first (λ s. str_eq s.session_key_hash (session_hash key)) w.db.user_sessions
  ]

  -- The `try` around the removal of the Django session: a `ValueError` is logged.
  unfoldable pub drop_django_session : String → Action (Unit {0})
  drop_django_session encrypted w =
      let (r, w') = decrypt_value env encrypted "django-session" w in
      elim r [
        | ok key ↦ (
          ok tt,
          record w' {
            db = record w'.db {
              sessions = delete_where (λ s. str_eq s.session_key key) w'.db.sessions;
            };
          },
        )
        | err e ↦ elim e [ value_error ↦ (ok tt, w') | other ↦ (err other, w') ]
      ]

  -- What `revoke` does to a row that it has locked and found live.
  unfoldable pub revoke_row : UserSession → (actor : Option ℕ) → Option Request → Action (Unit {0})
  unfolding drop_django_session
  revoke_row locked actor request = do
    now ← gets (λ w. w.now)
    modify_db (λ db. record db {
      user_sessions = update_where (λ s. s.pk == locked.pk) (revoke_at now) db.user_sessions;
    })
    drop_django_session locked.encrypted_session_key
    record_event env session_revoked (some locked.user) request
        (("session_identifier", locked.identifier) ∷ [])
    record_audit env "session.revoked" "authentication.usersession" (env.pk_text locked.pk) actor
        request end (field "revoked_at" (text (env.isoformat now)) end)

  -- the body of `revoke`, inside its transaction
  unfoldable pub revoke_locked :
      UserSession → (actor : Option ℕ) → Option Request → Action (Unit {0})
  revoke_locked session actor request = do
    found ← gets (λ w. first (λ s. s.pk == session.pk) w.db.user_sessions)
    locked ← or_raise found does_not_exist
    when (is_none locked.revoked_at) (revoke_row locked actor request)

  -- `SessionService.revoke`
  unfoldable pub revoke : UserSession → (actor : Option ℕ) → Option Request → Action (Unit {0})
  unfolding revoke_locked
  revoke session actor request = atomic (revoke_locked session actor request)

  -- the loop of `revoke_all`
  unfoldable pub revoke_each :
      List UserSession → (actor : Option ℕ) → Option Request → Action (Unit {0})
  revoke_each [] actor request = pure tt
  revoke_each (s ∷ ss) actor request = do revoke s actor request; revoke_each ss actor request

  -- `SessionService.revoke_all`
  unfoldable pub revoke_all :
      ℕ → (actor : Option ℕ) → Option Request → (exclude_current : Bool) → Action ℕ
  unfolding revoke_each current
  revoke_all user actor request exclude_current = do
    keep ← gets (λ w. if is_some request && exclude_current then current w else none)
    sessions ←
        gets (λ w. select (λ s. is_live_session user s && is_other keep s) w.db.user_sessions)
    revoke_each sessions actor request
    pure (length sessions)
