-- ===== src/Authentication/Login/Guards.antt =====
-- What a login that returns has checked.
use django_boilderplate.Authentication.Login.Steps.{
  check_second_factor_ok, check_status-state, check_status_ok, authenticate_active, Same-lock,
  check-state, login_failed-raises, Same-settings, Same, accepted,
}
use django_boilderplate.World.{
  api, raise_if, gets, account_locked, ◌>>=◌, raise_if_ok, ◌>>◌, bind-ok, Action, ok, World,
}
use django_boilderplate.Security.LoginProtection.Lockout.{locked_of}
use django_boilderplate.Models.Authentication.{UserSession}
use django_boilderplate.Authentication.Login.{
  authenticate, open_session, login, login_user, has_two_factor, check_second_factor, check_status,
  check_account_lock,
}
use django_boilderplate.Authentication.TwoFactor.{verify}
use django_boilderplate.Common.Network.{get_client_ip, Request}
use django_boilderplate.Models.Accounts.{
  is_locked, can_authenticate_now, later_than, UserSecuritySettings, has_active_ban, active,
  status_eq, User,
}
use django_boilderplate.Security.LoginProtection.{check}
use django_boilderplate.Env.{Env}
use django_boilderplate.Authentication.Accounts.{security_settings_of}
use django_boilderplate.Prelude.{
  ap, ◌∙◌, subst₂, subst, ◌≡◌, ◌||◌, ℕ, true, some, refl, not, none, false, arith, String, Option,
}

-- What a login of the user from the state `w` has to pass: the account has no lock, it may
-- authenticate, and an enabled second factor accepts the code in the state in which it is asked.
abbrev pub Passes : Env → User → Request → String → World → Type 0
Passes env user request code w =
    let (found, w') = security_settings_of user.pk w in
    (s : UserSecuritySettings) × (found ≡ ok s)
    × (is_locked w.now s ≡ false)
    × (can_authenticate_now w.now w.db.bans user ≡ true)
    × ((not (has_two_factor env user w)
          || accepted
              (verify env user code (check_account_lock env user request s.locked_until w').1).0)
        ≡ true)

module _ (env : Env) (user : User) (request : Request) where
  check_account_lock_ok :
      (t : Option ℕ) (w : World) (a : Unit {0})
      → (check_account_lock env user request t w).0 ≡ ok a
      → later_than w.now t ≡ false
  unfolding check_account_lock
  check_account_lock_ok none w a h = refl
  check_account_lock_ok (some t) w a h = ground arith

  has_two_factor-Same :
      (w w' : World) → Same w w' → has_two_factor env user w' ≡ has_two_factor env user w
  unfolding has_two_factor
  has_two_factor-Same w w' same = simp same.2

  can_authenticate_ok :
      (w w' : World)
      → Same w w'
      → user.is_active ≡ true
      → status_eq user.status active ≡ true
      → has_active_ban w'.now w'.db.bans user.pk ≡ false
      → can_authenticate_now w.now w.db.bans user ≡ true
  unfolding can_authenticate_now
  can_authenticate_ok w w' (bans, now, _) active_user status ban =
      let free : has_active_ban w.now w.db.bans user.pk ≡ false =
        subst₂ (λ t rows. has_active_ban t rows user.pk ≡ false) now bans ban in
      simp (active_user, status, free)

  login_user_ok :
      (django_login : User → Action (Unit {0})) (identifier code : String) (w : World)
      (r : User × UserSession)
      → user.is_active ≡ true
      → (login_user env django_login (some user) identifier request code w).0 ≡ ok r
      → Passes env user request code w
  unfolding login_user
  login_user_ok django_login identifier code w r active_user h =
      let finish = open_session env django_login user identifier request in
      let factor = check_second_factor env user identifier request code in
      let lock : UserSecuritySettings → Action (Unit {0}) =
        λ s. check_account_lock env user request s.locked_until in
      let w1 = (security_settings_of user.pk w).1 in
      let (s, found, h1) =
        bind-ok (λ s. lock s >> (check_status env user >> (factor >> finish))) r
          (security_settings_of user.pk) w h in
      let w2 = (lock s w1).1 in
      let (a, unlocked, h2) =
        bind-ok (λ _. check_status env user >> (factor >> finish)) r (lock s) w1 h1 in
      let (b, status, h3) = bind-ok (λ _. factor >> finish) r (check_status env user) w2 h2 in
      let (c, verified, _) = bind-ok (λ _. finish) r factor (check_status env user w2).1 h3 in
      let first_step = Same-settings user.pk w in
      let second_step = Same-lock env user request s.locked_until w1 in
      let same : Same w w2 = (
        second_step.0 ∙ first_step.0,
        second_step.1 ∙ first_step.1,
        second_step.2 ∙ first_step.2,
      ) in
      let (is_status, no_ban) = check_status_ok env user w2 b status in
      let factor_ok : (factor w2).0 ≡ ok c =
        subst (λ v. (factor v).0 ≡ ok c) (check_status-state env user w2) verified in
      (
        s,
        found,
        subst (λ t. later_than t s.locked_until ≡ false) first_step.1
            (check_account_lock_ok s.locked_until w1 a unlocked),
        can_authenticate_ok w w2 same active_user is_status no_ban,
        subst (λ needed. (not needed || accepted (verify env user code w2).0) ≡ true)
            (has_two_factor-Same w w2 same)
            (check_second_factor_ok env user identifier request code w2 c factor_ok),
      )

module _ (env : Env) (django_login : User → Action (Unit {0})) (request : Request) where
  login_found :
      (identifier password code : String) (w : World) (r : User × UserSession)
      → (o : Option User) → authenticate env identifier password w ≡ o
      → (login_user env django_login o identifier request code w).0 ≡ ok r
      → (user : User) × (authenticate env identifier password w ≡ some user)
        × Passes env user request code w
  unfolding login_user authenticate
  login_found identifier password code w r none e h =
      absurd (login_failed-raises env request identifier w r h)
  login_found identifier password code w r (some user) e h = (
    user,
    e,
    login_user_ok env user request django_login identifier code w r
        (authenticate_active env identifier password w user e) h,
  )

  -- Whatever Django's `login` does: when a login returns a user and a session, the login protection
  -- reported no lock; the backend found a user with the identifier and the password; and that
  -- user's account was not locked, was allowed to authenticate at that time, and, where the second
  -- factor is enabled, the code was accepted.
  pub login_guards :
      (identifier password code : String) (w : World) (r : User × UserSession)
      → (login env django_login request identifier password code w).0 ≡ ok r
      → (user : User) × (locked_of (check env identifier (get_client_ip env request) w).0
          ≡ some false)
        × (authenticate env identifier password w ≡ some user)
        × Passes env user request code w
  unfolding login
  login_guards identifier password code w r h =
      let ip = get_client_ip env request in
      let enter_user : Option User → Action (User × UserSession) =
        λ user. login_user env django_login user identifier request code in
      let go = gets (authenticate env identifier password) >>= enter_user in
      let (state, checked, rest) =
        bind-ok
          (λ state. raise_if state.locked (api account_locked 429 (some state.retry_after)) >> go) r
          (check env identifier ip) w h in
      let (no_lock, entered) = raise_if_ok go (check env identifier ip w).1 r state.locked _ rest in
      let found = subst (λ v. (go v).0 ≡ ok r) (check-state env identifier ip w) entered in
      let (user, known, passes) =
        login_found identifier password code w r (authenticate env identifier password w) refl
          found in
      (user, ap locked_of checked ∙ ap some no_lock, known, passes)
