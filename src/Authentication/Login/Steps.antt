-- ===== src/Authentication/Login/Steps.antt =====
-- What the steps of a login leave alone and what they have checked where they return.
use django_boilderplate.World.{
  ◌>>=◌, raise_if_ok, bind-raises, when_ok, raise, ◌>>◌, Error, bind-ok, when, Action, err, ok,
  Result, World,
}
use django_boilderplate.Authentication.Login.{
  the_only, authenticate, failure_error, note_failure, login_failed, has_two_factor, check_code,
  authenticated, check_second_factor, check_status, check_account_lock,
}
use django_boilderplate.Authentication.TwoFactor.{authentication_error, verify}
use django_boilderplate.Common.Network.{get_client_ip, Request}
use django_boilderplate.Models.Accounts.{has_active_ban, active, status_eq, User}
use django_boilderplate.Security.Events.{record_event}
use django_boilderplate.Security.LoginProtection.{register_failure, check}
use django_boilderplate.Env.{Env}
use django_boilderplate.Authentication.Accounts.{is_identified, security_settings_of}
use django_boilderplate.Prelude.{
  if◌then◌else◌, str_eq, inr, inl, Bool-cases, ◌≢◌, ◌≡◌, ◌||◌, ℕ, true, some, refl, not, none,
  false, arith, String, Option, Bool,
}

-- What the steps before the second factor leave alone.
abbrev pub Same : World → World → Type 0
Same w w' = (w'.db.bans ≡ w.db.bans) × (w'.now ≡ w.now) × (w'.db.credentials ≡ w.db.credentials)

abbrev pub accepted : Result (Bool × Bool) → Bool
accepted (ok verdict) = verdict.0
accepted (err _) = false

else_some : (c : Bool) (o : Option User) (u : User) → (if c then none else o) ≡ some u → o ≡ some u
else_some true o u h = cc
else_some false o u h = h

pub Same-settings : (user : ℕ) (w : World) → Same w (security_settings_of user w).1
unfolding security_settings_of
Same-settings user w = ground arith

module _ (env : Env) where
  pub Same-lock :
      (user : User) (request : Request) (t : Option ℕ) (w : World)
      → Same w (check_account_lock env user request t w).1
  unfolding check_account_lock record_event
  Same-lock user request none w = (refl, refl, refl)
  Same-lock user request (some t) w = ground arith

  pub check_status_ok :
      (user : User) (w : World) (a : Unit {0})
      → (check_status env user w).0 ≡ ok a
      → (status_eq user.status active ≡ true) × (has_active_ban w.now w.db.bans user.pk ≡ false)
  unfolding check_status
  check_status_ok user w a h = ground arith

  pub check_status-state : (user : User) (w : World) → (check_status env user w).1 ≡ w
  unfolding check_status
  check_status-state user w = ground arith

  never_raised :
      {A B : Type 0} (m : Action A) (e : Error) (w : World) (b : B) → ((m >> raise e) w).0 ≢ ok b
  never_raised m e w b h = bind-raises (λ _. raise e) b m (λ _ _ r. cc) w h

  verdict_ok :
      (identifier : String) (request : Request) (verdict : Bool × Bool) (w : World) (a : Unit {0})
      → (when
          (not verdict.0)
          (register_failure env identifier (get_client_ip env request)
            >> raise authentication_error)
          w).0
        ≡ ok a
      → verdict.0 ≡ true
  verdict_ok identifier request (true, _) w a h = refl
  verdict_ok identifier request (false, _) w a h = absurd (
      never_raised (register_failure env identifier (get_client_ip env request))
        authentication_error w a h)

  check_code_ok :
      (user : User) (identifier : String) (request : Request) (code : String) (w : World)
      (a : Unit {0})
      → (check_code env user identifier request code w).0 ≡ ok a
      → accepted (verify env user code w).0 ≡ true
  unfolding check_code
  check_code_ok user identifier request code w a h =
      let refuse : Bool × Bool → Action (Unit {0}) = λ verdict. when (not verdict.0) (
        register_failure env identifier (get_client_ip env request)
        >> raise authentication_error) in
      let (_, asked) = raise_if_ok (verify env user code >>= refuse) w a (str_eq code "") _ h in
      let (verdict, found, rest) = bind-ok refuse a (verify env user code) w asked in
      simp found (verdict_ok identifier request verdict _ a rest)

  pub check_second_factor_ok :
      (user : User) (identifier : String) (request : Request) (code : String) (w : World)
      (a : Unit {0})
      → (check_second_factor env user identifier request code w).0 ≡ ok a
      → (not (has_two_factor env user w) || accepted (verify env user code w).0) ≡ true
  unfolding check_second_factor
  check_second_factor_ok user identifier request code w a h =
      elim (Bool-cases (has_two_factor env user w)) [
        | inl e ↦ simp e (
            check_code_ok user identifier request code w a
              (when_ok (has_two_factor env user w) _ w a e h))
        | inr e ↦ simp e
      ]

  authenticated_active :
      (password : String) (o : Option User) (user : User)
      → authenticated env password o ≡ some user
      → user.is_active ≡ true
  unfolding authenticated
  authenticated_active password none user h = cc
  authenticated_active password (some u) user h = ground arith

  pub authenticate_active :
      (identifier password : String) (w : World) (user : User)
      → authenticate env identifier password w ≡ some user
      → user.is_active ≡ true
  unfolding authenticate
  authenticate_active identifier password w user h =
      let o = the_only (is_identified env identifier) w.db.users in
      authenticated_active password o user (
        else_some (str_eq identifier "" || str_eq password "") (authenticated env password o) user
          h)

  pub check-state :
      (identifier : String) (ip : Option String) (w : World) → (check env identifier ip w).1 ≡ w
  unfolding check
  check-state identifier ip w = ground arith

  pub login_failed-raises :
      {A : Type 0} (request : Request) (identifier : String) (w : World) (a : A)
      → (login_failed env request identifier w).0 ≢ ok a
  unfolding login_failed
  login_failed-raises request identifier w a h =
      bind-raises
        (λ state. note_failure env request identifier state >> raise (failure_error state)) a
        (register_failure env identifier (get_client_ip env request))
        (λ state v.
          never_raised (note_failure env request identifier state) (failure_error state) v a)
        w h
