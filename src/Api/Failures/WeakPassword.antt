-- ===== src/Api/Failures/WeakPassword.antt =====
-- A change of the password to one that the validators refuse.
use django_boilderplate.Api.Auth.{Framework}
use django_boilderplate.Common.Errors.Codes.{error_field}
use django_boilderplate.Api.Failures.{exception_of, respond}
use django_boilderplate.Authentication.Accounts.{is_user}
use django_boilderplate.Api.Auth.Account.{PasswordsData, change_password_post}
use django_boilderplate.Common.Network.{Request}
use django_boilderplate.Common.Errors.{
  unhandled, error_body, render, api_exception_handler, RestResponse, Exception,
}
use django_boilderplate.Models.Accounts.{User}
use django_boilderplate.Common.Logging.{text, Value}
use django_boilderplate.Env.{Env}
use django_boilderplate.World.{validation_error, err, World, Error}
use django_boilderplate.Authentication.Accounts.Passwords.{change_password}
use django_boilderplate.Prelude.{◌≡◌, true, some, refl, none, first, false, String, Option}

change_password_weak :
    (env : Env) (user locked : User) (old new_ : String) (request : Option Request) (w : World)
    → first (is_user user.pk) w.db.users ≡ some locked
    → env.check_password locked.password old ≡ true
    → env.is_valid_password (some locked) new_ ≡ false
    → ((change_password env user old new_ request w).0 ≡ err validation_error)
      × ((change_password env user old new_ request w).1.db ≡ w.db)
unfolding change_password
change_password_weak env user locked old new_ request w found right weak =
    simp (found, right, weak) (refl, refl)

module _ (text_of : Error → String) (str_of : Value → String)
    (exception_handler : Exception → Option RestResponse) (id : Option String) where
  -- A user who gives the right old password and a new one that the validators refuse gets a 500 with
  -- the code INTERNAL_ERROR, where the framework does not answer to exceptions that it does not
  -- know; no row changes.
  pub change_password_500 :
      (env : Env) (django : Framework) (user locked : User) (d : PasswordsData)
      (request : Option Request) (w : World)
      → ((t : String) → exception_handler (unhandled t) ≡ none)
      → first (is_user user.pk) w.db.users ≡ some locked
      → env.check_password locked.password d.old_password ≡ true
      → env.is_valid_password (some locked) d.new_password ≡ false
      → let r = change_password_post env django user (some d) request w in
        let response = respond text_of str_of exception_handler id r.0 in
        (response.status ≡ 500)
        × (error_field "code" response.body ≡ some (text "INTERNAL_ERROR"))
        × (r.1.db ≡ w.db)
  unfolding change_password_post respond exception_of api_exception_handler error_field render
      error_body
  change_password_500 env django user locked d request w unknown found right weak =
      let (raised, same) =
        change_password_weak env user locked d.old_password d.new_password request w found right
          weak in
      simp (raised, unknown (text_of validation_error)) (refl, refl, same)
