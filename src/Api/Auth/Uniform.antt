-- ===== src/Api/Auth/Uniform.antt =====
-- What a client learns from the two views that send a link to an address.
use django_boilderplate.Authentication.Accounts.Registration.{resend_verification, resend_to}
use django_boilderplate.World.{continue, pure, Action, ◌>>◌}
use django_boilderplate.Api.Responses.{sent}
use django_boilderplate.Authentication.Accounts.{hour, page, newest, has_email}
use django_boilderplate.Authentication.Tokens.{issue}
use django_boilderplate.Common.Email.{enqueue}
use django_boilderplate.Security.LoginProtection.{second}
use django_boilderplate.Models.Authentication.{email_verification, TokenPurpose, password_reset}
use django_boilderplate.Authentication.Tokens.Issue.{issue-result}
use django_boilderplate.World.{delivery_error, err, Result, ok, World}
use django_boilderplate.Models.Accounts.{User}
use django_boilderplate.Api.Auth.{resend_verification_post, password_reset_post}
use django_boilderplate.Authentication.Accounts.Passwords.{request_password_reset, send_reset}
use django_boilderplate.Env.{Env}
use django_boilderplate.Prelude.{
  sym, is_none, ap, ◌∙◌, ◌&&◌, ℕ, true, false, arith, Bool, ◌≡◌, ◌*◌, some, refl, none, [], String,
  Option,
}

-- No mail raises.
abbrev pub Delivers : Env → Type 0
Delivers env =
    (template recipient link : String) (now : ℕ)
    → env.mail_fails template recipient link now ≡ false

abbrev pub with_mail : {A : Type 0} → A → Bool → Result A
with_mail a true = err delivery_error
with_mail a false = ok a

then_pure :
    {A : Type 0} (m : Action (Unit {0})) (a : A) (b : Bool) (w : World)
    → (m w).0 ≡ with_mail tt b
    → ((m >> pure a) w).0 ≡ with_mail a b
then_pure m a true w h = ap (λ r. (continue r (λ _. pure a) (m w).1).0) h
then_pure m a false w h = ap (λ r. (continue r (λ _. pure a) (m w).1).0) h

module _ (env : Env) where
  -- whether the mail to the user that was found raises
  abbrev pub mail_refused : (template path : String) → Option User → World → Bool
  mail_refused template path none w = false
  mail_refused template path (some user) w =
      env.mail_fails template user.email (page env path (env.random_token w.draws)) w.now

  now-issue :
      (user : ℕ) (purpose : TokenPurpose) (ttl : ℕ) (w : World)
      → (issue env user purpose ttl [] w).1.now ≡ w.now
  unfolding issue
  now-issue user purpose ttl w = ground arith

  enqueue_lem :
      (template recipient link : String) (w : World)
      → (enqueue env template recipient link w).0
        ≡ with_mail tt (env.mail_fails template recipient link w.now)
  unfolding enqueue
  enqueue_lem template recipient link w = ground arith

  send_reset_lem :
      (user : Option User) (w : World)
      → (send_reset env user w).0
        ≡ with_mail tt (mail_refused "password_reset" "/reset-password?token=" user w)
  unfolding send_reset
  send_reset_lem none w = refl
  send_reset_lem (some user) w =
      let ttl = env.settings.password_reset_timeout * second in
      let issued = issue env user.pk password_reset ttl [] w in
      simp (issue-result env user.pk password_reset ttl [] w) (
        enqueue_lem "password_reset" user.email
          (page env "/reset-password?token=" (env.random_token w.draws)) issued.1
        ∙ ap
            (λ t. with_mail tt (
              env.mail_fails "password_reset" user.email
                (page env "/reset-password?token=" (env.random_token w.draws)) t))
            (now-issue user.pk password_reset ttl w))

  resend_to_lem :
      (user : Option User) (w : World)
      → (resend_to env user w).0
        ≡ with_mail tt (mail_refused "email_verification" "/verify-email?token=" user w)
  unfolding resend_to
  resend_to_lem none w = refl
  resend_to_lem (some user) w =
      let issued = issue env user.pk email_verification (24 * hour) [] w in
      simp (issue-result env user.pk email_verification (24 * hour) [] w) (
        enqueue_lem "email_verification" user.email
          (page env "/verify-email?token=" (env.random_token w.draws)) issued.1
        ∙ ap
            (λ t. with_mail tt (
              env.mail_fails "email_verification" user.email
                (page env "/verify-email?token=" (env.random_token w.draws)) t))
            (now-issue user.pk email_verification (24 * hour) w))

  -- The view for a forgotten password raises exactly if an active account has the address and the
  -- mail to the newest one raises; otherwise it has one answer.
  pub password_reset_post_lem :
      (email : String) (w : World)
      → (password_reset_post env (some email) w).0
        ≡ with_mail (sent "If eligible, a password reset email will be sent.") (
            mail_refused "password_reset" "/reset-password?token="
              (newest (λ u. has_email env (env.strip email) u && u.is_active) w.db.users)
              w)
  unfolding password_reset_post request_password_reset
  password_reset_post_lem email w =
      let user = newest (λ u. has_email env (env.strip email) u && u.is_active) w.db.users in
      then_pure (request_password_reset env email)
        (sent "If eligible, a password reset email will be sent.")
        (mail_refused "password_reset" "/reset-password?token=" user w) w (send_reset_lem user w)

  resend_verification_post_lem :
      (email : String) (w : World)
      → (resend_verification_post env (some email) w).0
        ≡ with_mail (sent "If eligible, a verification email will be sent.") (
            mail_refused "email_verification" "/verify-email?token="
              (newest
                (λ u.
                  has_email env (env.strip email) u && (is_none u.email_verified_at && u.is_active))
                w.db.users)
              w)
  unfolding resend_verification_post resend_verification
  resend_verification_post_lem email w =
      let user =
        newest
          (λ u. has_email env (env.strip email) u && (is_none u.email_verified_at && u.is_active))
          w.db.users in
      then_pure (resend_verification env email)
        (sent "If eligible, a verification email will be sent.")
        (mail_refused "email_verification" "/verify-email?token=" user w) w (resend_to_lem user w)

  module _ (delivers : Delivers env) where
    mail_refused-false :
        (template path : String) (user : Option User) (w : World)
        → mail_refused template path user w ≡ false
    mail_refused-false template path none w = refl
    mail_refused-false template path (some user) w = delivers _ _ _ _

    -- Where no mail raises, the answers of the two views that send a link (for a new password, and for
    -- the verification of the address) to the same request are equal in any two states.
    pub uniform_answers :
        (parsed : Option String) (w w' : World)
        → ((password_reset_post env parsed w).0 ≡ (password_reset_post env parsed w').0)
          × ((resend_verification_post env parsed w).0 ≡ (resend_verification_post env parsed w').0)
    unfolding password_reset_post resend_verification_post
    uniform_answers none w w' = (refl, refl)
    uniform_answers (some email) w w' =
        let settle : (v : World)
            → ((password_reset_post env (some email) v).0
                ≡ ok (sent "If eligible, a password reset email will be sent."))
              × ((resend_verification_post env (some email) v).0
                  ≡ ok (sent "If eligible, a verification email will be sent.")) =
          λ v. (
            password_reset_post_lem email v ∙ ap (with_mail _) (mail_refused-false _ _ _ v),
            resend_verification_post_lem email v ∙ ap (with_mail _) (mail_refused-false _ _ _ v),
          ) in
        ((settle w).0 ∙ sym (settle w').0, (settle w).1 ∙ sym (settle w').1)
