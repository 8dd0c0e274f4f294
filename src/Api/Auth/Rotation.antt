-- ===== src/Api/Auth/Rotation.antt =====
-- The session in which a user changes the password. Django gives it a new key; the row of the session
-- keeps the digest of the old one.
use django_boilderplate.Middleware.Flushing.{
  check_session_stays, prepare-present, was_revoked, ends,
}
use django_boilderplate.World.{
  does_not_exist, or_raise_ok, bind-ok, ◌>>=◌, pure, ◌>>◌, Action, ok, World,
}
use django_boilderplate.Authentication.Accounts.{is_user, get_user}
use django_boilderplate.Api.Responses.{answered}
use django_boilderplate.Authentication.Accounts.Passwords.{change_password}
use django_boilderplate.Common.Errors.{RestResponse}
use django_boilderplate.Common.Network.{Request}
use django_boilderplate.Middleware.{keep_session, check_session, prepare}
use django_boilderplate.Api.Auth.Account.{PasswordsData, change_password_post}
use django_boilderplate.Authentication.Sessions.{session_hash, current}
use django_boilderplate.Models.Authentication.{UserSession}
use django_boilderplate.Models.Accounts.{can_authenticate_now, User}
use django_boilderplate.Env.{Env}
use django_boilderplate.Api.Auth.{Framework}
use django_boilderplate.Prelude.{
  ◌||◌, not, false, ap₂, arith, ◌∙◌, sym, subst, inr, inl, ap, Bool-cases, ◌≡◌, ℕ, true, str_eq,
  some, none, first, String, Option, List,
}

-- What `update_session_auth_hash` is documented to do: the session has a new key, and the rows of the
-- device sessions and of the users are as they were.
pub record Rotates (django : Framework) (key : String) : Type 0 where
  pub succeeds : (u : User) (w : World) → (django.update_session_auth_hash u w).0 ≡ ok tt
  pub new_key :
      (u : User) (w : World) → (django.update_session_auth_hash u w).1.session_key ≡ some key
  pub keeps_rows :
      (u : User) (w : World)
      → (django.update_session_auth_hash u w).1.db.user_sessions ≡ w.db.user_sessions

module _ (env : Env) (django : Framework) (key : String) (rotates : Rotates django key) where
  abbrev Unlisted : List UserSession → Type 0
  Unlisted rows = first (λ s. str_eq s.session_key_hash (session_hash env key)) rows ≡ none

  current-key :
      (w : World) → w.session_key ≡ some key → Unlisted w.db.user_sessions → current env w ≡ none
  unfolding current
  current-key w e missing = ground (arith, e, missing)

  passes :
      (viewer : User) (w : World)
      → w.session_key ≡ some key
      → Unlisted w.db.user_sessions
      → can_authenticate_now w.now w.db.bans viewer ≡ true
      → prepare env (some viewer) w ≡ (ok tt, w)
  unfolding prepare check_session keep_session
  passes viewer w e missing able = elim (Bool-cases (str_eq key "")) [
    | inl empty ↦ ground (arith, e, empty)
    | inr filled ↦
        let nobody = current-key w e missing in
        let stays : ends env viewer key w e filled ≡ false =
          ap₂ (λ a o. not a || was_revoked o) able nobody in
        prepare-present env viewer key w e filled
        ∙ check_session_stays env viewer key w e filled stays
        ∙ ap (λ o. keep_session o w) nobody
  ]

  -- The view ends in the rotation of the key after the change.
  post-rotated :
      (user : User) (d : PasswordsData) (request : Option Request) (w : World) (r : RestResponse)
      → (change_password_post env django user (some d) request w).0 ≡ ok r
      → (u : User) × ((change_password_post env django user (some d) request w).1
          ≡ (django.update_session_auth_hash u
              (change_password env user d.old_password d.new_password request w).1).1)
  unfolding change_password_post
  post-rotated user d request w r done =
      let m = change_password env user d.old_password d.new_password request in
      let rest : User → Action RestResponse =
        λ u. django.update_session_auth_hash u >> pure (answered "password_changed") in
      let k = get_user user.pk >>= rest in
      let (a, changed, more) = bind-ok (λ _. k) r m w done in
      let (u, found, last) =
        or_raise_ok rest r (first (is_user user.pk) (m w).1.db.users) does_not_exist (m w).1 more in
      (u, simp (changed, found, rotates.succeeds u (m w).1))

  -- After a change of the password, where no row has the digest of the new session key, the session
  -- that made the change is not found among the device sessions, and the middleware lets it pass at
  -- any later time at which the user may authenticate.
  pub change_password-Unlisted :
      (user : User) (d : PasswordsData) (request : Option Request) (w : World) (r : RestResponse)
      → (viewer : User) (later : ℕ)
      → (change_password_post env django user (some d) request w).0 ≡ ok r
      → Unlisted
          (change_password env user d.old_password d.new_password request w).1.db.user_sessions
      → let w' = record (change_password_post env django user (some d) request w).1 {
        now = later;
      } in
        can_authenticate_now later w'.db.bans viewer ≡ true
        → (current env w' ≡ none) × (prepare env (some viewer) w' ≡ (ok tt, w'))
  unfolding change_password_post prepare check_session
  change_password-Unlisted user d request w r viewer later done missing able =
      let (u, same) = post-rotated user d request w r done in
      let after_ = (change_password_post env django user (some d) request w).1 in
      let changed = (change_password env user d.old_password d.new_password request w).1 in
      let w' = record after_ { now = later } in
      let new_ : w'.session_key ≡ some key =
        ap (λ v. v.session_key) same ∙ rotates.new_key u changed in
      let rows : after_.db.user_sessions ≡ changed.db.user_sessions =
        ap (λ v. v.db.user_sessions) same ∙ rotates.keeps_rows u changed in
      let still : Unlisted w'.db.user_sessions = subst Unlisted (sym rows) missing in
      (current-key w' new_ still, passes viewer w' new_ still able)
