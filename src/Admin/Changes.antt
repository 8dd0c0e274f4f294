-- ===== src/Admin/Changes.antt =====
-- What a change of a user on the admin site does to the user's sessions.
use django_boilderplate.World.{continue, when, ◌>>◌, ◌>>=◌}
use django_boilderplate.Authentication.Accounts.Ending.{revoke_everything_lem}
use django_boilderplate.Api.Accounts.Revoking.{user_or, sessions-save_user, pk-save_user}
use django_boilderplate.Api.Accounts.{save_user}
use django_boilderplate.Authentication.Accounts.Ending.{is_live_jwt}
use django_boilderplate.Authentication.Sessions.{is_live_session}
use django_boilderplate.Authentication.Accounts.{revoke_everything, is_user}
use django_boilderplate.Authentication.Sessions.Rows.{UniquePk}
use django_boilderplate.Common.Crypto.{IsConfigured}
use django_boilderplate.World.{bind-ok, ◌>>=◌, pure, ◌>>◌, Action, ok, World}
use django_boilderplate.Models.Accounts.{User}
use django_boilderplate.Audit.{record_audit}
use django_boilderplate.Common.Logging.{Fields}
use django_boilderplate.Common.Network.{Request}
use django_boilderplate.Env.{Env}
use django_boilderplate.Prelude.{
  if◌then◌else◌, Bool, ◌≡◌, ◌∙◌, ℕ, true, sym, subst, some, refl, first, false, exists, ap, Option,
}
use django_boilderplate.Admin.{
  save_user_model, write_user, audit_save, revoke_changed, login_changed,
}

when_returns :
    (b : Bool) (m : Action (Unit {0})) (v : User) (w : World)
    → (m w).0 ≡ ok tt
    → (when b m >> pure v) w ≡ (ok v, if b then (m w).1 else w)
when_returns true m v w fine = ap (λ r. continue r (λ _. pure v) (m w).1) fine
when_returns false m v w fine = refl

module _ (env : Env) (actor : ℕ) (request : Option Request) (before_ after_ : Fields) where
  -- Where the admin site saves a user whose address, status or activity is not what the row had, every
  -- session of the user is revoked and every refresh token is blacklisted.
  pub save_user_model_lem :
      (user row saved : User) (w : World)
      → IsConfigured env
      → UniquePk w.db.user_sessions
      → first (is_user user.pk) w.db.users ≡ some row
      → login_changed row saved ≡ true
      → (save_user_model env actor request user true before_ after_ w).0 ≡ ok saved
      → let w' = (save_user_model env actor request user true before_ after_ w).1 in
        (exists (is_live_session user.pk) w'.db.user_sessions ≡ false)
        × (exists (is_live_jwt user.pk) w'.db.jwts ≡ false)
  unfolding save_user_model write_user audit_save revoke_changed record_audit
  save_user_model_lem user row saved w configured unique found changed done =
      let log : User → Action (Unit {0}) =
        λ v. audit_save env actor request "accounts.user" v.pk true before_ after_ in
      let put : Option User → User → Action User =
        λ o v. log v >> (revoke_changed env actor request o v >> pure v) in
      let same : save_user_model env actor request user true before_ after_ w
          ≡ (save_user env user >>= put (some row)) w =
        ap (λ o. (save_user env user >>= put o) w) found in
      let (v, was_saved, rest) =
        bind-ok (put (some row)) saved (save_user env user) w (sym (ap (λ r. r.0) same) ∙ done) in
      let w1 = (save_user env user w).1 in
      let w2 = (log v w1).1 in
      let (its_pk, _) = pk-save_user env actor request user v w was_saved in
      let unique2 : UniquePk w2.db.user_sessions =
        subst UniquePk (sym (sessions-save_user env actor request user w)) unique in
      let (fine, live, jwts) =
        revoke_everything_lem env configured v.pk (some actor) request w2 unique2 in
      let w3 = (revoke_everything env v.pk (some actor) request false w2).1 in
      let after_when = (revoke_everything env v.pk (some actor) request false w2).1 in
      let goes =
        when_returns (login_changed row v) (revoke_everything env v.pk (some actor) request false) v
          w2 fine in
      let answer : v ≡ saved = ap (user_or v) (sym (ap (λ r. r.0) goes) ∙ rest) in
      let was : login_changed row v ≡ true =
        subst (λ u. login_changed row u ≡ true) (sym answer) changed in
      let ends : (save_user_model env actor request user true before_ after_ w).1 ≡ after_when =
        ap (λ r. r.1) same
        ∙ ap (λ r. (continue r (put (some row)) w1).1) was_saved
        ∙ ap (λ r. r.1) goes
        ∙ ap (λ b. if b then after_when else w2) was in
      (
        ap (λ x. exists (is_live_session user.pk) x.db.user_sessions) ends
            ∙ subst (λ k. exists (is_live_session k) after_when.db.user_sessions ≡ false) its_pk
                live,
        ap (λ x. exists (is_live_jwt user.pk) x.db.jwts) ends
            ∙ subst (λ k. exists (is_live_jwt k) after_when.db.jwts ≡ false) its_pk jwts,
      )
