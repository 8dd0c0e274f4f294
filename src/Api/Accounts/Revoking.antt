-- ===== src/Api/Accounts/Revoking.antt =====
-- What an administrator's change of a user does to the user's sessions.
use django_boilderplate.World.{
  db-atomic_ok, enter, ok-atomic, serializer_error, atomic, continue, integrity_error, bind-ok,
  pure, ◌>>◌,
}
use django_boilderplate.Authentication.Accounts.{
  is_username_of_other, is_email_of_other, revoke_everything, save_fields, normalize_email_address,
}
use django_boilderplate.Core.{or_kept}
use django_boilderplate.Authentication.Accounts.Ending.{revoke_everything_lem, is_live_jwt}
use django_boilderplate.Authentication.Sessions.{is_live_session}
use django_boilderplate.Authentication.Sessions.Rows.{UniquePk}
use django_boilderplate.Common.Crypto.{IsConfigured}
use django_boilderplate.World.{when, modify_db, err, raise_if_ok, Action, Result, ok, World}
use django_boilderplate.Audit.{record_audit}
use django_boilderplate.Models.Accounts.{active, AccountStatus, status_eq, User}
use django_boilderplate.Api.Accounts.{
  user_after, user_before, mapped, change_user, is_reserved, given_and, update_user_put,
  validate_user, touches_login, UserData, update_user, save_user,
}
use django_boilderplate.Common.Network.{Request}
use django_boilderplate.Env.{Env}
use django_boilderplate.Prelude.{
  refl, Bool, ◌&&◌, not, none, ◌∙◌, ◌||◌, sym, subst, some, ap, ◌≡◌, ℕ, true, false, exists, arith,
  Option,
}

third_false : (a b c : Bool) → (a || (b || c)) ≡ false → c ≡ false
third_false false false c h = h
third_false true b c h = cc
third_false false true c h = cc

status_eq_refl : (s : AccountStatus) → status_eq s s ≡ true
unfolding status_eq
status_eq_refl active = refl
status_eq_refl _ = refl

kept_status :
    (o : Option AccountStatus) (s : AccountStatus)
    → given_and is_reserved o ≡ false
    → (is_reserved (or_kept o s) && not (status_eq (or_kept o s) s)) ≡ false
kept_status none s h = ground (arith, status_eq_refl s)
kept_status (some t) s h = ap (λ b. b && not (status_eq t s)) h

abbrev data_or : UserData → Result UserData → UserData
data_or d (ok d') = d'
data_or d (err e) = d

abbrev pub user_or : User → Result User → User
user_or u (ok v) = v
user_or u (err e) = u

module _ (env : Env) (actor : ℕ) (request : Option Request) where
  pub sessions-save_user :
      (u : User) (w : World) → (save_user env u w).1.db.user_sessions ≡ w.db.user_sessions
  unfolding save_user
  sessions-save_user u w = ground arith

  pub pk-save_user :
      (u saved : User) (w : World)
      → (save_user env u w).0 ≡ ok saved
      → (saved.pk ≡ u.pk) × (saved.status ≡ u.status)
  unfolding save_user
  pk-save_user u saved w done =
      let stored : User = record u {
        email = normalize_email_address env u.email;
        username = env.strip u.username;
      } in
      let (_, returned) =
        raise_if_ok (modify_db (save_fields u.pk (λ _. stored)) >> pure stored) w saved
          (exists
            (λ v.
              is_email_of_other env u.pk stored.email v
              || is_username_of_other env u.pk stored.username v)
            w.db.users)
          integrity_error done in
      let same : saved ≡ stored = sym (ap (user_or stored) returned) in
      (ap (λ v. v.pk) same, ap (λ v. v.status) same)

  update_user_ends :
      (user saved : User) (d : UserData) (w : World)
      → IsConfigured env
      → UniquePk w.db.user_sessions
      → touches_login d ≡ true
      → (update_user env user d actor request w).0 ≡ ok saved
      → let w' = (update_user env user d actor request w).1 in
        (exists (is_live_session user.pk) w'.db.user_sessions ≡ false)
        × (exists (is_live_jwt user.pk) w'.db.jwts ≡ false)
        × (saved.status ≡ or_kept d.status user.status)
  unfolding update_user record_audit
  update_user_ends user saved d w configured unique touches done =
      let log : User → Action (Unit {0}) = λ v.
        record_audit env "user.updated" "accounts.user" (env.pk_text v.pk) (some actor) request
          (user_before env d user) (user_after env d) in
      let put : User → Action User = λ v.
        when (touches_login d) (revoke_everything env v.pk (some actor) request false)
        >> (log v >> pure v) in
      let (v, was_saved, rest) = bind-ok put saved (save_user env (change_user d user)) w done in
      let w1 = (save_user env (change_user d user) w).1 in
      let same : update_user env user d actor request w ≡ put v w1 =
        ap (λ r. continue r put w1) was_saved in
      let (its_pk, its_status) = pk-save_user (change_user d user) v w was_saved in
      let unique1 = subst UniquePk (sym (sessions-save_user (change_user d user) w)) unique in
      let (fine, live, jwts) =
        revoke_everything_lem env configured v.pk (some actor) request w1 unique1 in
      let w2 = (revoke_everything env v.pk (some actor) request false w1).1 in
      let goes : put v w1 ≡ (ok v, (log v w2).1) =
        ap
          (λ b.
            (when b (revoke_everything env v.pk (some actor) request false) >> (log v >> pure v))
              w1)
          touches
        ∙ ap (λ r. continue r (λ _. log v >> pure v) w2) fine in
      let answer : v ≡ saved = ap (user_or v) (sym (ap (λ x. x.0) goes) ∙ rest) in
      (
        ap (λ x. exists (is_live_session user.pk) x.1.db.user_sessions) (same ∙ goes)
            ∙ subst (λ k. exists (is_live_session k) w2.db.user_sessions ≡ false) its_pk live,
        ap (λ x. exists (is_live_jwt user.pk) x.1.db.jwts) (same ∙ goes)
            ∙ subst (λ k. exists (is_live_jwt k) w2.db.jwts ≡ false) its_pk jwts,
        sym (ap (λ u. u.status) answer) ∙ its_status,
      )

  validate_user-status :
      (user : User) (parsed : Option UserData) (d : UserData) (w : World)
      → (validate_user env user parsed w).0 ≡ ok d
      → given_and is_reserved d.status ≡ false
  unfolding validate_user
  validate_user-status user none d w done = cc
  validate_user-status user (some d') d w done =
      let normal : UserData = record d' {
        email = mapped (normalize_email_address env) d'.email;
        username = mapped env.strip d'.username;
      } in
      let (fine, returned) = raise_if_ok (pure normal) w d _ serializer_error done in
      let same : normal ≡ d = ap (data_or normal) returned in
      ap (λ x. given_and is_reserved x.status) (sym same) ∙ third_false _ _ _ fine

  world-validate_user :
      (user : User) (parsed : Option UserData) (w : World)
      → (validate_user env user parsed w).1.db ≡ w.db
  unfolding validate_user
  world-validate_user user none w = refl
  world-validate_user user (some d) w = ground arith

  -- Where an administrator changes the address, the status or the activity of a user through the
  -- interface, every session of the user is revoked and every refresh token is blacklisted; the new
  -- status is BANNED or DELETED only if it was that before.
  pub update_user_put_lem :
      (user saved : User) (parsed : Option UserData) (d : UserData) (w : World)
      → IsConfigured env
      → UniquePk w.db.user_sessions
      → (validate_user env user parsed w).0 ≡ ok d
      → touches_login d ≡ true
      → (update_user_put env user parsed actor request w).0 ≡ ok saved
      → let w' = (update_user_put env user parsed actor request w).1 in
        (exists (is_live_session user.pk) w'.db.user_sessions ≡ false)
        × (exists (is_live_jwt user.pk) w'.db.jwts ≡ false)
        × ((is_reserved saved.status && not (status_eq saved.status user.status)) ≡ false)
  unfolding update_user_put
  update_user_put_lem user saved parsed d w configured unique valid touches done =
      let body = update_user env user d actor request in
      let w1 = (validate_user env user parsed w).1 in
      let same : update_user_put env user parsed actor request w ≡ atomic body w1 =
        ap (λ r. continue r (λ x. atomic (update_user env user x actor request)) w1) valid in
      let ran = ok-atomic body w1 saved (sym (ap (λ x. x.0) same) ∙ done) in
      let rows : w1.db ≡ w.db = world-validate_user user parsed w in
      let (live, jwts, status) =
        update_user_ends user saved d (enter w1) configured
          (subst (λ db. UniquePk db.user_sessions) (sym rows) unique) touches ran in
      let db_same : (update_user_put env user parsed actor request w).1.db
          ≡ (body (enter w1)).1.db =
        ap (λ x. x.1.db) same ∙ db-atomic_ok body w1 saved ran in
      (
        ap (λ db. exists (is_live_session user.pk) db.user_sessions) db_same ∙ live,
        ap (λ db. exists (is_live_jwt user.pk) db.jwts) db_same ∙ jwts,
        ap (λ s. is_reserved s && not (status_eq s user.status)) status
            ∙ kept_status d.status user.status (validate_user-status user parsed d w valid),
      )
