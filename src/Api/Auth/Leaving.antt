-- ===== src/Api/Auth/Leaving.antt =====
-- What a logout through the interface leaves of the session.
use django_boilderplate.Authentication.Sessions.{revoke}
use django_boilderplate.Authentication.Sessions.Revocation.{revoke_lem}
use django_boilderplate.Api.Responses.{answered}
use django_boilderplate.Common.Crypto.{IsConfigured}
use django_boilderplate.Common.Errors.{RestResponse}
use django_boilderplate.Common.Network.{Request}
use django_boilderplate.Authentication.Tokens.{invalid_token_error}
use django_boilderplate.Models.Accounts.{User}
use django_boilderplate.World.{
  bind-ok, gets, pure, err, ok, continue, Action, raise_if, Result, ◌>>◌, ◌>>=◌,
}
use django_boilderplate.Api.Auth.Account.{drop_refresh, revoke_current, logout_post}
use django_boilderplate.Env.{Env}
use django_boilderplate.Models.Authentication.{UserSession}
use django_boilderplate.World.{World}
use django_boilderplate.Prelude.{
  sym, subst, first-exists, ◌∙◌, str_eq, not, if◌then◌else◌, ap₂, ap, ◌≡◌, ◌∷◌, ◌&&◌, ℕ,
  update_where, true, some, refl, none, is_none, inr, inl, first, false, exists, arith, [], String,
  Option, List, Bool-cases, Bool,
}
use django_boilderplate.Authentication.Sessions.{session_hash, current}
use django_boilderplate.Api.Auth.{Framework}
use django_boilderplate.Authentication.Sessions.Rows.{UniquePk, has_pk, revoke_once}

-- What the blacklist of simplejwt and Django's logout are documented to do: neither changes the rows
-- of the device sessions, and the blacklist keeps the session of the request.
pub record Spares (django : Framework) : Type 0 where
  pub blacklist_rows :
      (raw : String) (w : World) → (django.blacklist raw w).1.db.user_sessions ≡ w.db.user_sessions
  pub blacklist_key :
      (raw : String) (w : World) → (django.blacklist raw w).1.session_key ≡ w.session_key
  pub logout_rows : (w : World) → (django.logout w).1.db.user_sessions ≡ w.db.user_sessions

abbrev pub is_live_row : ℕ → UserSession → Bool
is_live_row pk s = has_pk pk s && is_none s.revoked_at

live_row-revoked :
    (pk now : ℕ) (rows : List UserSession)
    → exists (is_live_row pk) (update_where (has_pk pk) (revoke_once now) rows) ≡ false
live_row-revoked pk now [] = refl
live_row-revoked pk now (s ∷ rows) = elim (Bool-cases (has_pk pk s)) [
  | inl e ↦ elim (Bool-cases (is_none s.revoked_at)) [
    | inl f ↦ simp (e, f) (ground (arith, live_row-revoked pk now rows))
    | inr f ↦ simp (e, f) (ground (arith, f, live_row-revoked pk now rows))
  ]
  | inr e ↦ simp e (ground (arith, e, live_row-revoked pk now rows))
]

exists-hit :
    {A : Type 0} (p q : A → Bool) (xs : List A) (a : A)
    → first p xs ≡ some a
    → q a ≡ true
    → exists q xs ≡ true
exists-hit p q [] a h e = cc
exists-hit p q (x ∷ xs) a h e = ground (arith, h, e, exists-hit p q xs a)

state-continue :
    {A B : Type 0} (o : Result A) (k : A → Action B) (w : World)
    → ((a : A) → (k a w).1 ≡ w)
    → (continue o k w).1 ≡ w
state-continue (ok a) k w same = same a
state-continue (err e) k w same = refl

module _ (env : Env) (django : Framework) (spares : Spares django) where
  abbrev part : World → List UserSession × Option String
  part w = (w.db.user_sessions, w.session_key)

  part-drop_refresh :
      (raw : Option String) (w : World) → part (drop_refresh env django raw w).1 ≡ part w
  unfolding drop_refresh
  part-drop_refresh none w = refl
  part-drop_refresh (some raw) w = elim (Bool-cases (str_eq raw "")) [
    | inl e ↦ simp e
    | inr e ↦ simp e (
        ap part (
          state-continue (django.blacklist raw w).0
            (λ dropped. raise_if (not dropped) invalid_token_error) (django.blacklist raw w).1
            (λ dropped. ground arith))
        ∙ ap₂ (λ rows key. (rows, key)) (spares.blacklist_rows raw w) (spares.blacklist_key raw w))
  ]

  abbrev found_in : List UserSession → Option String → Option UserSession
  found_in rows none = none
  found_in rows (some key) =
      if str_eq key ""
      then none
      else first (λ s. str_eq s.session_key_hash (session_hash env key)) rows

  found_known :
      (rows : List UserSession) (key : Option String) (session : UserSession)
      → found_in rows key ≡ some session
      → exists (has_pk session.pk) rows ≡ true
  found_known rows none session e = absurd (ground (arith, e))
  found_known rows (some key) session e = elim (Bool-cases (str_eq key "")) [
    | inl f ↦ absurd (ground (arith, e, f))
    | inr f ↦
        exists-hit (λ s. str_eq s.session_key_hash (session_hash env key)) (has_pk session.pk) rows
          session (ground (arith, e, f)) (ground arith)
  ]

  current_found : (w : World) → current env w ≡ found_in w.db.user_sessions w.session_key
  unfolding current
  current_found w = ground arith

  -- After a logout through the interface that succeeds, the row of the device session that the request
  -- came with is revoked, whatever token it gave.
  pub logout_post_lem :
      (user : User) (raw : Option String) (request : Request) (session : UserSession)
      (r : RestResponse) (w : World)
      → IsConfigured env
      → UniquePk w.db.user_sessions
      → current env w ≡ some session
      → (logout_post env django user (some raw) request w).0 ≡ ok r
      → exists
          (is_live_row session.pk)
          (logout_post env django user (some raw) request w).1.db.user_sessions
        ≡ false
  unfolding logout_post revoke_current
  logout_post_lem user raw request session r w configured unique here done =
      let last : Action RestResponse = django.logout >> pure (answered "logged_out") in
      let leave : Option UserSession → Action RestResponse =
        λ o. revoke_current env django user o request >> last in
      let more : Action RestResponse = gets (current env) >>= leave in
      let (_, dropped, then_) = bind-ok (λ _. more) r (drop_refresh env django raw) w done in
      let w1 = (drop_refresh env django raw w).1 in
      let same : part w1 ≡ part w = part-drop_refresh raw w in
      let rows : w1.db.user_sessions ≡ w.db.user_sessions = ap (λ t. t.0) same in
      let current_same : current env w1 ≡ some session =
        current_found w1 ∙ ap (λ t. found_in t.0 t.1) same ∙ sym (current_found w) ∙ here in
      let known =
        found_known w.db.user_sessions w.session_key session (sym (current_found w) ∙ here) in
      let (row, found) = first-exists (has_pk session.pk) w.db.user_sessions known in
      let (fine, _, marked) =
        revoke_lem env configured (some user.pk) (some request) session row w1
          (ap (λ t. first (has_pk session.pk) t) rows ∙ found) (subst UniquePk (sym rows) unique) in
      let w2 = (revoke env session (some user.pk) (some request) w1).1 in
      let goes : (logout_post env django user (some raw) request w).1 ≡ (last w2).1 =
        ap (λ x. (continue x (λ _. more) w1).1) dropped
        ∙ ap (λ o. (leave o w1).1) current_same
        ∙ ap (λ x. (continue x (λ _. last) w2).1) fine in
      let kept : (last w2).1.db.user_sessions ≡ w2.db.user_sessions =
        ap (λ x. x.db.user_sessions)
          (state-continue (django.logout w2).0 (λ _. pure (answered "logged_out"))
            (django.logout w2).1 (λ _. refl))
        ∙ spares.logout_rows w2 in
      ap (λ x. exists (is_live_row session.pk) x.db.user_sessions) goes
      ∙ ap (λ t. exists (is_live_row session.pk) t) (kept ∙ marked)
      ∙ live_row-revoked session.pk w1.now w1.db.user_sessions
