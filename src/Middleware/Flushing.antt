-- ===== src/Middleware/Flushing.antt =====
-- When the middleware ends a session.
use django_boilderplate.World.{when, World}
use django_boilderplate.Models.Accounts.{can_authenticate_now, User}
use django_boilderplate.Env.{Env}
use django_boilderplate.Middleware.{
  touch_session, touch_interval, flush_key, flush, has_session, keep_session, check_session,
  prepare,
}
use django_boilderplate.Models.Authentication.{is_revoked, UserSession}
use django_boilderplate.Prelude.{
  ◌∙◌, ◌+◌, refl, ltb, arith, ap, true, inr, inl, Option-cases, Bool-cases, ◌≡◌, ◌||◌, str_eq, some,
  not, none, if◌then◌else◌, false, delete_where, String, Option, Bool,
}
use django_boilderplate.Authentication.Sessions.{current}

-- the row of the session is revoked
abbrev pub was_revoked : Option UserSession → Bool
was_revoked none = false
was_revoked (some s) = is_revoked s

module _ (env : Env) (user : User) (key : String) (w : World) (present : w.session_key ≡ some key)
    (filled : str_eq key "" ≡ false) where
  abbrev pub ends : Bool
  ends = not (can_authenticate_now w.now w.db.bans user) || was_revoked (current env w)

  pub prepare-present : prepare env (some user) w ≡ check_session env user w
  unfolding prepare
  prepare-present =
      let there : has_session w ≡ true = ground (arith, present, filled) in
      ap (λ b. when b (check_session env user) w) there

  flush_lem :
      ((flush w).1.session_key ≡ none)
      × ((flush w).1.db.sessions ≡ delete_where (λ s. str_eq s.session_key key) w.db.sessions)
  flush_lem = (
    ap (λ o. (flush_key o w).1.session_key) present,
    ap (λ o. (flush_key o w).1.db.sessions) present,
  )

  check_session-ends : ends ≡ true → check_session env user w ≡ flush w
  unfolding check_session keep_session
  check_session-ends h = elim (Bool-cases (can_authenticate_now w.now w.db.bans user)) [
    | inl e ↦ elim (Option-cases (current env w)) [
      | inl f ↦ absurd (ground (arith, h, e, f))
      | inr (s, f) ↦
          let g : is_revoked s ≡ true = ground (arith, h, e, f) in
          ap (λ b. (if b then keep_session (current env w) else flush) w) e
          ∙ ap (λ o. keep_session o w) f
          ∙ ap
              (λ b.
                (if b
                    then flush
                    else when (ltb (s.last_activity_at + touch_interval) w.now) (touch_session s))
                  w)
              g
    ]
    | inr e ↦ ap (λ b. (if b then keep_session (current env w) else flush) w) e
  ]

  keep_session_stays :
      (o : Option UserSession)
      → was_revoked o ≡ false
      → ((keep_session o w).1.session_key ≡ w.session_key)
        × ((keep_session o w).1.db.sessions ≡ w.db.sessions)
  unfolding keep_session
  keep_session_stays none h = (refl, refl)
  keep_session_stays (some s) h =
      elim (Bool-cases (ltb (s.last_activity_at + touch_interval) w.now)) [
        | inl t ↦ (simp (h, t), simp (h, t))
        | inr t ↦ (simp (h, t), simp (h, t))
      ]

  pub check_session_stays : ends ≡ false → check_session env user w ≡ keep_session (current env w) w
  unfolding check_session
  check_session_stays h =
      let e : can_authenticate_now w.now w.db.bans user ≡ true = ground (arith, h) in
      ap (λ b. (if b then keep_session (current env w) else flush) w) e

-- Where a request with a session comes from a user who may not authenticate now, or whose session is
-- revoked, the request goes on without a session key, and the Django session is gone; otherwise it
-- keeps its key and no Django session is removed.
pub prepare_lem :
    (env : Env) (user : User) (key : String) (w : World)
    → w.session_key ≡ some key
    → str_eq key "" ≡ false
    → let w' = (prepare env (some user) w).1 in
      let ended = not (can_authenticate_now w.now w.db.bans user) || was_revoked (current env w) in
      (w'.session_key ≡ (if ended then none else some key))
      × (w'.db.sessions ≡ (
          if ended
          then delete_where (λ s. str_eq s.session_key key) w.db.sessions
          else w.db.sessions))
prepare_lem env user key w present filled =
    let going = prepare-present env user key w present filled in
    let (no_key, removed) = flush_lem env user key w present filled in
    elim (Bool-cases (ends env user key w present filled)) [
      | inl e ↦
          let out = going ∙ check_session-ends env user key w present filled e in
          (
            simp e (ap (λ x. x.1.session_key) out ∙ no_key),
            simp e (ap (λ x. x.1.db.sessions) out ∙ removed),
          )
      | inr e ↦
          let out = going ∙ check_session_stays env user key w present filled e in
          let (same_key, same) =
            keep_session_stays env user key w present filled (current env w) (ground (arith, e)) in
          (
            simp e (ap (λ x. x.1.session_key) out ∙ same_key ∙ present),
            simp e (ap (λ x. x.1.db.sessions) out ∙ same),
          )
    ]
