-- ===== src/Authentication/Sessions/Revocation.antt =====
-- Revoking the sessions of a user leaves none of them live.
use django_boilderplate.Authentication.Sessions.Rows.{
  revoke_together, UniquePk-update_where, exists-revoke_named, named_nil, revoke_once_pk,
  revoke_once_unique, named_in, revoke_once, has_pk, UniquePk,
}
use django_boilderplate.Audit.{record_audit}
use django_boilderplate.Security.Events.{record_event}
use django_boilderplate.World.{db-atomic_ok, now-atomic, atomic-ok, enter, ok, World}
use django_boilderplate.Common.Crypto.{IsConfigured, decrypt_value}
use django_boilderplate.Common.Network.{Request}
use django_boilderplate.Authentication.Sessions.{
  revoke_all, current, is_other, revoke_each, revoke, revoke_locked, revoke_row,
  drop_django_session, is_live_session, revoke_at,
}
use django_boilderplate.Env.{Env}
use django_boilderplate.Models.Authentication.{UserSession}
use django_boilderplate.Prelude.{
  none, length, is_some, All-map, subst, first-exists, ap₂, ◌∙◌, sym, ap, All, first-passes,
  update_where_unmatched, select, exists-update_where, String, Option, ==_iff, ◌≡◌, ◌∷◌, ◌&&◌, ℕ,
  update_where, true, some, refl, is_none, inr, inl, if◌then◌else◌, first, false, exists, arith, [],
  List, Bool-cases, Bool,
}

module _ (env : Env) (configured : IsConfigured env) (actor : Option ℕ)
    (request : Option Request) where
  -- Dropping the Django session of a row cannot raise and leaves the rows alone.
  drop_ok : (encrypted : String) (w : World) → (drop_django_session env encrypted w).0 ≡ ok tt
  unfolding drop_django_session decrypt_value
  drop_ok encrypted w = ground arith

  sessions-drop :
      (encrypted : String) (w : World)
      → (drop_django_session env encrypted w).1.db.user_sessions ≡ w.db.user_sessions
  unfolding drop_django_session decrypt_value
  sessions-drop encrypted w = ground arith

  now-drop : (encrypted : String) (w : World) → (drop_django_session env encrypted w).1.now ≡ w.now
  unfolding drop_django_session decrypt_value
  now-drop encrypted w = ground arith

  revoke_row_ok : (r : UserSession) (w : World) → (revoke_row env r actor request w).0 ≡ ok tt
  unfolding revoke_row record_event record_audit
  revoke_row_ok r w = simp drop_ok

  sessions-revoke_row :
      (r : UserSession) (w : World)
      → (revoke_row env r actor request w).1.db.user_sessions
        ≡ update_where (has_pk r.pk) (revoke_at w.now) w.db.user_sessions
  unfolding revoke_row record_event record_audit
  sessions-revoke_row r w = simp (drop_ok, sessions-drop)

  now-revoke_row : (r : UserSession) (w : World) → (revoke_row env r actor request w).1.now ≡ w.now
  unfolding revoke_row record_event record_audit
  now-revoke_row r w = simp (drop_ok, now-drop)

  module _ (s r : UserSession) (w : World)
      (found : first (has_pk s.pk) w.db.user_sessions ≡ some r) where
    revoke_locked_ok : (revoke_locked env s actor request w).0 ≡ ok tt
    unfolding revoke_locked
    revoke_locked_ok = simp found (elim (Bool-cases (is_none r.revoked_at)) [
      | inl e ↦ simp e (revoke_row_ok r w)
      | inr e ↦ simp e
    ])

    now-revoke_locked : (revoke_locked env s actor request w).1.now ≡ w.now
    unfolding revoke_locked
    now-revoke_locked = simp found (elim (Bool-cases (is_none r.revoked_at)) [
      | inl e ↦ simp e (now-revoke_row r w)
      | inr e ↦ simp e
    ])

    sessions-revoke_locked : (revoke_locked env s actor request w).1.db.user_sessions ≡ (
        if is_none r.revoked_at
        then update_where (has_pk r.pk) (revoke_at w.now) w.db.user_sessions
        else w.db.user_sessions)
    unfolding revoke_locked
    sessions-revoke_locked = simp found (elim (Bool-cases (is_none r.revoked_at)) [
      | inl e ↦ simp e (sessions-revoke_row r w)
      | inr e ↦ simp e
    ])

    pk-found : r.pk ≡ s.pk
    pk-found = (==_iff r.pk s.pk).0 (first-passes (has_pk s.pk) w.db.user_sessions found)

  -- Under unique keys, `revoke` marks the row of the session unless it is marked.
  pub revoke_lem :
      (s r : UserSession) (w : World)
      → first (has_pk s.pk) w.db.user_sessions ≡ some r
      → UniquePk w.db.user_sessions
      → ((revoke env s actor request w).0 ≡ ok tt)
        × ((revoke env s actor request w).1.now ≡ w.now)
        × ((revoke env s actor request w).1.db.user_sessions
            ≡ update_where (has_pk s.pk) (revoke_once w.now) w.db.user_sessions)
  unfolding revoke
  revoke_lem s r w found unique =
      let body = revoke_locked env s actor request in
      let fine = revoke_locked_ok s r (enter w) found in
      (
        atomic-ok body w tt fine,
        now-atomic body w ∙ now-revoke_locked s r (enter w) found,
        ap (λ db. db.user_sessions) (db-atomic_ok body w tt fine)
            ∙ sessions-revoke_locked s r (enter w) found
            ∙ rw (pk-found s r w found)
                (sym (revoke_once_unique w.now s.pk w.db.user_sessions r unique found)),
      )

  known-update_where :
      (p : UserSession → Bool) (now : ℕ) (rows ss : List UserSession)
      → All (λ s. exists (has_pk s.pk) rows ≡ true) ss
      → All (λ s. exists (has_pk s.pk) (update_where p (revoke_once now) rows) ≡ true) ss
  known-update_where p now rows [] h = tt
  known-update_where p now rows (s ∷ ss) h = (
    exists-update_where (has_pk s.pk) p (revoke_once now) rows (revoke_once_pk now s.pk) ∙ h.0,
    known-update_where p now rows ss h.1,
  )

  -- The loop marks every row that a session names, whether or not it was marked.
  revoke_each_lem :
      (ss : List UserSession) (w : World)
      → UniquePk w.db.user_sessions
      → All (λ s. exists (has_pk s.pk) w.db.user_sessions ≡ true) ss
      → ((revoke_each env ss actor request w).0 ≡ ok tt)
        × ((revoke_each env ss actor request w).1.db.user_sessions
            ≡ update_where (named_in ss) (revoke_once w.now) w.db.user_sessions)
  unfolding revoke_each
  revoke_each_lem [] w unique known = (
    refl,
    sym (
        update_where_unmatched (named_in []) (revoke_once w.now) w.db.user_sessions
          (named_nil w.db.user_sessions)),
  )
  revoke_each_lem (s ∷ ss) w unique known =
      let rows = w.db.user_sessions in
      let (r, found) = first-exists (has_pk s.pk) rows known.0 in
      let done = revoke_lem s r w found unique in
      let w' = (revoke env s actor request w).1 in
      let rest =
        revoke_each_lem ss w'
          (subst UniquePk (sym done.2) (UniquePk-update_where (has_pk s.pk) w.now rows unique))
          (subst (λ rs. All (λ t. exists (has_pk t.pk) rs ≡ true) ss) (sym done.2)
            (known-update_where (has_pk s.pk) w.now rows ss known.1)) in
      simp done.0 (
        rest.0,
        rest.1
            ∙ ap₂ (λ now rs. update_where (named_in ss) (revoke_once now) rs) done.1 done.2
            ∙ revoke_together w.now s ss rows,
      )

known-select :
    (p : UserSession → Bool) (rows : List UserSession)
    → All (λ s. exists (has_pk s.pk) rows ≡ true) (select p rows)
known-select p [] = tt
known-select p (r ∷ rows) =
    let rest : All (λ s. exists (has_pk s.pk) (r ∷ rows) ≡ true) (select p rows) =
      All-map (λ s h. ground arith) (select p rows) (known-select p rows) in
    elim (Bool-cases (p r)) [ inl e ↦ simp e (ground arith, rest) | inr e ↦ simp e rest ]

is_other-revoke_once :
    (keep : Option UserSession) (now : ℕ) (s : UserSession)
    → is_other keep (revoke_once now s) ≡ is_other keep s
is_other-revoke_once none now s = refl
is_other-revoke_once (some current) now s = ground arith

-- The session that a call spares: the request's own, where it asks for that.
abbrev pub spared : Env → Option Request → Bool → World → Option UserSession
spared env request exclude_current w =
    if is_some request && exclude_current then current env w else none

-- The rows that a call has to revoke.
abbrev pub to_revoke : ℕ → Option UserSession → UserSession → Bool
to_revoke user keep s = is_live_session user s && is_other keep s

-- Where the encryption key is configured and no two session rows share a primary key: revoking the
-- sessions of a user returns how many live ones there were besides the spared one, and leaves none
-- of them live; the rows that change are those of these sessions, which get the time of revocation.
pub revoke_all_lem :
    (env : Env) (user : ℕ) (actor : Option ℕ) (request : Option Request) (exclude_current : Bool)
    (w : World)
    → IsConfigured env
    → UniquePk w.db.user_sessions
    → let (r, w') = revoke_all env user actor request exclude_current w in
      let p = to_revoke user (spared env request exclude_current w) in
      (r ≡ ok (length (select p w.db.user_sessions)))
      × (exists p w'.db.user_sessions ≡ false)
      × (w'.db.user_sessions
          ≡ update_where
              (named_in (select p w.db.user_sessions))
              (revoke_once w.now)
              w.db.user_sessions)
unfolding revoke_all
revoke_all_lem env user actor request exclude_current w configured unique =
    let keep = spared env request exclude_current w in
    let p = to_revoke user keep in
    let rows = w.db.user_sessions in
    let done =
      revoke_each_lem env configured actor request (select p rows) w unique (known-select p rows) in
    simp done.0 (
      refl,
      ap (exists p) done.1
          ∙ exists-revoke_named w.now user (is_other keep) [] rows
              (is_other-revoke_once keep w.now),
      done.1,
    )
