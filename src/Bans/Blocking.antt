-- ===== src/Bans/Blocking.antt =====
-- A ban keeps its user out while it lasts.
use django_boilderplate.Bans.Frame.{bans, Keeps-enforce_ban}
use django_boilderplate.World.Monad.{◌>>=◌, ◌>>◌}
use django_boilderplate.Common.Logging.{text, field, end}
use django_boilderplate.Authentication.Accounts.{get_user, is_user}
use django_boilderplate.Bans.{
  integrity_error, expiry_value, or_now, create_ban, ban_locked, finish_ban, ban, enforce_ban,
}
use django_boilderplate.Audit.{record_audit}
use django_boilderplate.Common.Network.{Request}
use django_boilderplate.Models.Accounts.{
  active, status_eq, ban_is_active, open_ended, User, has_active_ban, can_authenticate_now, UserBan,
}
use django_boilderplate.Env.{Env}
use django_boilderplate.World.{
  db-atomic_ok, enter, or_raise_ok, ok-atomic, err, value_or, bind-ok, ok, World, pure, Action,
  when, does_not_exist, or_raise, Keeps, Keeps-bind, Keeps-when,
}
use django_boilderplate.Prelude.{
  ◌||◌, not, exists, ◌∙◌, sym, suc, first-passes, exists-append, ==_iff, ◌++◌, leb, inr, inl, ap,
  Bool-cases, ◌≤◌, ◌≡◌, ◌&&◌, true, none, false, Bool, ◌∷◌, ◌==◌, ℕ, refl, first, arith, [], String,
  Option, List,
}

module _ (env : Env) (actor : Option ℕ) (request : Option Request) where
  module _ (reason : String) (expires_at : Option ℕ) (made : UserBan) where
    abbrev recorded : Action UserBan
    recorded =
        record_audit env "account.banned" "accounts.user" (env.pk_text made.user) actor request end
          (field "reason" (text reason) (field "expires_at" (expiry_value env expires_at) end))
        >> pure made

    finish_ban_ok :
        (row : UserBan) (w : World)
        → (finish_ban env made reason actor expires_at request w).0 ≡ ok row
        → made ≡ row
    unfolding finish_ban record_audit
    finish_ban_ok row w done =
        let (_, _, rest) =
          bind-ok (λ _. recorded) row
            (when (leb made.starts_at w.now) (enforce_ban env made.user actor request)) w done in
        ap (value_or row) rest

    Keeps-finish_ban : Keeps bans (finish_ban env made reason actor expires_at request)
    unfolding finish_ban record_audit
    Keeps-finish_ban w =
        let enforced = when (leb made.starts_at w.now) (enforce_ban env made.user actor request) in
        Keeps-bind bans enforced (λ _. recorded)
          (Keeps-when bans (leb made.starts_at w.now) (enforce_ban env made.user actor request)
            (Keeps-enforce_ban env actor request made.user))
          (λ _ w. refl) w

  -- What the body of `ban` leaves, for the user that it has locked.
  ban_locked_ok :
      (reason : String) (starts_at expires_at : Option ℕ) (user : User) (row : UserBan) (w : World)
      → (ban_locked env reason actor starts_at expires_at request user w).0 ≡ ok row
      → (row.user ≡ user.pk)
        × (row.revoked_at ≡ none)
        × ((ban_locked env reason actor starts_at expires_at request user w).1.db.bans
            ≡ w.db.bans ++ row ∷ [])
  unfolding ban_locked create_ban
  ban_locked_ok reason starts_at expires_at user row w done =
      let start = or_now w.now starts_at in
      let made : UserBan = record {
        pk = w.next_pk;
        user = user.pk;
        reason = reason;
        banned_by = actor;
        starts_at = start;
        expires_at = expires_at;
        revoked_at = none;
      } in
      let w1 = record w {
        next_pk = suc w.next_pk;
        db = record w.db { bans = w.db.bans ++ made ∷ [] };
      } in
      elim (Bool-cases (open_ended start expires_at)) [
        | inl e ↦
            let same : ban_locked env reason actor starts_at expires_at request user w
                ≡ finish_ban env made reason actor expires_at request w1 =
              simp e in
            let is_made =
              finish_ban_ok reason expires_at made row w1 (sym (ap (λ x. x.0) same) ∙ done) in
            (
              ap (λ b. b.user) (sym is_made),
              ap (λ b. b.revoked_at) (sym is_made),
              ap (λ x. x.1.db.bans) same
                  ∙ Keeps-finish_ban reason expires_at made w1
                  ∙ ap (λ b. w.db.bans ++ b ∷ []) is_made,
            )
        | inr e ↦
            let refused : (ban_locked env reason actor starts_at expires_at request user w).0
                ≡ err integrity_error =
              simp e in
            absurd (ground (arith, sym refused ∙ done))
      ]

any_last : (x y : Bool) → y ≡ true → (x || (y || false)) ≡ true
any_last x y h = ground (arith, h)

outcome : (x y z : Bool) → z ≡ true → (x && (y && not z)) ≡ false
outcome x y z h = ground (arith, h)

blocked :
    (rows : List UserBan) (row : UserBan) (user : User) (later : ℕ)
    → row.user ≡ user.pk
    → row.revoked_at ≡ none
    → row.starts_at ≤ later
    → open_ended later row.expires_at ≡ true
    → can_authenticate_now later (rows ++ row ∷ []) user ≡ false
unfolding can_authenticate_now has_active_ban
blocked rows row user later owner live begun lasting =
    let counts : (row.user == user.pk && ban_is_active later row) ≡ true =
      ground (arith, owner, live, begun, lasting) in
    let there = exists-append (λ b. b.user == user.pk && ban_is_active later b) rows (row ∷ []) in
    outcome user.is_active (status_eq user.status active)
      (exists (λ b. b.user == user.pk && ban_is_active later b) (rows ++ row ∷ []))
      (there
        ∙ any_last (exists (λ b. b.user == user.pk && ban_is_active later b) rows)
            (row.user == user.pk && ban_is_active later row) counts)

-- A ban is in force at every time from its start to its end: until it is revoked, no row of the user
-- can authenticate at such a time, whatever else the row says and whatever bans were there before.
pub ban-blocks :
    (env : Env) (user : User) (reason : String) (actor starts_at expires_at : Option ℕ)
    (request : Option Request) (w : World) (row : UserBan) (later : ℕ)
    → (ban env user.pk reason actor starts_at expires_at request w).0 ≡ ok row
    → row.starts_at ≤ later
    → open_ended later row.expires_at ≡ true
    → can_authenticate_now later
        (ban env user.pk reason actor starts_at expires_at request w).1.db.bans
        user
      ≡ false
unfolding ban
ban-blocks env user reason actor starts_at expires_at request w row later done begun lasting =
    let rest = ban_locked env reason actor starts_at expires_at request in
    let body = get_user user.pk >>= rest in
    let ran = ok-atomic body w row done in
    let (u, found, banned_u) =
      or_raise_ok rest row (first (is_user user.pk) w.db.users) does_not_exist (enter w) ran in
    let same_pk = (==_iff u.pk user.pk).0 (first-passes (is_user user.pk) w.db.users found) in
    let (owner, live, rows) =
      ban_locked_ok env actor request reason starts_at expires_at u row (enter w) banned_u in
    let after_ban : (ban env user.pk reason actor starts_at expires_at request w).1.db.bans
        ≡ w.db.bans ++ row ∷ [] =
      ap (λ db. db.bans) (db-atomic_ok body w row ran)
      ∙ ap (λ o. ((or_raise o does_not_exist >>= rest) (enter w)).1.db.bans) found
      ∙ rows in
    simp after_ban (blocked w.db.bans row user later (owner ∙ same_pk) live begun lasting)
