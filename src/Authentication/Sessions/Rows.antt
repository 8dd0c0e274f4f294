-- ===== src/Authentication/Sessions/Rows.antt =====
-- Marking session rows as revoked, one by one and together.
use mathlib.Core.List.{append_assoc}
use django_boilderplate.Authentication.Sessions.{is_live_session, revoke_at}
use django_boilderplate.Models.Authentication.{UserSession}
use django_boilderplate.Prelude.{
  ◌++◌, update_where_unmatched, select, exists-update_where, ==_iff, ◌≡◌, ◌∷◌, ◌==◌, ◌&&◌, ℕ,
  update_where, true, some, refl, is_none, inr, inl, if◌then◌else◌, first, false, exists, arith, [],
  List, Bool-cases, Bool,
}

-- No two session rows share a primary key.
abbrev pub UniquePk : List UserSession → Type 0
UniquePk [] = Unit
UniquePk (s ∷ rows) = (exists (λ r. r.pk == s.pk) rows ≡ false) × UniquePk rows

abbrev pub revoke_once : ℕ → UserSession → UserSession
revoke_once now s = if is_none s.revoked_at then revoke_at now s else s

abbrev pub has_pk : ℕ → UserSession → Bool
has_pk pk s = s.pk == pk

-- One of the sessions has the key of the row.
abbrev pub named_in : List UserSession → UserSession → Bool
named_in ss r = exists (λ s. r.pk == s.pk) ss

pub revoke_once_unique :
    (now k : ℕ) (rows : List UserSession) (r : UserSession)
    → UniquePk rows
    → first (has_pk k) rows ≡ some r
    → update_where (has_pk k) (revoke_once now) rows
      ≡ (if is_none r.revoked_at then update_where (has_pk k) (revoke_at now) rows else rows)
revoke_once_unique now k [] r u h = cc
revoke_once_unique now k (s ∷ rows) r u h = elim (Bool-cases (has_pk k s)) [
  | inl e ↦
      let same : s.pk ≡ k = (==_iff s.pk k).0 e in
      let others : exists (has_pk k) rows ≡ false = rw same at u.0 in
      ground (
        arith,
        update_where_unmatched (has_pk k) (revoke_once now) rows others,
        update_where_unmatched (has_pk k) (revoke_at now) rows others,
      )
  | inr e ↦ ground (arith, revoke_once_unique now k rows r u.1)
]

pub revoke_once_pk : (now k : ℕ) (s : UserSession) → has_pk k (revoke_once now s) ≡ has_pk k s
revoke_once_pk now k s = ground arith

pub UniquePk-update_where :
    (p : UserSession → Bool) (now : ℕ) (rows : List UserSession)
    → UniquePk rows
    → UniquePk (update_where p (revoke_once now) rows)
UniquePk-update_where p now [] u = tt
UniquePk-update_where p now (s ∷ rows) u = ground (
  arith,
  exists-update_where (has_pk s.pk) p (revoke_once now) rows (revoke_once_pk now s.pk),
  UniquePk-update_where p now rows u.1,
)

-- Revoking one session and then the others is revoking them together.
pub revoke_together :
    (now : ℕ) (s : UserSession) (ss rows : List UserSession)
    → update_where
        (named_in ss)
        (revoke_once now)
        (update_where (has_pk s.pk) (revoke_once now) rows)
      ≡ update_where (named_in (s ∷ ss)) (revoke_once now) rows
revoke_together now s ss [] = refl
revoke_together now s ss (r ∷ rows) = ground (arith, revoke_together now s ss rows)

pub named_nil : (rows : List UserSession) → exists (named_in []) rows ≡ false
named_nil [] = refl
named_nil (r ∷ rows) = named_nil rows

named_self : (pre ss : List UserSession) (r : UserSession) → named_in (pre ++ r ∷ ss) r ≡ true
named_self [] ss r = ground arith
named_self (s ∷ pre) ss r = ground (arith, named_self pre ss r)

-- Where all rows that pass the test are revoked, none that passes it is left.
pub exists-revoke_named :
    (now user : ℕ) (keep : UserSession → Bool) (pre rows : List UserSession)
    → ((s : UserSession) → keep (revoke_once now s) ≡ keep s)
    → exists
        (λ s. is_live_session user s && keep s)
        (update_where
          (named_in (pre ++ select (λ s. is_live_session user s && keep s) rows))
          (revoke_once now)
          rows)
      ≡ false
exists-revoke_named now user keep pre [] h = refl
exists-revoke_named now user keep pre (r ∷ rows) h =
    elim (Bool-cases (is_live_session user r && keep r)) [
      | inl e ↦
          simp (e, named_self)
            (ground (
              arith,
              rw append_assoc at (exists-revoke_named now user keep (pre ++ r ∷ []) rows h),
              h r,
            ))
      | inr e ↦ simp e (ground (arith, exists-revoke_named now user keep pre rows h, h r))
    ]
