-- ===== src/Authentication/Accounts/Ending.antt =====
-- What ends the sessions of a user leaves none of them, and no refresh token.
use django_boilderplate.Authentication.Sessions.Revocation.{to_revoke, spared, revoke_all_lem}
use django_boilderplate.Authentication.Sessions.{revoke_all, is_live_session}
use django_boilderplate.Authentication.Sessions.Rows.{UniquePk}
use django_boilderplate.Authentication.Accounts.{revoke_everything}
use django_boilderplate.Common.Network.{Request}
use django_boilderplate.Common.Crypto.{IsConfigured}
use django_boilderplate.Env.{Env}
use django_boilderplate.Authentication.Tokens.{revoke_all_jwt, blacklist_each}
use django_boilderplate.World.{ok, Result, World, OutstandingToken}
use django_boilderplate.Prelude.{
  ◌∙◌, subst, none, exists_cong, ◌≡◌, ◌∷◌, ◌==◌, ◌&&◌, ℕ, refl, not, inr, inl, false, exists, arith,
  [], Option, List, Bool-cases, Bool,
}

abbrev pub is_live_jwt : ℕ → OutstandingToken → Bool
is_live_jwt user t = (t.user == user) && not t.blacklisted

live_jwt-blacklist_each :
    (user : ℕ) (ts : List OutstandingToken)
    → exists (is_live_jwt user) (blacklist_each user ts).1 ≡ false
unfolding blacklist_each
live_jwt-blacklist_each user [] = refl
live_jwt-blacklist_each user (t ∷ ts) = elim (Bool-cases ((t.user == user) && not t.blacklisted)) [
  | inl e ↦ simp e (ground (arith, live_jwt-blacklist_each user ts))
  | inr e ↦ simp e (ground (arith, e, live_jwt-blacklist_each user ts))
]

module _ (env : Env) (configured : IsConfigured env) (user : ℕ) (actor : Option ℕ)
    (request : Option Request) where
  abbrev ended : World → Result (Unit {0}) × World
  ended w = revoke_everything env user actor request false w

  live-revoke_all :
      (w : World)
      → UniquePk w.db.user_sessions
      → exists (is_live_session user) (revoke_all env user actor request false w).1.db.user_sessions
        ≡ false
  live-revoke_all w unique =
      let rows = (revoke_all env user actor request false w).1.db.user_sessions in
      let none_spared : spared env request false w ≡ none = ground arith in
      let (_, ended_, _) = revoke_all_lem env user actor request false w configured unique in
      exists_cong (is_live_session user) (to_revoke user none) rows (λ s. ground arith)
      ∙ subst (λ k. exists (to_revoke user k) rows ≡ false) none_spared ended_

  pub revoke_everything_lem :
      (w : World)
      → UniquePk w.db.user_sessions
      → ((ended w).0 ≡ ok tt)
        × (exists (is_live_session user) (ended w).1.db.user_sessions ≡ false)
        × (exists (is_live_jwt user) (ended w).1.db.jwts ≡ false)
  unfolding revoke_everything revoke_all_jwt
  revoke_everything_lem w unique =
      let (returns, _, _) = revoke_all_lem env user actor request false w configured unique in
      simp returns (refl, live-revoke_all w unique, live_jwt-blacklist_each user _)
