-- ===== src/Cleanup/Retention.antt =====
-- What the clean-up leaves.
use django_boilderplate.Models.Authentication.{is_revoked, is_usable, UserSession, OneTimeToken}
use django_boilderplate.World.{OutstandingToken, World}
use django_boilderplate.Env.{Env}
use django_boilderplate.Prelude.{
  not, ◌≤◌, ◌≡◌, ◌&&◌, ℕ, leb, exists-delete_where, exists, arith, Bool,
}
use django_boilderplate.Cleanup.{
  is_stale_session, is_expired_jwt, is_stale_token, cleanup_tokens, cleanup_sessions,
}

-- The clean-up of the tokens and that of the sessions leave everything that still counts: whatever
-- is looked for, a one-time token that can be used then or later, a refresh token that has not
-- expired then, and a session that is not revoked are found after it exactly if they were before.
pub cleanup_keeps :
    (env : Env) (w : World) (later : ℕ) (p : OneTimeToken → Bool) (q : OutstandingToken → Bool)
    (r : UserSession → Bool)
    → w.now ≤ later
    → (exists (λ t. p t && is_usable later t) (cleanup_tokens env w).1.db.tokens
        ≡ exists (λ t. p t && is_usable later t) w.db.tokens)
      × (exists (λ j. q j && leb later j.expires_at) (cleanup_tokens env w).1.db.jwts
          ≡ exists (λ j. q j && leb later j.expires_at) w.db.jwts)
      × (exists (λ s. r s && not (is_revoked s)) (cleanup_sessions env w).1.db.user_sessions
          ≡ exists (λ s. r s && not (is_revoked s)) w.db.user_sessions)
unfolding cleanup_tokens cleanup_sessions
cleanup_keeps env w later p q r ahead = (
  exists-delete_where (λ t. p t && is_usable later t) (is_stale_token env w.now) w.db.tokens
      (λ t h. ground (arith, h, ahead)),
  exists-delete_where (λ j. q j && leb later j.expires_at) (is_expired_jwt env w.now) w.db.jwts
      (λ j h. ground (arith, h, ahead)),
  exists-delete_where (λ s. r s && not (is_revoked s)) (is_stale_session env w.now)
      w.db.user_sessions (λ s h. ground (arith, h)),
)
