-- ===== src/Authentication/Tokens.antt =====
-- `TokenService` of apps/authentication/services.py: one-time tokens of which only a keyed digest is
-- stored, and the blacklist of refresh tokens.
use django_boilderplate.Common.Crypto.{generate_token, keyed_hash}
use django_boilderplate.Env.{Env}
use django_boilderplate.Models.Authentication.{
  is_usable, purpose_value, purpose_eq, OneTimeToken, TokenPurpose,
}
use django_boilderplate.World.{
  pure, fresh_pk, raise_if, modify_db, ◌>>◌, or_raise, gets, ◌>>=◌, invalid_token, ok, atomic, api,
  Action, OutstandingToken, Error,
}
use django_boilderplate.Prelude.{
  ◌∷◌, ◌==◌, ◌+◌, ◌++◌, ◌&&◌, ℕ, update_where, true, str_eq, some, not, none, is_none,
  if◌then◌else◌, first, [], String, List, Bool,
}
pub mod SingleUse
pub mod Issue
use Prim.Native.String.{◌++◌ as cat}

-- `.get(...)` of a row, of which the primary key tells the rows to save
abbrev pub invalid_token_error : Error
invalid_token_error = api invalid_token 400 none

abbrev pub token_matches : String → TokenPurpose → OneTimeToken → Bool
token_matches hash purpose t = str_eq t.token_hash hash && purpose_eq t.purpose purpose

abbrev pub is_open : ℕ → TokenPurpose → OneTimeToken → Bool
is_open user purpose t = t.user == user && (purpose_eq t.purpose purpose && is_none t.used_at)

abbrev pub use_at : ℕ → OneTimeToken → OneTimeToken
use_at now t = record t { used_at = some now }

-- The refresh tokens of a user that are not blacklisted are, and are counted.
unfoldable pub blacklist_each : ℕ → List OutstandingToken → ℕ × List OutstandingToken
blacklist_each user [] = (0, [])
blacklist_each user (t ∷ ts) =
    let (n, ts') = blacklist_each user ts in
    if t.user == user && not t.blacklisted
    then (n + 1, record t { blacklisted = true } ∷ ts')
    else (n, t ∷ ts')

module _ (env : Env) where
  abbrev pub one_time_hash : String → TokenPurpose → String
  one_time_hash raw purpose = keyed_hash env raw (cat "one-time:" (purpose_value purpose))

  unfoldable pub issue :
      (user : ℕ) → TokenPurpose → (ttl : ℕ) → (metadata : List (String × String)) → Action String
  unfolding generate_token
  issue user purpose ttl metadata = atomic do
    now ← gets (λ w. w.now)
    modify_db
        (λ db. record db { tokens = update_where (is_open user purpose) (use_at now) db.tokens })
    raw ← generate_token env
    pk ← fresh_pk
    modify_db (λ db. record db {
      tokens =
          db.tokens
          ++ record {
            pk = pk;
            user = user;
            purpose = purpose;
            token_hash = one_time_hash raw purpose;
            metadata = metadata;
            expires_at = now + ttl;
            used_at = none;
          }
            ∷ [];
    })
    pure raw

  unfoldable pub consume : String → TokenPurpose → Action OneTimeToken
  consume raw purpose = atomic do
    found ← gets (λ w. first (token_matches (one_time_hash raw purpose) purpose) w.db.tokens)
    token ← or_raise found invalid_token_error
    now ← gets (λ w. w.now)
    raise_if (not (is_usable now token)) invalid_token_error
    modify_db
        (λ db. record db { tokens = update_where (λ t. t.pk == token.pk) (use_at now) db.tokens })
    pure (use_at now token)

-- `revoke_all_jwt`
unfoldable pub revoke_all_jwt : ℕ → Action ℕ
unfolding blacklist_each
revoke_all_jwt user w =
    let (n, jwts) = blacklist_each user w.db.jwts in
    (ok n, record w { db = record w.db { jwts = jwts } })
