-- ===== src/Authentication/Tokens/Issue.antt =====
-- What issuing a one-time token does to it and to the tokens before it.
use django_boilderplate.Authentication.Tokens.SingleUse.{row_of, consume_ok, consume_used}
use django_boilderplate.Authentication.Tokens.{
  is_open, issue, one_time_hash, invalid_token_error, use_at, token_matches, consume,
}
use django_boilderplate.World.{ok, err, World}
use django_boilderplate.Env.{Env}
use django_boilderplate.Models.Authentication.{purpose_eq_refl, OneTimeToken, TokenPurpose}
use django_boilderplate.Prelude.{
  updated, ltb, first-passes, first-append_some, first-append_none, eq_iff, ◌∷◌, ◌+◌, ◌++◌, [],
  List, ℕ, refl, inr, inl, if◌then◌else◌, first-update_where, Bool-cases, ◌∙◌, ap, ◌≡◌,
  update_where, true, some, none, first, arith, String,
}

module _ (env : Env) (user : ℕ) (purpose : TokenPurpose) (ttl : ℕ)
    (metadata : List (String × String)) where
  abbrev issued : World → World
  issued w = (issue env user purpose ttl metadata w).1

  pub issue-result :
      (w : World) → (issue env user purpose ttl metadata w).0 ≡ ok (env.random_token w.draws)
  unfolding issue
  issue-result w = ground arith

  tokens-issue :
      (w : World)
      → (issued w).db.tokens
        ≡ update_where (is_open user purpose) (use_at w.now) w.db.tokens
          ++ record {
            pk = w.next_pk;
            user = user;
            purpose = purpose;
            token_hash = one_time_hash env (env.random_token w.draws) purpose;
            metadata = metadata;
            expires_at = w.now + ttl;
            used_at = none;
          }
            ∷ []
  unfolding issue
  tokens-issue w = ground arith

  now-issue : (w : World) → (issued w).now ≡ w.now
  unfolding issue
  now-issue w = ground arith

  abbrev issued_row : World → OneTimeToken
  issued_row w = record {
    pk = w.next_pk;
    user = user;
    purpose = purpose;
    token_hash = one_time_hash env (env.random_token w.draws) purpose;
    metadata = metadata;
    expires_at = w.now + ttl;
    used_at = none;
  }

  row_of-issue :
      (w : World)
      → row_of env (env.random_token w.draws) purpose w ≡ none
      → row_of env (env.random_token w.draws) purpose (issued w) ≡ some (issued_row w)
  row_of-issue w h =
      let hash = one_time_hash env (env.random_token w.draws) purpose in
      let matches = token_matches hash purpose in
      ap (first matches) (tokens-issue w)
      ∙ first-append_none matches (update_where (is_open user purpose) (use_at w.now) w.db.tokens)
          (issued_row w ∷ [])
          (first-update_where matches (is_open user purpose) (use_at w.now) w.db.tokens (λ a. refl)
            ∙ ap (updated (is_open user purpose) (use_at w.now)) h)
      ∙ ground (arith, eq_iff hash hash, purpose_eq_refl purpose)

  -- The row of an earlier token of the user and the purpose is used once another is issued.
  row_of-issue_old :
      (w : World) (raw : String) (r : OneTimeToken)
      → row_of env raw purpose w ≡ some r
      → row_of env raw purpose (issued w)
        ≡ some (if is_open user purpose r then use_at w.now r else r)
  row_of-issue_old w raw r h =
      let matches = token_matches (one_time_hash env raw purpose) purpose in
      ap (first matches) (tokens-issue w)
      ∙ first-append_some matches (update_where (is_open user purpose) (use_at w.now) w.db.tokens)
          (issued_row w ∷ []) (if is_open user purpose r then use_at w.now r else r)
          (first-update_where matches (is_open user purpose) (use_at w.now) w.db.tokens (λ a. refl)
            ∙ ap (updated (is_open user purpose) (use_at w.now)) h)

-- A token that was issued when its digest was in no row of its purpose: at any later time it is
-- consumed as the user's, with the metadata it was issued with, exactly if its time to live has not
-- passed; otherwise it is refused as INVALID_TOKEN.
pub consume-issue :
    (env : Env) (user : ℕ) (purpose : TokenPurpose) (ttl : ℕ) (metadata : List (String × String))
    (w : World) (later : ℕ)
    → row_of env (env.random_token w.draws) purpose w ≡ none
    → let (r, w') = issue env user purpose ttl metadata w in
      (r ≡ ok (env.random_token w.draws))
      × ((consume env (env.random_token w.draws) purpose (record w' { now = later })).0 ≡ (
          if ltb later (w.now + ttl)
          then ok (record {
            pk = w.next_pk;
            user = user;
            purpose = purpose;
            token_hash = one_time_hash env (env.random_token w.draws) purpose;
            metadata = metadata;
            expires_at = w.now + ttl;
            used_at = some later;
          })
          else err invalid_token_error))
consume-issue env user purpose ttl metadata w later h =
    let raw = env.random_token w.draws in
    let w' = record (issued env user purpose ttl metadata w) { now = later } in
    let row = issued_row env user purpose ttl metadata w in
    let found = row_of-issue env user purpose ttl metadata w h in
    (
      issue-result env user purpose ttl metadata w,
      elim (Bool-cases (ltb later (w.now + ttl))) [
        | inl e ↦ consume_ok env raw purpose w' row found e ∙ ground arith
        | inr e ↦ consume_used env raw purpose w' row found e ∙ ground arith
      ],
    )

-- Once a token was issued to a user for a purpose, every token of that user and purpose that was in
-- the table before is refused as INVALID_TOKEN, at any later time.
pub issue_supersedes :
    (env : Env) (user : ℕ) (purpose : TokenPurpose) (ttl : ℕ) (metadata : List (String × String))
    (w : World) (raw : String) (r : OneTimeToken) (later : ℕ)
    → row_of env raw purpose w ≡ some r
    → r.user ≡ user
    → let w' = (issue env user purpose ttl metadata w).1 in
      (consume env raw purpose (record w' { now = later })).0 ≡ err invalid_token_error
issue_supersedes env user purpose ttl metadata w raw r later h owner =
    let w' = record (issued env user purpose ttl metadata w) { now = later } in
    let matches = token_matches (one_time_hash env raw purpose) purpose in
    let passes : matches r ≡ true = first-passes matches w.db.tokens h in
    consume_used env raw purpose w' (if is_open user purpose r then use_at w.now r else r)
      (row_of-issue_old env user purpose ttl metadata w raw r h) (ground arith)
