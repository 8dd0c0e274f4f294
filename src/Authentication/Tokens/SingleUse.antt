-- ===== src/Authentication/Tokens/SingleUse.antt =====
-- A one-time token is good once, for its purpose, until it expires or another is issued.
use django_boilderplate.Authentication.Tokens.{
  one_time_hash, invalid_token_error, use_at, token_matches, consume,
}
use django_boilderplate.World.{Result, ok, err, World}
use django_boilderplate.Env.{Env}
use django_boilderplate.Models.Authentication.{is_usable, OneTimeToken, TokenPurpose}
use django_boilderplate.Prelude.{
  ℕ, refl, inr, inl, if◌then◌else◌, first-update_where, Option-cases, Bool-cases, ◌∙◌, ◌==◌, ap,
  ◌≡◌, update_where, true, some, none, first, false, arith, String, Option,
}

module _ (env : Env) (raw : String) (purpose : TokenPurpose) where
  -- the row that a raw token stands for
  abbrev pub row_of : World → Option OneTimeToken
  row_of w = first (token_matches (one_time_hash env raw purpose) purpose) w.db.tokens

  pub consume_ok :
      (w : World) (t : OneTimeToken)
      → row_of w ≡ some t
      → is_usable w.now t ≡ true
      → (consume env raw purpose w).0 ≡ ok (use_at w.now t)
  unfolding consume
  consume_ok w t h u = simp h (ground arith)

  pub consume_used :
      (w : World) (t : OneTimeToken)
      → row_of w ≡ some t
      → is_usable w.now t ≡ false
      → (consume env raw purpose w).0 ≡ err invalid_token_error
  unfolding consume
  consume_used w t h u = simp h (ground arith)

  consume_unknown :
      (w : World) → row_of w ≡ none → (consume env raw purpose w).0 ≡ err invalid_token_error
  unfolding consume
  consume_unknown w h = simp h

  db-consume :
      (w : World) (t : OneTimeToken)
      → row_of w ≡ some t
      → is_usable w.now t ≡ true
      → (consume env raw purpose w).1.db
        ≡ record w.db { tokens = update_where (λ r. r.pk == t.pk) (use_at w.now) w.db.tokens }
  unfolding consume
  db-consume w t h u = simp h (ground arith)

  db-consume_used :
      (w : World) (t : OneTimeToken)
      → row_of w ≡ some t
      → is_usable w.now t ≡ false
      → (consume env raw purpose w).1.db ≡ w.db
  unfolding consume
  db-consume_used w t h u = simp h (ground arith)

  db-consume_unknown : (w : World) → row_of w ≡ none → (consume env raw purpose w).1.db ≡ w.db
  unfolding consume
  db-consume_unknown w h = simp h

  -- A consumed token stands in the table as used.
  row_of-consume :
      (w : World) (t : OneTimeToken)
      → row_of w ≡ some t
      → is_usable w.now t ≡ true
      → row_of (consume env raw purpose w).1 ≡ some (use_at w.now t)
  row_of-consume w t h u =
      ap (first (token_matches (one_time_hash env raw purpose) purpose))
        (ap (λ db. db.tokens) (db-consume w t h u))
      ∙ first-update_where (token_matches (one_time_hash env raw purpose) purpose)
          (λ r. r.pk == t.pk) (use_at w.now) w.db.tokens (λ a. refl)
      ∙ rw h (ground arith)

  -- What a consumption that returns has found.
  consume-inversion :
      (w : World) (t : OneTimeToken)
      → (consume env raw purpose w).0 ≡ ok t
      → (r : OneTimeToken) × (row_of w ≡ some r) × (is_usable w.now r ≡ true) × (t ≡ use_at w.now r)
  consume-inversion w t h = elim (Option-cases (row_of w)) [
    | inl e ↦ absurd (ground (arith, consume_unknown w e))
    | inr (r, e) ↦ elim (Bool-cases (is_usable w.now r)) [
      | inl u ↦ (r, e, u, ground (arith, consume_ok w r e u))
      | inr u ↦ absurd (ground (arith, consume_used w r e u))
    ]
  ]

-- After a token was consumed, consuming it again is refused as INVALID_TOKEN, at any later time.
pub consume_twice :
    (env : Env) (raw : String) (purpose : TokenPurpose) (w : World) (t : OneTimeToken) (later : ℕ)
    → (consume env raw purpose w).0 ≡ ok t
    → let w' = (consume env raw purpose w).1 in
      (consume env raw purpose (record w' { now = later })).0 ≡ err invalid_token_error
consume_twice env raw purpose w t later h =
    let (r, found, usable, same) = consume-inversion env raw purpose w t h in
    let w' = (consume env raw purpose w).1 in
    consume_used env raw purpose (record w' { now = later }) (use_at w.now r)
      (row_of-consume env raw purpose w r found usable) refl

abbrev Refused : World → Result OneTimeToken × World → Type 0
Refused w (r, w') = (r ≡ err invalid_token_error) × (w'.db ≡ w.db)

abbrev Accepted : World → OneTimeToken → Result OneTimeToken × World → Type 0
Accepted w t (r, w') =
    (r ≡ ok (use_at w.now t))
    × (w'.db ≡ record w.db { tokens = update_where (λ x. x.pk == t.pk) (use_at w.now) w.db.tokens })

-- What a consumption does, by the row that its token stands for.
abbrev pub Outcome : World → Option OneTimeToken → Result OneTimeToken × World → Type 0
Outcome w none end = Refused w end
Outcome w (some t) end = if is_usable w.now t then Accepted w t end else Refused w end

-- A raw token is accepted exactly if the row that its digest and purpose find is unused and not
-- expired; then the rows with its key are marked as used now and nothing else in the database
-- changes. A refusal is INVALID_TOKEN and leaves the database as it was.
pub consume_lem :
    (env : Env) (raw : String) (purpose : TokenPurpose) (w : World)
    → Outcome w (row_of env raw purpose w) (consume env raw purpose w)
consume_lem env raw purpose w = elim (Option-cases (row_of env raw purpose w)) [
  | inl e ↦ simp e (consume_unknown env raw purpose w e, db-consume_unknown env raw purpose w e)
  | inr (t, e) ↦ simp e (elim (Bool-cases (is_usable w.now t)) [
    | inl u ↦ simp u (consume_ok env raw purpose w t e u, db-consume env raw purpose w t e u)
    | inr u ↦ simp u (consume_used env raw purpose w t e u, db-consume_used env raw purpose w t e u)
  ])
]
