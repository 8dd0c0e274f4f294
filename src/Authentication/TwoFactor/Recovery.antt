-- ===== src/Authentication/TwoFactor/Recovery.antt =====
-- A recovery code is good once.
use django_boilderplate.Models.Accounts.{User}
use django_boilderplate.Security.Events.{record_event}
use django_boilderplate.World.{ok, World}
use django_boilderplate.Common.Crypto.{decrypt_value-plain, IsConfigured, plain}
use django_boilderplate.Authentication.TwoFactor.{
  verify, credential_of, consume_recovery_code, recovery_hash, normalized, use_code_at,
  is_open_code,
}
use django_boilderplate.Env.{Env}
use django_boilderplate.Models.Authentication.{is_enabled, TwoFactorCredential, RecoveryCode}
use django_boilderplate.Prelude.{
  ◌∙◌, sym, subst, ap, Option-cases, subst₂, eq_iff, ◌≡◌, ◌∷◌, ◌==◌, ◌&&◌, ℕ, update_where, true,
  str_eq, some, refl, none, inr, inl, first, false, exists, arith, [], String, Option, List,
  Bool-cases, Bool,
}

-- The constraint on recovery codes: no two of one credential have the same digest.
abbrev UniqueCodes : List RecoveryCode → Type 0
UniqueCodes [] = Unit
UniqueCodes (r ∷ rows) =
    (exists (λ x. x.credential == r.credential && str_eq x.code_hash r.code_hash) rows ≡ false)
    × UniqueCodes rows

abbrev of_code : ℕ → String → RecoveryCode → Bool
of_code credential hash r = r.credential == credential && str_eq r.code_hash hash

-- Rows of no such digest are not open, whatever is marked as used.
open-unmatched :
    (c k now : ℕ) (h : String) (rows : List RecoveryCode)
    → exists (of_code c h) rows ≡ false
    → first (is_open_code c h) (update_where (λ x. x.pk == k) (use_code_at now) rows) ≡ none
open-unmatched c k now h [] e = refl
open-unmatched c k now h (r ∷ rows) e = ground (arith, open-unmatched c k now h rows)

open-use :
    (c now : ℕ) (h : String) (rows : List RecoveryCode) (r : RecoveryCode)
    → UniqueCodes rows
    → first (is_open_code c h) rows ≡ some r
    → first (is_open_code c h) (update_where (λ x. x.pk == r.pk) (use_code_at now) rows) ≡ none
open-use c now h [] r u e = cc
open-use c now h (x ∷ rows) r u e = elim (Bool-cases (is_open_code c h x)) [
  | inl o ↦
      let owner : x.credential ≡ c = ground arith in
      let same : x.code_hash ≡ h = ground (arith, eq_iff x.code_hash h) in
      let others : exists (of_code c h) rows ≡ false =
        subst₂ (λ a b. exists (of_code a b) rows ≡ false) owner same u.0 in
      ground (arith, open-unmatched c r.pk now h rows others)
  | inr o ↦ ground (arith, open-use c now h rows r u.1)
]

-- The code is one that the secret of the credential generates now.
abbrev generates : Env → TwoFactorCredential → String → ℕ → Bool
generates env c code now = elim (plain env c.encrypted_secret "totp-secret") [
  | none ↦ false
  | some secret ↦ env.totp_verify secret (normalized env code) now
]

module _ (env : Env) (c : TwoFactorCredential) (code : String) (w : World) where
  abbrev matching : Option RecoveryCode
  matching = first (is_open_code c.pk (recovery_hash env code)) w.db.recovery_codes

  consume_found :
      (r : RecoveryCode) → matching ≡ some r → (consume_recovery_code env c code w).0 ≡ ok true
  unfolding consume_recovery_code record_event
  consume_found r row = simp row (ground arith)

  consume_codes :
      (r : RecoveryCode)
      → matching ≡ some r
      → (consume_recovery_code env c code w).1.db.recovery_codes
        ≡ update_where (λ x. x.pk == r.pk) (use_code_at w.now) w.db.recovery_codes
  unfolding consume_recovery_code record_event
  consume_codes r row = simp row (ground arith)

  consume_credentials : (consume_recovery_code env c code w).1.db.credentials ≡ w.db.credentials
  unfolding consume_recovery_code record_event
  consume_credentials = elim (Option-cases matching) [
    | inl e ↦ simp e (ground arith)
    | inr (r, e) ↦ simp e (ground arith)
  ]

  consume_missing : matching ≡ none → (consume_recovery_code env c code w).0 ≡ ok false
  unfolding consume_recovery_code
  consume_missing e = simp e (ground arith)

module _ (env : Env) (configured : IsConfigured env) (user : User) (code : String)
    (c : TwoFactorCredential) (secret : String) where
  -- The credential of the user that `w` has is `c`, enabled and with the secret `secret`, which
  -- does not generate the code.
  abbrev Refuses : World → Type 0
  Refuses w =
      (first (credential_of user.pk) w.db.credentials ≡ some c)
      × (is_enabled c ≡ true)
      × (plain env c.encrypted_secret "totp-secret" ≡ some secret)
      × (env.totp_verify secret (normalized env code) w.now ≡ false)

  verify-consume :
      (w : World) (used : Bool)
      → Refuses w
      → (consume_recovery_code env c (normalized env code) w).0 ≡ ok used
      → verify env user code w
        ≡ (ok (used, true), (consume_recovery_code env c (normalized env code) w).1)
  unfolding verify
  verify-consume w used (found, enabled, opened, stale) e =
      simp (found, enabled, decrypt_value-plain env _ _ w configured, opened, stale, e)

  -- Where the encryption key is configured, no two codes of a credential have the same digest, and
  -- the user's credential is enabled with a secret that generates the code neither now nor at `t`:
  -- a recovery code that the credential holds unused is accepted, as a recovery code, and in the
  -- state after that the same code is refused at `t`.
  pub verify_recovery_twice :
      (w : World) (r : RecoveryCode) (t : ℕ)
      → UniqueCodes w.db.recovery_codes
      → Refuses w
      → env.totp_verify secret (normalized env code) t ≡ false
      → first (is_open_code c.pk (recovery_hash env (normalized env code))) w.db.recovery_codes
        ≡ some r
      → ((verify env user code w).0 ≡ ok (true, true))
        × ((verify env user code (record (verify env user code w).1 { now = t })).0
            ≡ ok (false, true))
  verify_recovery_twice w r t unique (found, enabled, opened, stale) later row =
      let hash = recovery_hash env (normalized env code) in
      let used : World = (consume_recovery_code env c (normalized env code) w).1 in
      let once =
        verify-consume w true (found, enabled, opened, stale)
          (consume_found env c (normalized env code) w r row) in
      let gone : first (is_open_code c.pk hash) used.db.recovery_codes ≡ none =
        ap (first (is_open_code c.pk hash)) (consume_codes env c (normalized env code) w r row)
        ∙ open-use c.pk w.now hash w.db.recovery_codes r unique row in
      let kept : first (credential_of user.pk) used.db.credentials ≡ some c =
        ap (first (credential_of user.pk)) (consume_credentials env c (normalized env code) w)
        ∙ found in
      let again =
        verify-consume (record used { now = t }) false (kept, enabled, opened, later)
          (consume_missing env c (normalized env code) (record used { now = t }) gone) in
      (
        ap (λ p. p.0) once,
        subst (λ p. (verify env user code (record p.1 { now = t })).0 ≡ ok (false, true)) (sym once)
            (ap (λ p. p.0) again),
      )
