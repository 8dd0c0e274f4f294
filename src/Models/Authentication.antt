-- ===== src/Models/Authentication.antt =====
-- apps/authentication/models.py: one-time tokens, device sessions and two-factor rows.
use django_boilderplate.Prelude.{
  ◌≡◌, refl, ℕ, String, Bool, true, false, ◌&&◌, Option, List, ltb, is_none, is_some,
}

pub data TokenPurpose : Type 0 where
  email_verification password_reset email_change account_deletion : TokenPurpose

-- the values of the choices
abbrev pub purpose_value : TokenPurpose → String
purpose_value email_verification = "email_verification"
purpose_value password_reset = "password_reset"
purpose_value email_change = "email_change"
purpose_value account_deletion = "account_deletion"

unfoldable pub purpose_eq : TokenPurpose → TokenPurpose → Bool
purpose_eq email_verification email_verification = true
purpose_eq password_reset password_reset = true
purpose_eq email_change email_change = true
purpose_eq account_deletion account_deletion = true
purpose_eq _ _ = false

pub purpose_eq_refl : (p : TokenPurpose) → purpose_eq p p ≡ true
unfolding purpose_eq
purpose_eq_refl email_verification = refl
purpose_eq_refl _ = refl

pub record OneTimeToken : Type 0 where
  pub pk : ℕ
  pub user : ℕ
  pub purpose : TokenPurpose
  pub token_hash : String
  pub metadata : List (String × String)
  pub expires_at : ℕ
  pub used_at : Option ℕ

-- `OneTimeToken.is_usable`
abbrev pub is_usable : ℕ → OneTimeToken → Bool
is_usable now t = is_none t.used_at && ltb now t.expires_at

pub record UserSession : Type 0 where
  pub pk : ℕ
  pub user : ℕ
  pub identifier : String
  pub session_key_hash : String
  pub encrypted_session_key : String
  pub ip_address : Option String
  pub user_agent : String
  pub browser : String
  pub operating_system : String
  pub device : String
  pub last_activity_at : ℕ
  pub revoked_at : Option ℕ

-- `UserSession.is_revoked`
abbrev pub is_revoked : UserSession → Bool
is_revoked s = is_some s.revoked_at

pub record TwoFactorCredential : Type 0 where
  pub pk : ℕ
  pub user : ℕ
  pub encrypted_secret : String
  pub confirmed_at : Option ℕ
  pub disabled_at : Option ℕ

-- `TwoFactorCredential.is_enabled`
abbrev pub is_enabled : TwoFactorCredential → Bool
is_enabled c = is_some c.confirmed_at && is_none c.disabled_at

pub record RecoveryCode : Type 0 where
  pub pk : ℕ
  pub credential : ℕ
  pub code_hash : String
  pub used_at : Option ℕ
