-- ===== src/Tests/Authentication.antt =====
-- Runs of the tokens, the sessions and the second factor.
use django_boilderplate.Models.Authentication.{
  password_reset, purpose_eq, email_verification, RecoveryCode, TwoFactorCredential, UserSession,
  OneTimeToken,
}
use django_boilderplate.Authentication.TwoFactor.Disabling.{begin_setup-disabled}
use django_boilderplate.Authentication.TwoFactor.Recovery.{verify_recovery_twice}
use django_boilderplate.Authentication.Tokens.Issue.{consume-issue}
use django_boilderplate.Authentication.Sessions.Revocation.{revoke_all_lem, spared, to_revoke}
use django_boilderplate.Tests.Sample.{sample_user, empty_db, sample, server}
use django_boilderplate.Authentication.TwoFactor.{verify, begin_setup, recovery_hash}
use django_boilderplate.Authentication.Sessions.{revoke_at, revoke_all}
use django_boilderplate.Common.Crypto.{plain, keyed_hash}
use django_boilderplate.Authentication.Tokens.SingleUse.{consume_lem, row_of, Outcome}
use django_boilderplate.Authentication.Tokens.{invalid_token_error, issue, one_time_hash, consume}
use django_boilderplate.World.{integrity_error, ok, err, World}
use django_boilderplate.Prelude.{◌≡◌, ◌∷◌, ℕ, true, some, refl, none, false, exists, []}

-- a verification token of the user, for the raw text "b"
abbrev old_token : OneTimeToken
old_token = record {
  pk = 1;
  user = 7;
  purpose = email_verification;
  token_hash = one_time_hash sample "b" email_verification;
  metadata = [];
  expires_at = 70;
  used_at = none;
}

abbrev with_token : World
with_token = server (record empty_db { tokens = old_token ∷ [] })

consume_lem_example :
    Outcome with_token
      (row_of sample "b" email_verification with_token)
      (consume sample "b" email_verification with_token)
consume_lem_example = consume_lem sample "b" email_verification with_token

consume-issue_example :
    (consume sample "a" password_reset
      (record (issue sample 7 password_reset 3600 [] with_token).1 { now = 4000 })).0
    ≡ err invalid_token_error
unfolding keyed_hash purpose_eq
consume-issue_example = (consume-issue sample 7 password_reset 3600 [] with_token 4000 refl).1

abbrev pub session : ℕ → ℕ → UserSession
session pk user = record {
  pk = pk;
  user = user;
  identifier = "i";
  session_key_hash = "h";
  encrypted_session_key = "e";
  ip_address = none;
  user_agent = "";
  browser = "";
  operating_system = "";
  device = "pc";
  last_activity_at = 1;
  revoked_at = none;
}

abbrev with_sessions : World
with_sessions =
    server (record empty_db { user_sessions = session 1 7 ∷ session 2 8 ∷ session 3 7 ∷ [] })

revoke_all_lem_example :
    let (r, w') = revoke_all sample 7 none none false with_sessions in
    let p = to_revoke 7 (spared sample none false with_sessions) in
    (r ≡ ok 2)
    × (exists p w'.db.user_sessions ≡ false)
    × (w'.db.user_sessions
        ≡ revoke_at 50 (session 1 7) ∷ session 2 8 ∷ revoke_at 50 (session 3 7) ∷ [])
revoke_all_lem_example =
    revoke_all_lem sample 7 none none false with_sessions refl (refl, (refl, (refl, tt)))

abbrev enabled_credential : TwoFactorCredential
enabled_credential = record {
  pk = 3;
  user = 7;
  encrypted_secret = "sec";
  confirmed_at = some 5;
  disabled_at = none;
}

abbrev backup_code : RecoveryCode
backup_code = record {
  pk = 4;
  credential = 3;
  code_hash = recovery_hash sample "A1";
  used_at = none;
}

abbrev with_codes : World
with_codes =
    server
      (record empty_db { credentials = enabled_credential ∷ []; recovery_codes = backup_code ∷ [] })

verify_recovery_twice_example :
    ((verify sample sample_user "A1" with_codes).0 ≡ ok (true, true))
    × ((verify sample sample_user "A1"
          (record (verify sample sample_user "A1" with_codes).1 { now = 90 })).0
        ≡ ok (false, true))
unfolding recovery_hash keyed_hash plain
verify_recovery_twice_example =
    verify_recovery_twice sample refl sample_user "A1" enabled_credential "sec" with_codes
      backup_code 90 (refl, tt) (refl, refl, refl, refl) refl refl

abbrev disabled_credential : TwoFactorCredential
disabled_credential = record enabled_credential { disabled_at = some 40 }

abbrev without_factor : World
without_factor = server (record empty_db { credentials = disabled_credential ∷ [] })

begin_setup-disabled_example :
    ((begin_setup sample sample_user "pw" without_factor).0 ≡ err integrity_error)
    × ((begin_setup sample sample_user "pw" without_factor).1.db ≡ without_factor.db)
begin_setup-disabled_example =
    begin_setup-disabled sample refl sample_user "pw" without_factor disabled_credential refl refl
      refl refl
