-- ===== src/Tests/Security.antt =====
-- Runs of the login protection.
use django_boilderplate.Security.LoginProtection.Counters.{attempts}
use django_boilderplate.Tests.Sample.{server, empty_db, sample}
use django_boilderplate.Security.LoginProtection.Lockout.{check-register_failure, locked_of}
use django_boilderplate.World.{Db}
use django_boilderplate.Security.LoginProtection.{digest, by_id, state_key, check, register_failure}
use django_boilderplate.Security.LoginProtection.Attempts.{fail_times-locked, fail_times}
use django_boilderplate.Prelude.{◌≢◌, ◌≡◌, ◌∷◌, true, some, refl, none, arith, []}

fail_times-locked_example :
    let w' = fail_times sample "u" (some "1.2.3.4") 2 (server empty_db) in
    let (r, w'') = register_failure sample "u" (some "1.2.3.4") w' in
    (locked_of r ≡ some true) × (locked_of (check sample "u" (some "1.2.3.4") w'').0 ≡ some true)
unfolding state_key digest attempts
fail_times-locked_example =
    fail_times-locked sample "u" (some "1.2.3.4") refl (refl, refl) (omega arith) (omega arith) 2
      (server empty_db) (refl, refl, refl)

check-register_failure_example :
    let (r, w') = register_failure sample "u" none (server empty_db) in
    (locked_of r ≢ none) × (locked_of (check sample "u" none w').0 ≡ locked_of r)
unfolding state_key digest
check-register_failure_example =
    check-register_failure sample "u" none (server empty_db) refl (refl, refl)

-- a row that is locked until the instant 90
abbrev locked_db : Db
locked_db = record empty_db {
  throttles =
      record {
        dimension_hash = state_key sample (by_id (digest sample "u"));
        attempt_count = 3;
        locked_until = some 90;
        expires_at = 90;
      }
      ∷ [];
}
