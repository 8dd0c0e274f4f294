-- ===== src/Tests/Login.antt =====
-- A run of the login.
use django_boilderplate.Authentication.Login.Guards.{login_guards, Passes}
use django_boilderplate.Security.LoginProtection.{check}
use django_boilderplate.Security.LoginProtection.Lockout.{locked_of}
use django_boilderplate.Tests.Authentication.{session}
use django_boilderplate.Authentication.Accounts.{security_settings_of}
use django_boilderplate.Common.Crypto.{encrypt_value, keyed_hash}
use django_boilderplate.Tests.Sample.{empty_db, sample_user, server, sample}
use django_boilderplate.Authentication.Sessions.{register}
use django_boilderplate.Models.Authentication.{UserSession}
use django_boilderplate.Authentication.Login.{authenticate, login}
use django_boilderplate.World.{err, ok, World, pure, Action, Result}
use django_boilderplate.Models.Accounts.{status_eq, User}
use django_boilderplate.Common.Network.{Request}
use django_boilderplate.Prelude.{◌≡◌, some, refl, none, false}

abbrev browser : Request
browser = record { remote_addr = none; forwarded_for = ""; user_agent = "ua"; request_id = "r" }

abbrev no_login : User → Action (Unit {0})
no_login user = pure tt

abbrev visit : Result (User × UserSession) × World
visit = login sample no_login browser "u" "pw" "" (server empty_db)

-- what the login returned
abbrev returned : Result (User × UserSession) → User × UserSession
returned (ok r) = r
returned (err _) = (sample_user, session 1 7)

login_guards_example :
    (user : User) × (locked_of (check sample "u" none (server empty_db)).0 ≡ some false)
    × (authenticate sample "u" "pw" (server empty_db) ≡ some user)
    × Passes sample user browser "" (server empty_db)
unfolding login register keyed_hash security_settings_of status_eq encrypt_value
login_guards_example =
    login_guards sample no_login browser "u" "pw" "" (server empty_db) (returned visit.0) refl
