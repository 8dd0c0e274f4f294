-- ===== src/Tests/Views.antt =====
-- Runs of the views for the password, the API keys and the settings.
use django_boilderplate.ApiKeys.RoundTrip.{new_key}
use django_boilderplate.Audit.{record_audit}
use django_boilderplate.Security.Events.{record_event}
use django_boilderplate.Authentication.Sessions.{revoke_row}
use django_boilderplate.Common.Crypto.{keyed_hash, decrypt_value}
use django_boilderplate.Common.Network.{Request}
use django_boilderplate.Models.Authentication.{UserSession}
use django_boilderplate.Api.Auth.Account.{logout_post, revoke_current, drop_refresh}
use django_boilderplate.Authentication.Sessions.{session_hash}
use django_boilderplate.Tests.Authentication.{session}
use django_boilderplate.Api.Auth.Leaving.{Spares, is_live_row, logout_post_lem}
use django_boilderplate.Api.ApiKeys.Stored.{
  is_key_for, value_of, shown_body, key_text, next_raw, create_key_post-stored,
}
use django_boilderplate.Api.Responses.{answered}
use django_boilderplate.Tests.ApiKeys.{post_keys}
use django_boilderplate.Api.Failures.WeakPassword.{change_password_500}
use django_boilderplate.Common.Idempotency.Replay.{asked}
use django_boilderplate.Common.Idempotency.{serializable, Response, idempotent}
use django_boilderplate.Common.Errors.Codes.{error_field}
use django_boilderplate.Authentication.Sessions.{current}
use django_boilderplate.Common.Logging.{text}
use django_boilderplate.Api.Failures.{respond}
use django_boilderplate.Models.Core.{IdempotencyRecord}
use django_boilderplate.Api.ApiKeys.{create_key, create_key_post, KeyData}
use django_boilderplate.Env.{Env}
use django_boilderplate.World.{ok, pure, Action, World}
use django_boilderplate.Api.Auth.Account.{change_password_post, PasswordsData}
use django_boilderplate.Api.Auth.{Framework}
use django_boilderplate.Models.Accounts.{User}
use django_boilderplate.Common.Errors.{RestResponse, Exception}
use django_boilderplate.Prelude.{
  exists, ◌≡◌, ◌∷◌, true, text_length, str_eq, some, refl, not, none, first, false, [], Option,
}
use django_boilderplate.Tests.Sample.{sample, empty_db, server, sample_user}

abbrev no_answer : Exception → Option RestResponse
no_answer e = none

abbrev rotate : User → Action (Unit {0})
rotate u w = (ok tt, record w { session_key = some "fresh" })

abbrev frame : Framework
frame = record {
  login = λ u. pure tt;
  logout = pure tt;
  update_session_auth_hash = rotate;
  for_user = λ u. pure ("access", "refresh");
  blacklist = λ raw. pure true;
  refresh = λ raw. pure none;
}

abbrev new_password : PasswordsData
new_password = record { old_password = "pw"; new_password = "longer" }

abbrev strict : Env
strict = record sample { is_valid_password = λ _ p. not (str_eq p "longer") }

change_password_500_example :
    let r =
      change_password_post strict frame sample_user (some new_password) none (server empty_db) in
    let response = respond (λ e. "error") (λ v. "value") no_answer none r.0 in
    (response.status ≡ 500)
    × (error_field "code" response.body ≡ some (text "INTERNAL_ERROR"))
    × (r.1.db ≡ empty_db)
change_password_500_example =
    change_password_500 (λ e. "error") (λ v. "value") no_answer none strict frame sample_user
      sample_user new_password none (server empty_db) (λ t. refl) refl refl refl

abbrev asked_key : KeyData
asked_key = record { name = "ci"; scopes = "profile.read" ∷ []; expires_at = none }

abbrev key_response : Response
key_response = record {
  status = 201;
  payload = serializable (
      shown_body sample 7 (some asked_key) none 50 (
        new_key sample 7 "ci" ("profile.read" ∷ []) none (some 7) none
            (record (server empty_db) { next_pk = 101 }),
        next_raw sample (server empty_db),
      ));
  replayed = false;
}

create_key_post-stored_example :
    let w' = (create_key_post sample 7 (some asked_key) none post_keys (server empty_db)).1 in
    let raw = next_raw sample (server empty_db) in
    (r : IdempotencyRecord) × (first (asked sample post_keys 7) w'.db.idempotency ≡ some r)
    × (key_text r.response_body ≡ some raw)
    × (key_text (value_of key_response.payload) ≡ some raw)
    × (exists (is_key_for sample 7 raw) w'.db.api_keys ≡ true)
unfolding create_key_post create_key text_length idempotent
create_key_post-stored_example =
    create_key_post-stored sample 7 (some asked_key) none post_keys key_response (server empty_db)
      (refl, refl, refl) refl refl

abbrev spares : Spares frame
spares = record {
  blacklist_rows = λ raw w. refl;
  blacklist_key = λ raw w. refl;
  logout_rows = λ w. refl;
}

abbrev own_session : UserSession
own_session = record (session 1 7) { session_key_hash = session_hash sample "k" }

abbrev signed_in : World
signed_in = record (server (record empty_db { user_sessions = own_session ∷ session 2 8 ∷ [] })) {
  session_key = some "k";
}

abbrev browser_request : Request
browser_request = record {
  remote_addr = some "1.1.1.1";
  forwarded_for = "";
  user_agent = "agent";
  request_id = "r";
}

logout_post_lem_example :
    exists
      (is_live_row 1)
      (logout_post sample frame sample_user
        (some (some "refresh"))
        browser_request
        signed_in).1.db.user_sessions
    ≡ false
unfolding logout_post revoke_current drop_refresh current keyed_hash revoke_row decrypt_value
    record_event record_audit
logout_post_lem_example =
    logout_post_lem sample frame spares sample_user (some "refresh") browser_request own_session
      (answered "logged_out") signed_in refl (refl, (refl, tt)) refl refl
