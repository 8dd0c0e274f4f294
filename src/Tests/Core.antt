-- ===== src/Tests/Core.antt =====
-- Runs of the runtime settings, the registration, the notifications, the uploads, the clean-up and the middleware.
use django_boilderplate.Security.LoginProtection.{second}
use django_boilderplate.Api.Settings.{validate_setting, perform_update, update_setting, SettingData}
use django_boilderplate.Core.Keys.{is_secret_key, secret_inside, after_word}
use django_boilderplate.Api.Closed.{register_post-update_setting}
use django_boilderplate.Api.Registering.{registration_closed, register_post, registration_key}
use django_boilderplate.Models.Core.{boolean, Setting, integer}
use django_boilderplate.Common.Logging.{boolean as boolean_value, end, null, fold_code, number}
use django_boilderplate.Middleware.Flushing.{prepare_lem}
use django_boilderplate.Middleware.{prepare}
use django_boilderplate.Authentication.Sessions.{current}
use django_boilderplate.Models.Accounts.{User, can_authenticate_now}
use django_boilderplate.Cleanup.Retention.{cleanup_keeps}
use django_boilderplate.Files.Uploads.{store_lem, Accepted}
use django_boilderplate.Cleanup.{cleanup_sessions, cleanup_tokens}
use django_boilderplate.Models.Authentication.{is_revoked, is_usable}
use django_boilderplate.Models.Notifications.{Notification}
use django_boilderplate.Models.Files.{StoredFile, ready}
use django_boilderplate.Files.{
  secure_upload_path, store_checked, UploadedFile, SecureFileValidator, store, validate_file,
}
use django_boilderplate.Core.Freshness.{get-set}
use django_boilderplate.World.{err, ok, World}
use django_boilderplate.Prelude.{
  ◌+◌, ◌*◌, ℕ, ◌&&◌, true, starts_with, some, not, leb, has_char, exists, arith, ◌≡◌, ◌∷◌,
  text_length, refl, none, false, [],
}
use django_boilderplate.Core.{
  cache_timeout, is_blank, has_type, is_valid_setting, put_setting, Defaults, set, get,
}
use django_boilderplate.Tests.Sample.{sample_user, sample, server, empty_db}

abbrev no_defaults : Defaults
no_defaults = record { group = none; is_public = none; description = none }

abbrev limit_row : Setting
limit_row = record {
  pk = 100;
  key = "limit";
  value = number 3;
  value_type = integer;
  group = "general";
  is_public = false;
  description = "";
}

-- the old value is in the cache
abbrev cached_world : World
cached_world = record (server empty_db) {
  settings_cache =
      record { key = "limit"; public_only = false; value = number 2; expires = 999 } ∷ [];
}

get-set_example :
    (get "limit" null false
      (record (set sample "limit" (number 3) integer none no_defaults cached_world).1 {
        now = 60;
      })).0
    ≡ ok (number 3)
unfolding set put_setting is_valid_setting is_secret_key after_word secret_inside fold_code has_type
    is_blank text_length
get-set_example =
    get-set sample "limit" (number 3) integer none no_defaults limit_row cached_world null false 60
      refl refl

abbrev note : Notification
note = record {
  pk = 1;
  user = 7;
  type_name = "t";
  title = "";
  message = "";
  payload = end;
  read_at = none;
  created_at = 5;
  expires_at = none;
}

abbrev with_note : World
with_note = server (record empty_db { notifications = note ∷ [] })

abbrev with_jwts : World
with_jwts = server (record empty_db {
  jwts =
      record { user = 7; expires_at = 90; blacklisted = false }
      ∷ record { user = 7; expires_at = 9; blacklisted = true }
      ∷ [];
})

cleanup_keeps_example :
    (exists (λ t. true && is_usable 60 t) (cleanup_tokens sample with_jwts).1.db.tokens
      ≡ exists (λ t. true && is_usable 60 t) with_jwts.db.tokens)
    × (exists (λ j. true && leb 60 j.expires_at) (cleanup_tokens sample with_jwts).1.db.jwts
        ≡ exists (λ j. true && leb 60 j.expires_at) with_jwts.db.jwts)
    × (exists
          (λ s. true && not (is_revoked s))
          (cleanup_sessions sample with_jwts).1.db.user_sessions
        ≡ exists (λ s. true && not (is_revoked s)) with_jwts.db.user_sessions)
cleanup_keeps_example =
    cleanup_keeps sample with_jwts 60 (λ _. true) (λ _. true) (λ _. true) (omega arith)

abbrev images : SecureFileValidator
images = record {
  allowed_extensions = "png" ∷ [];
  allowed_mime_types = "image/png" ∷ [];
  max_size = 0;
  malware_scanner = none;
}

abbrev picture : UploadedFile
picture = record { name = "png"; size = 9; content = "bits" }

abbrev stored_picture : StoredFile
stored_picture = record {
  pk = 100;
  owner = some 7;
  file = "uploads/d/a.bin";
  original_name = "png";
  content_type = "image/png";
  size = 9;
  checksum_sha256 = "#bits";
  status = ready;
  created_at = 50;
  deleted_at = none;
}

store_lem_example :
    Accepted sample images picture stored_picture
    × ((store sample (some 7) picture images (server empty_db)).1.db.stored_files
        ≡ stored_picture ∷ [])
unfolding store validate_file starts_with store_checked secure_upload_path has_char
store_lem_example = store_lem sample (some 7) picture images (server empty_db)

abbrev banned_session : World
banned_session =
    record (server (record empty_db { sessions = record { session_key = "sk" } ∷ [] })) {
      session_key = some "sk";
    }

abbrev away : User
away = record sample_user { is_active = false }

prepare_lem_example :
    let w' = (prepare sample (some away) banned_session).1 in
    (w'.session_key ≡ none) × (w'.db.sessions ≡ [])
unfolding can_authenticate_now current
prepare_lem_example = prepare_lem sample away "sk" banned_session refl refl

abbrev open_row : Setting
open_row = record {
  pk = 100;
  key = registration_key;
  value = boolean_value true;
  value_type = boolean;
  group = "general";
  is_public = false;
  description = "";
}

abbrev open_world : World
open_world = record (server (record empty_db { runtime_settings = open_row ∷ [] })) {
  settings_cache =
      record {
        key = registration_key;
        public_only = false;
        value = boolean_value true;
        expires = 60;
      }
      ∷ [];
}

abbrev to_close : SettingData
to_close = record {
  key = none;
  value = some (boolean_value false);
  value_type = none;
  group = none;
  is_public = none;
  description = none;
}

abbrev five_minutes_on : ℕ
five_minutes_on = open_world.now + cache_timeout * second

register_post-update_setting_example :
    let w' = record (update_setting sample 100 (some to_close) 1 none open_world).1 {
      now = five_minutes_on;
    } in
    ((register_post sample none none w').0 ≡ err registration_closed)
    × ((register_post sample none none w').1.db ≡ w'.db)
unfolding update_setting perform_update validate_setting is_valid_setting is_secret_key after_word
    secret_inside fold_code has_type is_blank text_length
register_post-update_setting_example =
    register_post-update_setting sample 100 1 (some to_close) none open_world
      (record open_row { value = boolean_value false }) five_minutes_on none none refl refl refl
      (omega arith, tt) (omega arith)
