-- ===== src/Api/Settings/Stale.antt =====
-- The cache of the runtime settings and the audit row, after an administrator has changed a setting.
use django_boilderplate.Common.Network.{Request}
use django_boilderplate.Common.Logging.{Value}
use django_boilderplate.Env.{Env}
use django_boilderplate.Api.Settings.{validate_setting, SettingData, perform_update, update_setting}
use django_boilderplate.Core.{cached_value, is_live_entry, read_setting, get}
use django_boilderplate.World.{ok, SettingEntry, World}
use django_boilderplate.Prelude.{◌≡◌, ◌∙◌, ℕ, some, first, arith, ap₂, String, Option, Bool}

abbrev entry_of : World → String → Bool → Option SettingEntry
entry_of w key public_only = first (is_live_entry w.now key public_only) w.settings_cache

get-cached :
    (key : String) (default value : Value) (public_only : Bool) (w : World)
    → cached_value (entry_of w key public_only) ≡ some value
    → get key default public_only w ≡ (ok value, w)
unfolding get read_setting
get-cached key default value public_only w e = simp e

pub cache-update_setting :
    (env : Env) (pk : ℕ) (parsed : Option SettingData) (actor : ℕ) (request : Option Request)
    (w : World)
    → ((update_setting env pk parsed actor request w).1.settings_cache ≡ w.settings_cache)
      × ((update_setting env pk parsed actor request w).1.now ≡ w.now)
unfolding update_setting perform_update validate_setting
cache-update_setting env pk parsed actor request w = ground arith

-- After an administrator changes a setting through the interface, a value that was cached before is
-- still what `get` answers, whatever was written.
pub get-update_setting :
    (env : Env) (pk : ℕ) (parsed : Option SettingData) (actor : ℕ) (request : Option Request)
    (w : World)
    → (key : String) (default value : Value) (public_only : Bool)
    → cached_value (entry_of w key public_only) ≡ some value
    → let w' = (update_setting env pk parsed actor request w).1 in
      get key default public_only w' ≡ (ok value, w')
get-update_setting env pk parsed actor request w key default value public_only cached =
    let w' = (update_setting env pk parsed actor request w).1 in
    let (kept, same) = cache-update_setting env pk parsed actor request w in
    get-cached key default value public_only w'
      (ap₂ (λ c t. cached_value (first (is_live_entry t key public_only) c)) kept same ∙ cached)
