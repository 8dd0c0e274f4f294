-- ===== src/Core.antt =====
-- `RuntimeSettingService` and `FeatureFlagService` of apps/core/services.py, with `Setting.clean` of
-- apps/core/models.py.
use django_boilderplate.Core.Keys.{is_secret_key}
use django_boilderplate.Security.LoginProtection.{second}
use django_boilderplate.Audit.{record_audit}
use django_boilderplate.Env.{Env}
use django_boilderplate.World.{
  fresh_pk, modify_db, validation_error, raise_if, ◌>>◌, gets, ◌>>=◌, atomic, Db, pure, ok, Action,
  SettingEntry,
}
use django_boilderplate.Prelude.{
  ◌∷◌, ◌||◌, ◌==◌, ◌+◌, ◌++◌, ◌*◌, ◌&&◌, ℕ, updated, update_where, true, text_length, str_eq, some,
  not, none, ltb, leb, if◌then◌else◌, first, false, delete_where, [], String, Option, List, Bool,
}
use django_boilderplate.Models.Core.{
  FeatureFlag, Setting, SettingValueType, string, integer, boolean, json,
}
use django_boilderplate.Common.Logging.{
  number, text, Value, null, list, dict, nil, end, boolean as boolean_value,
}
pub mod Freshness
pub mod Keys

-- the test of the declared type
unfoldable pub has_type : SettingValueType → Value → Bool
has_type string v = elim v [ text _ ↦ true | _ ↦ false ]
has_type integer v = elim v [ number _ ↦ true | _ ↦ false ]
has_type boolean v = elim v [ boolean_value _ ↦ true | _ ↦ false ]
has_type json v = true

-- the values that a field without `blank=True` refuses
unfoldable pub is_blank : Value → Bool
is_blank null = true
is_blank (text s) = str_eq s ""
is_blank (list nil) = true
is_blank (dict end) = true
is_blank _ = false

abbrev fits : ℕ → String → Bool
fits limit s = not (str_eq s "") && leb (text_length s) limit

-- `full_clean`: the fields, then `clean`; the unique key holds, as the row was looked up by it.
unfoldable pub is_valid_setting : Setting → Bool
unfolding is_secret_key has_type is_blank
is_valid_setting s =
    (fits 150 s.key && (fits 64 s.group && not (is_blank s.value)))
    && (not (is_secret_key s.key) && has_type s.value_type s.value)

abbrev pub has_setting_key : String → Setting → Bool
has_setting_key key s = str_eq s.key key

abbrev pub bool_eq : Bool → Bool → Bool
bool_eq true b = b
bool_eq false b = not b

-- the cache: entries for a key and a variant
abbrev pub is_setting_entry : String → Bool → SettingEntry → Bool
is_setting_entry key public_only e = str_eq e.key key && bool_eq e.public_only public_only

abbrev pub is_live_entry : ℕ → String → Bool → SettingEntry → Bool
is_live_entry now key public_only e = is_setting_entry key public_only e && ltb now e.expires

-- `cached is not None`
abbrev pub cached_value : Option SettingEntry → Option Value
cached_value none = none
cached_value (some e) = elim e.value [ null ↦ none | v ↦ some v ]

abbrev pub cache_timeout : ℕ
cache_timeout = 300

abbrev cache_setting : String → Bool → Value → Action (Unit {0})
cache_setting key public_only value w = (
  ok tt,
  record w {
    settings_cache =
        record {
          key = key;
          public_only = public_only;
          value = value;
          expires = w.now + cache_timeout * second;
        }
        ∷ delete_where (is_setting_entry key public_only) w.settings_cache;
  },
)

-- `cache.delete`
abbrev forget_setting : String → Bool → Action (Unit {0})
forget_setting key public_only w = (
  ok tt,
  record w { settings_cache = delete_where (is_setting_entry key public_only) w.settings_cache },
)

-- `row.value if row else default`
abbrev pub value_or_default : Option Setting → Value → Value
value_or_default none default = default
value_or_default (some s) default = s.value

abbrev pub stored_setting : String → Bool → List Setting → Option Setting
stored_setting key public_only rows =
    first (λ s. has_setting_key key s && (not public_only || s.is_public)) rows

unfoldable pub read_setting : String → Value → Bool → Option Value → Action Value
read_setting key default public_only (some value) = pure value
read_setting key default public_only none = do
  row ← gets (λ w. stored_setting key public_only w.db.runtime_settings)
  let value = value_or_default row default
  cache_setting key public_only value
  pure value

unfoldable pub get : (key : String) → (default : Value) → (public_only : Bool) → Action Value
unfolding read_setting
get key default public_only = do
  cached ← gets (λ w. first (is_live_entry w.now key public_only) w.settings_cache)
  read_setting key default public_only (cached_value cached)

-- the keyword arguments of `set` besides the value; `none` is one that is not given
pub record Defaults : Type 0 where
  pub group : Option String
  pub is_public : Option Bool
  pub description : Option String

abbrev pub or_kept : {A : Type 0} → Option A → A → A
or_kept none a = a
or_kept (some b) a = b

-- `row or Setting(key=key)` with the new fields
abbrev pub new_setting : ℕ → String → Setting
new_setting pk key = record {
  pk = pk;
  key = key;
  value = null;
  value_type = string;
  group = "general";
  is_public = false;
  description = "";
}

abbrev pub change_setting : Value → SettingValueType → Defaults → Setting → Setting
change_setting value value_type defaults row = record row {
  value = value;
  value_type = value_type;
  group = or_kept defaults.group row.group;
  is_public = or_kept defaults.is_public row.is_public;
  description = or_kept defaults.description row.description;
}

-- `row.save()`
abbrev pub save_setting : Bool → Setting → Db → Db
save_setting created row db = record db {
  runtime_settings =
      if created
      then db.runtime_settings ++ row ∷ []
      else update_where (λ r. r.pk == row.pk) (λ _. row) db.runtime_settings;
}

module _ (env : Env) where
  -- the rest of `set`, for the row with its new fields
  unfoldable pub put_setting : Bool → (actor : Option ℕ) → Setting → Action Setting
  unfolding record_audit is_valid_setting
  put_setting created actor row = do
    raise_if (not (is_valid_setting row)) validation_error
    modify_db (save_setting created row)
    forget_setting row.key false
    forget_setting row.key true
    record_audit env (if created then "setting.created" else "setting.updated") "core.setting"
        (env.pk_text row.pk) actor none end end
    pure row

  abbrev pub set_found :
      String
      → Value
      → SettingValueType
      → (actor : Option ℕ) → Defaults
      → Option Setting
      → Action Setting
  set_found key value value_type actor defaults none = do
    pk ← fresh_pk
    put_setting true actor (change_setting value value_type defaults (new_setting pk key))
  set_found key value value_type actor defaults (some row) =
      put_setting false actor (change_setting value value_type defaults row)

  unfoldable pub set :
      (key : String)
      → (value : Value) → (value_type : SettingValueType) → (actor : Option ℕ) → Defaults
      → Action Setting
  unfolding put_setting
  set key value value_type actor defaults = atomic do
    found ← gets (λ w. first (has_setting_key key) w.db.runtime_settings)
    set_found key value value_type actor defaults found

-- `FeatureFlagService.is_enabled`
unfoldable is_flag_enabled : String → Bool → List FeatureFlag → Bool
is_flag_enabled key default flags = elim (first (λ f. str_eq f.key key) flags) [
  | none ↦ default
  | some f ↦ f.enabled
]
