-- ===== src/Api/Settings.antt =====
-- `SettingViewSet` and `FeatureFlagViewSet` of apps/api/views/core.py with their serializers: an
-- administrator writes the rows without `RuntimeSettingService`.
use django_boilderplate.Common.Values.{given_value, given_field}
use django_boilderplate.Notifications.{not_found}
use django_boilderplate.Api.Responses.{checked}
use django_boilderplate.Common.Network.{Request}
use django_boilderplate.Audit.{record_audit}
use django_boilderplate.World.{
  pure, validation_error, serializer_error, or_raise, raise_if, gets, fresh_pk, modify_db, ◌>>◌,
  ◌>>=◌, Action,
}
use django_boilderplate.Env.{Env}
use django_boilderplate.Core.{new_setting, save_setting, has_setting_key, or_kept, is_valid_setting}
use django_boilderplate.Models.Core.{json, integer, string, SettingValueType, FeatureFlag, Setting}
use django_boilderplate.Common.Logging.{boolean as boolean_value, Fields, text, end, Value}
use django_boilderplate.Prelude.{
  ◌∷◌, ◌++◌, [], true, ◌||◌, ◌==◌, ◌&&◌, ℕ, update_where, str_eq, some, not, if◌then◌else◌, first,
  false, exists, String, Option, Bool,
}
pub mod Stale
pub mod AuditRow

pub record SettingData : Type 0 where
  pub key : Option String
  pub value : Option Value
  pub value_type : Option SettingValueType
  pub group : Option String
  pub is_public : Option Bool
  pub description : Option String

pub record FlagData : Type 0 where
  pub key : Option String
  pub enabled : Option Bool
  pub description : Option String

-- the codenames for an action
unfoldable setting_permission : String → String
setting_permission action =
    if str_eq action "list" || str_eq action "retrieve" then "settings.view" else "settings.update"

unfoldable flag_permission : String → String
flag_permission action =
    if str_eq action "list" || str_eq action "retrieve"
    then "feature_flags.view"
    else "feature_flags.update"

abbrev pub with_data : SettingData → Setting → Setting
with_data d s = record s {
  key = or_kept d.key s.key;
  value = or_kept d.value s.value;
  value_type = or_kept d.value_type s.value_type;
  group = or_kept d.group s.group;
  is_public = or_kept d.is_public s.is_public;
  description = or_kept d.description s.description;
}

abbrev pub is_key_of_other : ℕ → String → Setting → Bool
is_key_of_other pk key s = has_setting_key key s && not (s.pk == pk)

-- `SettingSerializer.validate`, and the unique key that the framework checks for the field
unfoldable pub validate_setting : Setting → Option SettingData → Action SettingData
unfolding is_valid_setting
validate_setting row parsed = do
  d ← checked parsed
  taken ← gets (λ w. exists (is_key_of_other row.pk (with_data d row).key) w.db.runtime_settings)
  raise_if taken serializer_error
  raise_if (not (is_valid_setting (with_data d row))) serializer_error
  pure d

abbrev type_value : SettingValueType → Value
type_value string = text "string"
type_value integer = text "integer"
type_value SettingValueType.boolean = text "boolean"
type_value json = text "json"

-- `{field: getattr(serializer.instance, field) for field in serializer.validated_data}`
unfoldable pub instance_fields : SettingData → Setting → Fields
instance_fields d s = given_field "key" text d.key s.key (
    given_field "value" (λ v. v) d.value s.value
      (given_field "value_type" type_value d.value_type s.value_type (
        given_field "group" text d.group s.group (
          given_field "is_public" boolean_value d.is_public s.is_public
            (given_field "description" text d.description s.description end)))))

-- `serializer.validated_data`
unfoldable pub validated_fields : SettingData → Fields
validated_fields d = given_value "key" text d.key (
    given_value "value" (λ v. v) d.value
      (given_value "value_type" type_value d.value_type (
        given_value "group" text d.group (
          given_value "is_public" boolean_value d.is_public
            (given_value "description" text d.description end)))))

-- the values of a flag under the fields that are given
unfoldable flag_fields : FlagData → FeatureFlag → Fields
flag_fields d f = given_field "key" text d.key f.key (
    given_field "enabled" boolean_value d.enabled f.enabled
      (given_field "description" text d.description f.description end))

abbrev with_flag : FlagData → FeatureFlag → FeatureFlag
with_flag d f = record f {
  key = or_kept d.key f.key;
  enabled = or_kept d.enabled f.enabled;
  description = or_kept d.description f.description;
}

module _ (env : Env) where
  -- `SettingViewSet.create`; `full_clean` runs again on the row that is saved
  unfoldable create_setting : Option SettingData → ℕ → Option Request → Action Setting
  unfolding validate_setting record_audit validated_fields
  create_setting parsed actor request = do
    pk ← fresh_pk
    d ← validate_setting (new_setting pk "") parsed
    let row = with_data d (new_setting pk "")
    modify_db (save_setting true row)
    raise_if (not (is_valid_setting row)) validation_error
    record_audit env "setting.created" "core.setting" (env.pk_text row.pk) (some actor) request end
        (validated_fields d)
    pure row

  -- `SettingViewSet.perform_update`, for the instance that `validate` has left: it sets the new
  -- values on the instance of the serializer
  unfoldable pub perform_update : Setting → SettingData → ℕ → Option Request → Action Setting
  unfolding record_audit validated_fields instance_fields
  perform_update instance_ d actor request = do
    let before_fields = instance_fields d instance_
    modify_db (save_setting false instance_)
    raise_if (not (is_valid_setting instance_)) validation_error
    record_audit env "setting.updated" "core.setting" (env.pk_text instance_.pk) (some actor)
        request before_fields (validated_fields d)
    pure instance_

  -- `SettingViewSet.update`
  unfoldable pub update_setting : ℕ → Option SettingData → ℕ → Option Request → Action Setting
  unfolding validate_setting perform_update
  update_setting pk parsed actor request = do
    found ← gets (λ w. first (λ s. s.pk == pk) w.db.runtime_settings)
    row ← or_raise found not_found
    d ← validate_setting row parsed
    perform_update (with_data d row) d actor request

  -- `FeatureFlagViewSet.create`
  unfoldable create_flag : Option FlagData → ℕ → Option Request → Action FeatureFlag
  unfolding record_audit flag_fields
  create_flag parsed actor request = do
    pk ← fresh_pk
    d ← checked parsed
    let flag = with_flag d (record { pk = pk; key = ""; enabled = false; description = "" })
    taken ← gets (λ w. exists (λ f. str_eq f.key flag.key) w.db.feature_flags)
    raise_if taken serializer_error
    modify_db (λ db. record db { feature_flags = db.feature_flags ++ flag ∷ [] })
    record_audit env "feature_flag.created" "core.featureflag" (env.pk_text pk) (some actor) request
        end (flag_fields d flag)
    pure flag

  -- `FeatureFlagViewSet.update`
  unfoldable update_flag : ℕ → Option FlagData → ℕ → Option Request → Action FeatureFlag
  unfolding record_audit flag_fields
  update_flag pk parsed actor request = do
    found ← gets (λ w. first (λ f. f.pk == pk) w.db.feature_flags)
    flag ← or_raise found not_found
    d ← checked parsed
    let changed = with_flag d flag
    taken ←
        gets (λ w. exists (λ f. str_eq f.key changed.key && not (f.pk == pk)) w.db.feature_flags)
    raise_if taken serializer_error
    modify_db (λ db. record db {
      feature_flags = update_where (λ f. f.pk == pk) (λ _. changed) db.feature_flags;
    })
    record_audit env "feature_flag.updated" "core.featureflag" (env.pk_text pk) (some actor) request
        (flag_fields d flag) (flag_fields d changed)
    pure changed
