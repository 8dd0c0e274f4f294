-- ===== src/Authorization/Registry.antt =====
-- apps/authorization/registry.py: the permissions that the apps announce at start. A dictionary is
-- the list of its items. The sorted copy that `get_registered_permissions` returns is not modelled.
use django_boilderplate.World.{value_error, err, ok, Result}
use django_boilderplate.Prelude.{
  ◌∷◌, str_eq, some, not, none, if◌then◌else◌, first, false, [], String, Option, List, Bool,
}
pub mod Stability

abbrev pub Descriptions : Type 0
Descriptions = List (String × String)

abbrev pub is_entry : String → String × String → Bool
is_entry name entry = str_eq entry.0 name

-- `BASE_PERMISSIONS`
abbrev pub base_permissions : Descriptions
base_permissions =
    ("users.view", "View users")
    ∷ ("users.create", "Create users")
    ∷ ("users.update", "Update users")
    ∷ ("users.delete", "Delete users")
    ∷ ("users.ban", "Ban and unban users")
    ∷ ("roles.view", "View roles and permissions")
    ∷ ("roles.manage", "Manage roles and permission assignments")
    ∷ ("settings.view", "View runtime settings")
    ∷ ("settings.update", "Update runtime settings")
    ∷ ("audit.view", "View audit logs")
    ∷ ("security_events.view", "View security events")
    ∷ ("notifications.manage", "Manage notifications")
    ∷ ("api_keys.manage", "Manage API keys for other users")
    ∷ ("feature_flags.view", "View feature flags")
    ∷ ("feature_flags.update", "Update feature flags")
    ∷ ("webhooks.manage", "Manage webhook endpoints")
    ∷ ("files.manage", "Manage uploaded files")
    ∷ []

-- `_registry[codename] = description`
unfoldable pub put : String × String → Descriptions → Descriptions
put entry [] = entry ∷ []
put entry (e ∷ rest) = if is_entry entry.0 e then entry ∷ rest else e ∷ put entry rest

-- `codename in _registry and _registry[codename] != description`
unfoldable pub conflicts : String × String → Option (String × String) → Bool
conflicts entry none = false
conflicts entry (some e) = not (str_eq e.1 entry.1)

-- The loop stops at the first conflict; what it has registered before stays.
unfoldable pub register_permissions : Descriptions → Descriptions → Result (Unit {0}) × Descriptions
unfolding put conflicts
register_permissions [] registry = (ok tt, registry)
register_permissions (entry ∷ rest) registry =
    let next = register_permissions rest (put entry registry) in
    if conflicts entry (first (is_entry entry.0) registry)
    then (err value_error, registry)
    else next
