-- ===== src/Management.antt =====
-- The command apps/core/management/commands/bootstrap.py with `get_registered_permissions` of
-- apps/authorization/registry.py: it brings permissions, system roles, one setting and one flag to
-- their registered state. A row is found, and saved, by its unique column. The set of the names of a
-- role is gone through in the order of the registry.
use django_boilderplate.Models.Core.{boolean}
use django_boilderplate.Common.Logging.{boolean as boolean_value}
use django_boilderplate.Api.Registering.{registration_key}
use django_boilderplate.Core.{has_setting_key}
use django_boilderplate.World.{
  key_error, when, fresh_pk, or_raise, gets, modify_db, ◌>>=◌, ◌>>◌, atomic, pure, Db, Action,
}
use django_boilderplate.Authorization.Registry.{Descriptions}
use django_boilderplate.Models.Authorization.{RolePermission, Role, Permission}
use django_boilderplate.Prelude.{
  ◌∷◌, ◌==◌, ◌++◌, ◌&&◌, ℕ, update_where, true, str_eq, some, not, none, map, if◌then◌else◌, first,
  exists, [], String, Option, List, Bool,
}
pub mod Upsert
pub mod Undated
pub mod Permissions
pub mod OneRole
pub mod Roles
pub mod Links
pub mod Returning
pub mod Syncing

pub record RoleDefinition : Type 0 where
  pub slug : String
  pub name : String
  pub description : String
  pub priority : ℕ
  -- `none` is "*"
  pub permissions : Option (List String)

-- `ROLE_DEFINITIONS`
abbrev role_definitions : List RoleDefinition
role_definitions =
    record {
      slug = "super-admin";
      name = "Super Admin";
      description = "Full registered application access.";
      priority = 1000;
      permissions = none;
    }
    ∷ record {
      slug = "admin";
      name = "Admin";
      description = "Administrative access except system role management.";
      priority = 800;
      permissions = none;
    }
    ∷ record {
      slug = "moderator";
      name = "Moderator";
      description = "User safety and audit visibility.";
      priority = 500;
      permissions = some (
          "users.view" ∷ "users.update" ∷ "users.ban" ∷ "audit.view" ∷ "security_events.view" ∷ []);
    }
    ∷ record {
      slug = "user";
      name = "User";
      description = "Default authenticated account role.";
      priority = 100;
      permissions = some [];
    }
    ∷ []

abbrev pub has_codename : String → Permission → Bool
has_codename codename p = str_eq p.codename codename

abbrev pub has_slug : String → Role → Bool
has_slug slug r = str_eq r.slug slug

abbrev pub is_link : ℕ → ℕ → RolePermission → Bool
is_link role permission l = (l.role == role) && (l.permission == permission)

-- the columns that `update_or_create` writes at an instant
abbrev pub describe_permission : String → ℕ → Permission → Permission
describe_permission description now p = record p {
  description = description;
  is_system = true;
  updated_at = now;
}

abbrev pub define_role : RoleDefinition → ℕ → Role → Role
define_role d now r = record r {
  name = d.name;
  description = d.description;
  priority = d.priority;
  is_system = true;
  updated_at = now;
}

abbrev pub set_permissions : List Permission → Db → Db
set_permissions rows db = record db { permissions = rows }

abbrev pub set_roles : List Role → Db → Db
set_roles rows db = record db { roles = rows }

-- `Permission.objects.update_or_create(codename=..., defaults=...)`, for the row that is there
unfoldable pub put_permission : String → String → Option Permission → Action ℕ
put_permission codename description (some p) = do
  now ← gets (λ w. w.now)
  modify_db (λ db.
      set_permissions
        (update_where (has_codename codename) (describe_permission description now) db.permissions)
        db)
  pure p.pk
put_permission codename description none = do
  pk ← fresh_pk
  now ← gets (λ w. w.now)
  modify_db (λ db.
      set_permissions
        (db.permissions
          ++ record {
            pk = pk;
            codename = codename;
            description = description;
            is_system = true;
            updated_at = now;
          }
            ∷ [])
        db)
  pure pk

-- the first loop, with `permission_rows`
unfoldable pub sync_permissions : Descriptions → Action (List (String × ℕ))
unfolding put_permission
sync_permissions [] = pure []
sync_permissions ((codename, description) ∷ rest) = do
  found ← gets (λ w. first (has_codename codename) w.db.permissions)
  pk ← put_permission codename description found
  rows ← sync_permissions rest
  pure ((codename, pk) ∷ rows)

-- `Role.objects.update_or_create(slug=..., defaults=...)`
unfoldable pub put_role : RoleDefinition → Option Role → Action ℕ
put_role d (some r) = do
  now ← gets (λ w. w.now)
  modify_db (λ db. set_roles (update_where (has_slug d.slug) (define_role d now) db.roles) db)
  pure r.pk
put_role d none = do
  pk ← fresh_pk
  now ← gets (λ w. w.now)
  modify_db (λ db.
      set_roles
        (db.roles
          ++ record {
            pk = pk;
            name = d.name;
            slug = d.slug;
            description = d.description;
            priority = d.priority;
            is_system = true;
            updated_at = now;
          }
            ∷ [])
        db)
  pure pk

-- `permission_rows[codename]`
unfoldable pub row_of : String → List (String × ℕ) → Option ℕ
row_of codename [] = none
row_of codename ((name, pk) ∷ rows) = if str_eq name codename then some pk else row_of codename rows

-- `RolePermission.objects.get_or_create(role=..., permission=...)`
abbrev pub put_link : ℕ → ℕ → Action (Unit {0})
put_link role permission = do
  linked ← gets (λ w. exists (is_link role permission) w.db.role_permissions)
  when (not linked) (
      modify_db (λ db. record db {
        role_permissions =
            db.role_permissions ++ record { role = role; permission = permission } ∷ [];
      }))

-- the inner loop
unfoldable pub link_each : ℕ → List (String × ℕ) → List String → Action (Unit {0})
unfolding row_of
link_each role rows [] = pure tt
link_each role rows (codename ∷ rest) = do
  permission ← or_raise (row_of codename rows) key_error
  put_link role permission
  link_each role rows rest

-- `desired`
abbrev pub desired : List (String × ℕ) → Option (List String) → List String
desired rows none = map (λ entry. entry.0) rows
desired rows (some codenames) = codenames

-- the second loop
unfoldable pub sync_roles : List (String × ℕ) → List RoleDefinition → Action (Unit {0})
unfolding put_role link_each
sync_roles rows [] = pure tt
sync_roles rows (d ∷ rest) = do
  found ← gets (λ w. first (has_slug d.slug) w.db.roles)
  role ← put_role d found
  link_each role rows (desired rows d.permissions)
  sync_roles rows rest

-- `Setting.objects.get_or_create(...)`
unfoldable pub put_registration_setting : Action (Unit {0})
put_registration_setting = do
  there ← gets (λ w. exists (has_setting_key registration_key) w.db.runtime_settings)
  when (not there) do
    pk ← fresh_pk
    modify_db (λ db. record db {
      runtime_settings =
          db.runtime_settings
          ++ record {
            pk = pk;
            key = registration_key;
            value = boolean_value true;
            value_type = boolean;
            group = "site";
            is_public = true;
            description = "Allow public user registration.";
          }
            ∷ [];
    })

-- `FeatureFlag.objects.get_or_create(...)`
unfoldable pub put_registration_flag : Action (Unit {0})
put_registration_flag = do
  there ← gets (λ w. exists (λ f. str_eq f.key "registration.enabled") w.db.feature_flags)
  when (not there) do
    pk ← fresh_pk
    modify_db (λ db. record db {
      feature_flags =
          db.feature_flags
          ++ record {
            pk = pk;
            key = "registration.enabled";
            enabled = true;
            description = "Registration feature switch.";
          }
            ∷ [];
    })

-- `Command.handle`, for the items of the registry and the definitions of the roles
unfoldable pub bootstrap : Descriptions → List RoleDefinition → Action (Unit {0})
unfolding sync_permissions sync_roles put_registration_setting put_registration_flag
bootstrap registry definitions = atomic do
  rows ← sync_permissions registry
  sync_roles rows definitions
  put_registration_setting
  put_registration_flag
