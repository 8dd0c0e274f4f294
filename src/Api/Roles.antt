-- ===== src/Api/Roles.antt =====
-- apps/api/views/authorization.py, the removal of what the permissions are made of, with the guards
-- of apps/authorization/models.py, and `HasPermission` of common/permissions/rbac.py. The removal of
-- a row takes the rows with it that refer to it, and is refused for a role that is assigned.
use django_boilderplate.Common.Logging.{Fields, end}
use Prim.Native.String.{◌++◌ as cat}
use django_boilderplate.Authentication.Accounts.{conflict_error}
use django_boilderplate.Notifications.{not_found}
use django_boilderplate.Common.Network.{Request}
use django_boilderplate.Audit.{record_audit}
use django_boilderplate.World.{
  pure, modify_db, integrity_error, or_raise, validation_error, gets, raise_if, runtime_error,
  ◌>>=◌, ◌>>◌, raise, Action,
}
use django_boilderplate.Models.Accounts.{User}
use django_boilderplate.Env.{Env}
use django_boilderplate.Models.Authorization.{Permission, Role}
use django_boilderplate.Authorization.{has_permission}
use django_boilderplate.Prelude.{
  ◌==◌, ℕ, str_eq, some, if◌then◌else◌, first, exists, delete_where, String, Option, Bool,
}
pub mod Removal

-- `HasPermission.has_permission`; a view without a codename is an error of the program
unfoldable check_permission : (required : String) → Option User → Action Bool
unfolding has_permission
check_permission required user =
    if str_eq required ""
    then raise runtime_error
    else gets (λ w. has_permission w.db w.now user required)

-- `Role.delete`, with the database's own reaction
unfoldable pub delete_role : Role → Action (Unit {0})
delete_role role = do
  raise_if role.is_system validation_error
  assigned ← gets (λ w. exists (λ a. a.role == role.pk) w.db.user_roles)
  raise_if assigned integrity_error
  modify_db (λ db. record db {
    roles = delete_where (λ r. r.pk == role.pk) db.roles;
    role_permissions = delete_where (λ l. l.role == role.pk) db.role_permissions;
  })

-- `Permission.delete`
unfoldable pub delete_permission : Permission → Action (Unit {0})
delete_permission permission = do
  raise_if permission.is_system validation_error
  modify_db (λ db. record db {
    permissions = delete_where (λ p. p.pk == permission.pk) db.permissions;
    role_permissions = delete_where (λ l. l.permission == permission.pk) db.role_permissions;
    overrides = delete_where (λ o. o.permission == permission.pk) db.overrides;
  })

module _ (env : Env) where
  -- `AuthorizationViewSet.perform_create`: `save` saves the row and gives its key
  unfoldable perform_create :
      (audit_name target_type : String)
      → (actor : ℕ) → Option Request
      → (save : Action ℕ) → (validated : Fields) → Action ℕ
  unfolding record_audit
  perform_create audit_name target_type actor request save validated = do
    pk ← save
    record_audit env (cat audit_name ".created") target_type (env.pk_text pk) (some actor) request
        end validated
    pure pk

  -- `AuthorizationViewSet.perform_update`: the old values are read before the row is saved
  unfoldable perform_update :
      (audit_name target_type : String)
      → (pk actor : ℕ) → Option Request
      → (read : Action Fields) → (save : Action (Unit {0})) → (validated : Fields)
      → Action (Unit {0})
  unfolding record_audit
  perform_update audit_name target_type pk actor request read save validated = do
    before_fields ← read
    save
    record_audit env (cat audit_name ".updated") target_type (env.pk_text pk) (some actor) request
        before_fields validated

  -- `AuthorizationViewSet.perform_destroy`, for a row with `is_system` and its own `delete`
  unfoldable pub perform_destroy :
      (is_system : Bool)
      → (audit_name target_type : String) → (pk actor : ℕ) → Option Request
      → (delete : Action (Unit {0})) → Action (Unit {0})
  unfolding record_audit
  perform_destroy is_system audit_name target_type pk actor request delete = do
    raise_if is_system conflict_error
    record_audit env (cat audit_name ".deleted") target_type (env.pk_text pk) (some actor) request
        end end
    delete

  -- `RoleViewSet.destroy`
  unfoldable pub destroy_role : ℕ → ℕ → Option Request → Action (Unit {0})
  unfolding perform_destroy delete_role
  destroy_role pk actor request = do
    found ← gets (λ w. first (λ r. r.pk == pk) w.db.roles)
    role ← or_raise found not_found
    perform_destroy role.is_system "role" "authorization.role" pk actor request (delete_role role)

  -- `PermissionViewSet.destroy`
  unfoldable pub destroy_permission : ℕ → ℕ → Option Request → Action (Unit {0})
  unfolding perform_destroy delete_permission
  destroy_permission pk actor request = do
    found ← gets (λ w. first (λ p. p.pk == pk) w.db.permissions)
    permission ← or_raise found not_found
    perform_destroy permission.is_system "permission" "authorization.permission" pk actor request
        (delete_permission permission)
