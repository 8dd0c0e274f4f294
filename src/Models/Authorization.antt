-- ===== src/Models/Authorization.antt =====
-- apps/authorization/models.py: permissions, roles, assignments and overrides.
use django_boilderplate.Prelude.{ℕ, String, Bool, Option, ◌&&◌, leb}
use django_boilderplate.Models.Accounts.{open_ended}

pub record Permission : Type 0 where
  pub pk : ℕ
  pub codename : String
  pub description : String
  pub is_system : Bool
  pub updated_at : ℕ

pub record Role : Type 0 where
  pub pk : ℕ
  pub name : String
  pub slug : String
  pub description : String
  pub priority : ℕ
  pub is_system : Bool
  pub updated_at : ℕ

pub record RolePermission : Type 0 where
  pub role : ℕ
  pub permission : ℕ

pub record UserRole : Type 0 where
  pub user : ℕ
  pub role : ℕ
  pub granted_by : Option ℕ
  pub valid_from : ℕ
  pub valid_until : Option ℕ

-- `UserRole.is_valid`
abbrev pub is_valid : ℕ → UserRole → Bool
is_valid now a = leb a.valid_from now && open_ended now a.valid_until

pub data OverrideEffect : Type 0 where
  allow deny : OverrideEffect

pub record UserPermissionOverride : Type 0 where
  pub user : ℕ
  pub permission : ℕ
  pub effect : OverrideEffect
