-- ===== src/Authorization.antt =====
-- `PermissionService` of apps/authorization/services.py: the permissions of a user, from overrides
-- and from roles that are valid now.
use django_boilderplate.Models.Authorization.{
  allow, deny, is_valid, UserRole, RolePermission, UserPermissionOverride, OverrideEffect,
  Permission,
}
use django_boilderplate.Models.Accounts.{can_authenticate_now, User}
use django_boilderplate.World.{Db}
use django_boilderplate.Prelude.{
  ◌∷◌, ◌||◌, ◌==◌, ◌++◌, ◌&&◌, ℕ, true, str_eq, some, select, not, none, map, if◌then◌else◌, first,
  false, exists, delete_where, [], String, Option, List, Bool,
}
pub mod Consistency
pub mod Registry

-- Whether a row of `permissions` has the key and the name.
abbrev pub is_named : ℕ → String → Permission → Bool
is_named pk codename p = p.pk == pk && str_eq p.codename codename

-- The names of the permissions with the key: the join with the table of permissions.
abbrev pub names_of : List Permission → ℕ → List String
names_of permissions pk = map (λ p. p.codename) (select (λ p. p.pk == pk) permissions)

-- The pairs of `permission_overrides.values_list("permission__codename", "effect")`.
unfoldable pub override_pairs :
    List Permission → List UserPermissionOverride → List (String × OverrideEffect)
override_pairs permissions [] = []
override_pairs permissions (o ∷ rows) =
    map (λ name. (name, o.effect)) (names_of permissions o.permission)
    ++ override_pairs permissions rows

abbrev pub named : String → String × OverrideEffect → Bool
named codename pair = str_eq pair.0 codename

-- `dict(pairs)`: the last pair of a name counts.
unfoldable pub dict_of : List (String × OverrideEffect) → List (String × OverrideEffect)
dict_of [] = []
dict_of (pair ∷ pairs) =
    let rest = dict_of pairs in if exists (named pair.0) rest then rest else pair ∷ rest

abbrev pub is_allow : String × OverrideEffect → Bool
is_allow (_, allow) = true
is_allow (_, deny) = false

abbrev pub is_deny : String × OverrideEffect → Bool
is_deny (_, allow) = false
is_deny (_, deny) = true

-- Membership in a set of names; a set is a list. `none` is Python's `None`.
abbrev pub same_name : Option String → Option String → Bool
same_name none none = true
same_name none (some _) = false
same_name (some _) none = false
same_name (some a) (some b) = str_eq a b

abbrev pub member : Option String → List (Option String) → Bool
member x set = exists (λ y. same_name y x) set

-- The names of one role in a left join: `None` for a role without a permission.
abbrev pub or_null : List (Option String) → List (Option String)
or_null [] = none ∷ []
or_null (x ∷ xs) = x ∷ xs

unfoldable pub names_of_links : List Permission → List RolePermission → List (Option String)
names_of_links permissions [] = []
names_of_links permissions (link ∷ links) =
    map some (names_of permissions link.permission) ++ names_of_links permissions links

unfoldable pub joined_names :
    List Permission → List RolePermission → List UserRole → List (Option String)
unfolding names_of_links
joined_names permissions links [] = []
joined_names permissions links (a ∷ rows) =
    or_null (names_of_links permissions (select (λ l. l.role == a.role) links))
    ++ joined_names permissions links rows

module _ (db : Db) (now : ℕ) where
  -- the user's overrides
  abbrev pub pairs : User → List (String × OverrideEffect)
  pairs user = override_pairs db.permissions (select (λ o. o.user == user.pk) db.overrides)

  -- the user's assignments that are valid now
  abbrev pub valid_roles : User → List UserRole
  valid_roles user = select (λ a. a.user == user.pk && is_valid now a) db.user_roles

  -- whether the role of an assignment gives the permission
  abbrev pub grants : String → UserRole → Bool
  grants codename a =
      exists
        (λ link. link.role == a.role && exists (is_named link.permission codename) db.permissions)
        db.role_permissions

  -- the order of `has_permission`, once the override is read
  unfoldable pub decide : User → String → Option (String × OverrideEffect) → Bool
  decide user codename (some (_, deny)) = false
  decide user codename (some (_, allow)) = true
  decide user codename none = user.is_superuser || exists (grants codename) (valid_roles user)

  -- `has_permission`; `none` is a request without an authenticated user.
  unfoldable pub has_permission : Option User → String → Bool
  unfolding decide override_pairs
  has_permission none codename = false
  has_permission (some user) codename =
      if not (can_authenticate_now now db.bans user)
      then false
      else decide user codename (first (named codename) (pairs user))

  -- the codes of the roles, or of every permission
  unfoldable pub role_codes : User → List (Option String)
  unfolding joined_names
  role_codes user =
      if user.is_superuser
      then map (λ p. some p.codename) db.permissions
      else joined_names db.permissions db.role_permissions (valid_roles user)

  abbrev pub codes_of :
      (String × OverrideEffect → Bool) → List (String × OverrideEffect) → List (Option String)
  codes_of p overrides = map (λ pair. some pair.0) (select p overrides)

  -- `permission_codes`
  unfoldable pub permission_codes : Option User → List (Option String)
  unfolding role_codes dict_of override_pairs
  permission_codes none = []
  permission_codes (some user) =
      if not (can_authenticate_now now db.bans user)
      then []
      else (let overrides = dict_of (pairs user) in
          delete_where (λ x. member x (codes_of is_deny overrides))
            (role_codes user ++ codes_of is_allow overrides))
