-- ===== src/Api/Roles/Removal.antt =====
-- What the removal of a permission or of a role leaves.
use django_boilderplate.Models.Audit.{AuditLog}
use django_boilderplate.Common.Network.{Request}
use django_boilderplate.Env.{Env}
use django_boilderplate.Audit.{record_audit}
use django_boilderplate.Models.Accounts.{can_authenticate_now, User}
use django_boilderplate.World.{integrity_error, err, ok, World, Db}
use django_boilderplate.Api.Roles.{
  cat, delete_role, delete_permission, perform_destroy, destroy_role, destroy_permission,
}
use django_boilderplate.Authorization.{
  valid_roles, grants, names_of, pairs, named, decide, is_named, override_pairs, has_permission,
}
use django_boilderplate.Models.Authorization.{
  UserRole, OverrideEffect, Role, UserPermissionOverride, Permission,
}
use django_boilderplate.Prelude.{
  ◌∙◌, ◌||◌, sym, subst, select, map, inr, inl, first-passes, first-none, exists_never, exists_cong,
  exists-select, exists-map, exists-append, delete_where, ap₂, ap, Bool-cases, Bool, ==_iff, ◌≡◌,
  ◌∷◌, ◌==◌, ◌++◌, ◌&&◌, ℕ, true, str_eq, some, refl, not, first, false, exists_weaken, exists,
  arith, [], String, Option, List,
}

module _ (permissions : List Permission) (codename : String) where
  -- no row has the name
  abbrev Unnamed : Type 0
  Unnamed = exists (λ p. str_eq p.codename codename) permissions ≡ false

  unnamed-link : (unnamed : Unnamed) (pk : ℕ) → exists (is_named pk codename) permissions ≡ false
  unnamed-link unnamed pk =
      exists_weaken (is_named pk codename) (λ p. str_eq p.codename codename) permissions
        (λ p. ground arith) unnamed

  named-none :
      (unnamed : Unnamed) (overrides : List UserPermissionOverride)
      → exists (named codename) (override_pairs permissions overrides) ≡ false
  unfolding override_pairs
  named-none unnamed [] = refl
  named-none unnamed (o ∷ rows) =
      let pair : String → String × OverrideEffect = λ name. (name, o.effect) in
      let mine : Permission → Bool = λ p. p.pk == o.permission in
      exists-append (named codename) (map pair (names_of permissions o.permission))
        (override_pairs permissions rows)
      ∙ ap₂ ◌||◌
          (exists-map (named codename) pair (names_of permissions o.permission)
            ∙ exists-map (λ n. str_eq n codename) (λ p. p.codename) (select mine permissions)
            ∙ exists-select (λ p. str_eq p.codename codename) mine permissions
            ∙ unnamed-link unnamed o.permission)
          (named-none unnamed rows)

-- A permission whose name no row has is given only to superusers.
ungranted :
    (db : Db) (now : ℕ) (user : User) (codename : String)
    → user.is_superuser ≡ false
    → Unnamed db.permissions codename
    → has_permission db now (some user) codename ≡ false
unfolding has_permission decide
ungranted db now user codename plain_ unnamed =
    let denied =
      first-none (named codename) (pairs db now user) (
        named-none db.permissions codename unnamed
          (select (λ o. o.user == user.pk) db.overrides)) in
    let unlinked : (a : UserRole) → grants db now codename a ≡ false = λ a.
      exists_never _ db.role_permissions
        (λ l. ground (arith, unnamed-link db.permissions codename unnamed l.permission)) in
    let without_role = exists_never (grants db now codename) (valid_roles db now user) unlinked in
    elim (Bool-cases (can_authenticate_now now db.bans user)) [
      | inl able ↦ simp (able, denied, plain_, without_role)
      | inr unable ↦ simp unable
    ]

-- Once a permission is removed through the interface, and no other row has its name, no user but a
-- superuser has it.
pub destroy_permission-ungranted :
    (env : Env) (pk actor : ℕ) (request : Option Request) (w : World) (p : Permission) (user : User)
    (later : ℕ)
    → first (λ q. q.pk == pk) w.db.permissions ≡ some p
    → exists (λ q. str_eq q.codename p.codename && not (q.pk == pk)) w.db.permissions ≡ false
    → user.is_superuser ≡ false
    → (destroy_permission env pk actor request w).0 ≡ ok tt
    → has_permission (destroy_permission env pk actor request w).1.db later (some user) p.codename
      ≡ false
unfolding destroy_permission perform_destroy delete_permission record_audit
destroy_permission-ungranted env pk actor request w p user later found alone plain_ done =
    let free : p.is_system ≡ false = ground (arith, found, done) in
    let w' = (destroy_permission env pk actor request w).1 in
    let its_pk : p.pk ≡ pk =
      (==_iff p.pk pk).0 (first-passes (λ q. q.pk == pk) w.db.permissions found) in
    let gone : w'.db.permissions ≡ delete_where (λ q. q.pk == pk) w.db.permissions =
      simp (found, free) (ap (λ k. delete_where (λ q. q.pk == k) w.db.permissions) its_pk) in
    let unnamed : Unnamed (delete_where (λ q. q.pk == pk) w.db.permissions) p.codename =
      exists-select (λ q. str_eq q.codename p.codename) (λ q. not (q.pk == pk)) w.db.permissions
      ∙ exists_cong _ _ w.db.permissions (λ q. ground arith)
      ∙ alone in
    ungranted w'.db later user p.codename plain_
      (subst (λ rows. Unnamed rows p.codename) (sym gone) unnamed)

-- A role that is assigned is not removed, though the audit log says that it is: the row of the log is
-- written first, and nothing takes it back.
destroy_role_assigned :
    (env : Env) (pk actor : ℕ) (request : Option Request) (w : World) (role : Role)
    → first (λ r. r.pk == pk) w.db.roles ≡ some role
    → role.is_system ≡ false
    → exists (λ a. a.role == role.pk) w.db.user_roles ≡ true
    → let r = destroy_role env pk actor request w in
      (r.0 ≡ err integrity_error)
      × (r.1.db.roles ≡ w.db.roles)
      × (a : AuditLog) × (r.1.db.audit_logs ≡ w.db.audit_logs ++ a ∷ [])
      × (a.action ≡ cat "role" ".deleted")
unfolding destroy_role perform_destroy delete_role record_audit
destroy_role_assigned env pk actor request w role found free assigned =
    simp (found, free, assigned) (refl, refl, _, refl, refl)
