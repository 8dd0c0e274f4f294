-- ===== src/Authorization/Consistency.antt =====
-- The two questions of `PermissionService` have the same answer.
use django_boilderplate.Models.Authorization.{
  allow, deny, UserRole, RolePermission, OverrideEffect, Permission,
}
use django_boilderplate.Models.Accounts.{can_authenticate_now, User}
use django_boilderplate.World.{Db}
use django_boilderplate.Authorization.{
  is_allow, is_deny, codes_of, valid_roles, decide, role_codes, pairs, grants, is_named,
  permission_codes, named, names_of, or_null, has_permission, same_name, dict_of, joined_names,
  names_of_links, member,
}
use django_boilderplate.Prelude.{
  exists-append, ◌≡◌, ◌∷◌, ◌||◌, ◌==◌, ◌++◌, ◌&&◌, ℕ, true, subst, str_eq, some, select, refl, not,
  none, map, inr, inl, first, false, exists, eq_iff, delete_where, arith, ap, [], String, Option,
  List, Bool-cases, Bool,
}

-- `None` is not a name.
member-or_null :
    (n : String) (xs : List (Option String)) → member (some n) (or_null xs) ≡ member (some n) xs
member-or_null n [] = refl
member-or_null n (x ∷ xs) = refl

member-names :
    (n : String) (pk : ℕ) (permissions : List Permission)
    → member (some n) (map some (names_of permissions pk)) ≡ exists (is_named pk n) permissions
member-names n pk [] = refl
member-names n pk (p ∷ permissions) = ground (arith, member-names n pk permissions)

member-links :
    (n : String) (role : ℕ) (permissions : List Permission) (links : List RolePermission)
    → member (some n) (names_of_links permissions (select (λ l. l.role == role) links))
      ≡ exists (λ l. l.role == role && exists (is_named l.permission n) permissions) links
unfolding names_of_links
member-links n role permissions [] = refl
member-links n role permissions (l ∷ links) = elim (Bool-cases (l.role == role)) [
  | inl e ↦ simp (
    e,
    exists-append (λ y. same_name y (some n)) (map some (names_of permissions l.permission))
        (names_of_links permissions (select (λ l. l.role == role) links)),
    member-names n l.permission permissions,
    member-links n role permissions links,
  )
  | inr e ↦ simp (e, member-links n role permissions links)
]

member-joined :
    (db : Db) (now : ℕ) (n : String) (rows : List UserRole)
    → member (some n) (joined_names db.permissions db.role_permissions rows)
      ≡ exists (grants db now n) rows
unfolding joined_names
member-joined db now n [] = refl
member-joined db now n (a ∷ rows) =
    let names =
      names_of_links db.permissions (select (λ l. l.role == a.role) db.role_permissions) in
    simp (
      exists-append (λ y. same_name y (some n)) (or_null names)
          (joined_names db.permissions db.role_permissions rows),
      member-or_null n names,
      member-links n a.role db.permissions db.role_permissions,
      member-joined db now n rows,
    )

member-all :
    (n : String) (permissions : List Permission)
    → member (some n) (map (λ p. some p.codename) permissions)
      ≡ exists (λ p. str_eq p.codename n) permissions
member-all n [] = refl
member-all n (p ∷ permissions) = ground (arith, member-all n permissions)

-- The names of the pairs are all different, as the constraints on the tables ask.
abbrev pub Distinct : List (String × OverrideEffect) → Type 0
Distinct [] = Unit
Distinct (pair ∷ pairs) = (exists (named pair.0) pairs ≡ false) × Distinct pairs

dict_of-Distinct : (ps : List (String × OverrideEffect)) → Distinct ps → dict_of ps ≡ ps
unfolding dict_of
dict_of-Distinct [] h = refl
dict_of-Distinct (p ∷ ps) h = simp (dict_of-Distinct ps h.1, h.0)

-- What the override of a name says.
abbrev says : (String × OverrideEffect → Bool) → Option (String × OverrideEffect) → Bool
says p none = false
says p (some pair) = p pair

member-absent :
    (n : String) (p : String × OverrideEffect → Bool) (ps : List (String × OverrideEffect))
    → exists (named n) ps ≡ false
    → member (some n) (map (λ pair. some pair.0) (select p ps)) ≡ false
member-absent n p [] h = refl
member-absent n p (x ∷ ps) h = ground (arith, member-absent n p ps)

member-codes :
    (n : String) (p : String × OverrideEffect → Bool) (ps : List (String × OverrideEffect))
    → Distinct ps
    → member (some n) (map (λ pair. some pair.0) (select p ps)) ≡ says p (first (named n) ps)
member-codes n p [] h = refl
member-codes n p (x ∷ ps) h = elim (Bool-cases (named n x)) [
  | inl e ↦
      let same : x.0 ≡ n = ground (arith, eq_iff x.0 n) in
      let others : exists (named n) ps ≡ false =
        subst (λ m. exists (named m) ps ≡ false) same h.0 in
      ground (arith, member-absent n p ps others)
  | inr e ↦ ground (arith, member-codes n p ps h.1)
]

same_name-eq : (x y : Option String) → same_name x y ≡ true → x ≡ y
same_name-eq none none h = refl
same_name-eq none (some _) h = cc
same_name-eq (some _) none h = cc
same_name-eq (some a) (some b) h = ground (arith, eq_iff a b)

member-delete :
    (x : Option String) (s d : List (Option String))
    → member x (delete_where (λ y. member y d) s) ≡ (member x s && not (member x d))
member-delete x [] d = refl
member-delete x (y ∷ s) d = elim (Bool-cases (same_name y x)) [
  | inl e ↦
      let same : member y d ≡ member x d = ap (λ z. member z d) (same_name-eq y x e) in
      ground (arith, member-delete x s d)
  | inr e ↦ ground (arith, member-delete x s d)
]

module _ (db : Db) (now : ℕ) (user : User) (codename : String)
    (distinct : Distinct (pairs db now user))
    (exists_one : (user.is_superuser
        && not (exists (λ p. str_eq p.codename codename) db.permissions))
      ≡ false) where
  member-role_codes :
      member (some codename) (role_codes db now user)
      ≡ (user.is_superuser || exists (grants db now codename) (valid_roles db now user))
  unfolding role_codes
  member-role_codes = elim (Bool-cases user.is_superuser) [
    | inl e ↦ simp (e, member-all codename db.permissions) (ground arith)
    | inr e ↦ simp (e, member-joined db now codename (valid_roles db now user))
  ]

  decide_lem :
      (o : Option (String × OverrideEffect))
      → ((user.is_superuser
            || exists (grants db now codename) (valid_roles db now user)
            || says is_allow o)
          && not (says is_deny o))
        ≡ decide db now user codename o
  unfolding decide
  decide_lem none = ground arith
  decide_lem (some (_, allow)) = ground arith
  decide_lem (some (_, deny)) = ground arith

  member-set :
      member (some codename) (
        delete_where
          (λ x. member x (codes_of db now is_deny (pairs db now user)))
          (role_codes db now user ++ codes_of db now is_allow (pairs db now user)))
      ≡ decide db now user codename (first (named codename) (pairs db now user))
  member-set =
      let roles = role_codes db now user in
      let allowed = codes_of db now is_allow (pairs db now user) in
      simp
        (
          member-delete (some codename) (roles ++ allowed)
              (codes_of db now is_deny (pairs db now user)),
          exists-append (λ y. same_name y (some codename)) roles allowed,
          member-codes codename is_allow (pairs db now user) distinct,
          member-codes codename is_deny (pairs db now user) distinct,
          member-role_codes,
        )
        (decide_lem (first (named codename) (pairs db now user)))

  -- For every user and every name of a permission, where no two overrides of the user name the
  -- same permission and, for a superuser, the permission exists: `has_permission` holds exactly if
  -- the name is in the set of `permission_codes`.
  pub has_permission-permission_codes :
      has_permission db now (some user) codename
      ≡ member (some codename) (permission_codes db now (some user))
  unfolding has_permission permission_codes
  has_permission-permission_codes = elim (Bool-cases (can_authenticate_now now db.bans user)) [
    | inl e ↦ simp (e, dict_of-Distinct (pairs db now user) distinct, member-set)
    | inr e ↦ simp e
  ]
