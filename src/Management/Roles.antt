-- ===== src/Management/Roles.antt =====
-- The second loop of the command: the system roles and the permissions that they have.
use django_boilderplate.Management.Upsert.{upsert_synced}
use django_boilderplate.Management.OneRole.{write_role}
use django_boilderplate.Management.Undated.{undated}
use django_boilderplate.Management.OneRole.{
  role-Apart, is_role-IsTable, key_of_role, role_step_lem, make_role, role_step, has_role,
  DistinctRoles, put_definition, role_pk, RoleSynced,
}
use django_boilderplate.World.{◌>>◌}
use django_boilderplate.Management.Links.{
  link_each-keeps, link_each_lem, link_each_settled, Linked, set_links,
}
use django_boilderplate.Management.Upsert.{IsSynced-upsert_other, IsSynced-upsert, pk_at-upsert}
use django_boilderplate.World.{bind-ok, continue, ◌>>◌, ok, World, Action}
use django_boilderplate.Models.Authorization.{RolePermission, Role}
use django_boilderplate.Management.{
  is_link, desired, sync_roles, link_each, set_roles, RoleDefinition,
}
use django_boilderplate.Prelude.{
  subst, All-map, String, ◌≡◌, ◌∷◌, ◌∙◌, ℕ, true, sym, str_eq, refl, false, exists, ap, [], List,
  All,
}

module _ (rows : List (String × ℕ)) where
  -- What the loop sees to for one role.
  abbrev pub RoleDone : List Role → List RolePermission → RoleDefinition → Type 0
  RoleDone roles links d =
      RoleSynced d roles × All (Linked (role_pk d roles) rows links) (desired rows d.permissions)

  abbrev put_one : RoleDefinition → World → World
  put_one d w =
      (link_each (role_pk d (put_definition d w.next_pk (undated w.db).roles)) rows
        (desired rows d.permissions) (role_step d w).1).1

  sync_roles-cons :
      (d : RoleDefinition) (ds : List RoleDefinition) (w : World)
      → (sync_roles rows (d ∷ ds) w).0 ≡ ok tt
      → ((link_each
            (role_pk d (put_definition d w.next_pk (undated w.db).roles))
            rows
            (desired rows d.permissions)
            (role_step d w).1).0
          ≡ ok tt)
        × (sync_roles rows (d ∷ ds) w ≡ sync_roles rows ds (put_one d w))
  unfolding sync_roles
  sync_roles-cons d ds w done =
      let k = role_pk d (put_definition d w.next_pk (undated w.db).roles) in
      let w1 = (role_step d w).1 in
      let link : ℕ → Action (Unit {0}) = λ role. link_each role rows (desired rows d.permissions) in
      let go = sync_roles rows ds in
      let rest : ℕ → Action (Unit {0}) = λ role. link role >> go in
      let stepped : sync_roles rows (d ∷ ds) w ≡ rest k w1 =
        ap (λ r. continue r rest w1) (role_step_lem d w).0 in
      let (u, linked_, _) = bind-ok (λ _. go) tt (link k) w1 (sym (ap (λ r. r.0) stepped) ∙ done) in
      (linked_, stepped ∙ ap (λ r. continue r (λ _. go) (put_one d w)) linked_)

  -- The loop writes roles and links only.
  abbrev OnlyRoles : World → World → Type 0
  OnlyRoles v w =
      undated v.db ≡ set_links v.db.role_permissions (set_roles (undated v.db).roles (undated w.db))

  put_one_lem :
      (d : RoleDefinition) (w : World)
      → (link_each
          (role_pk d (put_definition d w.next_pk (undated w.db).roles))
          rows
          (desired rows d.permissions)
          (role_step d w).1).0
        ≡ ok tt
      → ((undated (put_one d w).db).roles ≡ put_definition d w.next_pk (undated w.db).roles)
        × RoleDone (undated (put_one d w).db).roles (put_one d w).db.role_permissions d
        × OnlyRoles (put_one d w) w
  put_one_lem d w done =
      let xs = put_definition d w.next_pk (undated w.db).roles in
      let names = desired rows d.permissions in
      let v = put_one d w in
      let (frame, all) = link_each_lem (role_pk d xs) rows names (role_step d w).1 done in
      let links = v.db.role_permissions in
      let whole : undated v.db ≡ set_links links (set_roles xs (undated w.db)) =
        ap undated frame ∙ ap (set_links links) (role_step_lem d w).1 in
      let roles_same : (undated v.db).roles ≡ xs = ap (λ db. db.roles) whole in
      let own =
        IsSynced-upsert has_role write_role make_role key_of_role is_role-IsTable d w.next_pk
          (undated w.db).roles in
      (
        roles_same,
        (
          subst (RoleSynced d) (sym roles_same) own,
          subst (λ rs. All (Linked (role_pk d rs) rows links) names) (sym roles_same) all,
        ),
        whole ∙ ap (λ rs. set_links links (set_roles rs (undated w.db))) (sym roles_same),
      )

  -- Every link that was there is there.
  abbrev Grown : List RolePermission → List RolePermission → Type 0
  Grown ls ls' = (a b : ℕ) → exists (is_link a b) ls ≡ true → exists (is_link a b) ls' ≡ true

  Grown-put_one :
      (d : RoleDefinition) (w : World)
      → (link_each
          (role_pk d (put_definition d w.next_pk (undated w.db).roles))
          rows
          (desired rows d.permissions)
          (role_step d w).1).0
        ≡ ok tt
      → Grown w.db.role_permissions (put_one d w).db.role_permissions
  Grown-put_one d w done a b there =
      link_each-keeps (role_pk d (put_definition d w.next_pk (undated w.db).roles)) rows
        (desired rows d.permissions) (role_step d w).1 a b done
        (ap (λ db. exists (is_link a b) db.role_permissions) (role_step_lem d w).1 ∙ there)

  -- What is seen to for a role stays so while the loop goes on with others.
  RoleDone-put :
      (d e : RoleDefinition) (n : ℕ) (xs : List Role) (ls ls' : List RolePermission)
      → str_eq d.slug e.slug ≡ false
      → Grown ls ls'
      → RoleDone xs ls d
      → RoleDone (put_definition e n xs) ls' d
  RoleDone-put d e n xs ls ls' different grown done =
      let (same, _) =
        pk_at-upsert has_role write_role make_role key_of_role is_role-IsTable e d n xs done.0.1 in
      (
        IsSynced-upsert_other has_role write_role make_role key_of_role is_role-IsTable e d n xs
            (role-Apart d e different) done.0,
        subst (λ k. All (Linked k rows ls') (desired rows d.permissions)) (sym same)
            (All-map (λ c linked_. (linked_.0, linked_.1, grown _ _ linked_.2))
              (desired rows d.permissions) done.1),
      )

  sync_roles-keeps :
      (d : RoleDefinition) (ds : List RoleDefinition) (w : World)
      → All (λ e. str_eq d.slug e.slug ≡ false) ds
      → (sync_roles rows ds w).0 ≡ ok tt
      → RoleDone (undated w.db).roles w.db.role_permissions d
      → RoleDone
          (undated (sync_roles rows ds w).1.db).roles
          (sync_roles rows ds w).1.db.role_permissions
          d
  unfolding sync_roles
  sync_roles-keeps d [] w different done holds = holds
  sync_roles-keeps d (e ∷ ds) w different done holds =
      let (linked_, same) = sync_roles-cons e ds w done in
      let v = put_one e w in
      let (roles_same, _, _) = put_one_lem e w linked_ in
      let at_v : RoleDone (undated v.db).roles v.db.role_permissions d =
        subst (λ rs. RoleDone rs v.db.role_permissions d) (sym roles_same)
          (RoleDone-put d e w.next_pk (undated w.db).roles w.db.role_permissions
            v.db.role_permissions different.0 (Grown-put_one e w linked_) holds) in
      subst (λ u. RoleDone (undated u.db).roles u.db.role_permissions d) (sym (ap (λ r. r.1) same))
        (sync_roles-keeps d ds v different.1 (sym (ap (λ r. r.0) same) ∙ done) at_v)

  pub sync_roles_lem :
      (ds : List RoleDefinition) (w : World)
      → DistinctRoles ds
      → (sync_roles rows ds w).0 ≡ ok tt
      → All
          (RoleDone
            (undated (sync_roles rows ds w).1.db).roles
            (sync_roles rows ds w).1.db.role_permissions)
          ds
        × OnlyRoles (sync_roles rows ds w).1 w
  unfolding sync_roles
  sync_roles_lem [] w distinct done = (tt, refl)
  sync_roles_lem (d ∷ ds) w distinct done =
      let (linked_, same) = sync_roles-cons d ds w done in
      let v = put_one d w in
      let (_, own, frame) = put_one_lem d w linked_ in
      let rest = sym (ap (λ r. r.0) same) ∙ done in
      let (all, frames) = sync_roles_lem ds v distinct.1 rest in
      let u = (sync_roles rows ds v).1 in
      subst
        (λ x. All (RoleDone (undated x.db).roles x.db.role_permissions) (d ∷ ds) × OnlyRoles x w)
        (sym (ap (λ r. r.1) same))
        (
          (sync_roles-keeps d ds v distinct.0 rest own, all),
          frames
              ∙ ap (λ db. set_links u.db.role_permissions (set_roles (undated u.db).roles db))
                  frame,
        )

  pub sync_roles_settled :
      (ds : List RoleDefinition) (w : World)
      → All (RoleDone (undated w.db).roles w.db.role_permissions) ds
      → ((sync_roles rows ds w).0 ≡ ok tt) × (undated (sync_roles rows ds w).1.db ≡ undated w.db)
  unfolding sync_roles
  sync_roles_settled [] w settled = (refl, refl)
  sync_roles_settled (d ∷ ds) w settled =
      let xs = (undated w.db).roles in
      let k = role_pk d (put_definition d w.next_pk xs) in
      let link : ℕ → Action (Unit {0}) = λ role. link_each role rows (desired rows d.permissions) in
      let go = sync_roles rows ds in
      let rest : ℕ → Action (Unit {0}) = λ role. link role >> go in
      let w1 = (role_step d w).1 in
      let put : put_definition d w.next_pk xs ≡ xs =
        upsert_synced has_role write_role make_role key_of_role is_role-IsTable d w.next_pk xs
          settled.0.0 in
      let same : undated w1.db ≡ undated w.db =
        (role_step_lem d w).1 ∙ ap (λ ys. set_roles ys (undated w.db)) put in
      let links : w1.db.role_permissions ≡ w.db.role_permissions =
        ap (λ db. db.role_permissions) same in
      let linked_ : link k w1 ≡ (ok tt, w1) =
        ap (λ ys. link (role_pk d ys) w1) put
        ∙ link_each_settled (role_pk d xs) rows (desired rows d.permissions) w1 (
            subst (λ ls. All (Linked (role_pk d xs) rows ls) (desired rows d.permissions))
              (sym links) settled.0.1) in
      let (returned, kept) =
        sync_roles_settled ds w1
          (subst (λ db. All (RoleDone db.roles db.role_permissions) ds) (sym same) settled.1) in
      let whole : sync_roles rows (d ∷ ds) w ≡ go w1 =
        ap (λ r. continue r rest w1) (role_step_lem d w).0
        ∙ ap (λ x. continue x.0 (λ _. go) x.1) linked_ in
      (ap (λ x. x.0) whole ∙ returned, ap (λ x. undated x.1.db) whole ∙ kept ∙ same)
