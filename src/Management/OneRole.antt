-- ===== src/Management/OneRole.antt =====
-- One role of the command `bootstrap`: the row that it creates or updates.
use django_boilderplate.Management.Undated.{
  undated, undated_role, under, first-map, map_append, map-update_where,
}
use django_boilderplate.Management.Upsert.{Apart}
use django_boilderplate.World.{ok, World, Action}
use django_boilderplate.Management.Upsert.{
  pk_of_row, pk_at-upsert_self, pk_at, IsSynced, upsert, IsTable,
}
use django_boilderplate.Models.Authorization.{Role}
use django_boilderplate.Management.{set_roles, define_role, has_slug, put_role, RoleDefinition}
use django_boilderplate.Prelude.{
  ◌≡◌, ◌∷◌, ◌∙◌, ◌++◌, ℕ, update_where, true, sym, str_eq, refl, is_some-first, is_some, inr, inl,
  if◌then◌else◌, first, false, exists, eq_refl, eq_iff, arith, ap, [], Option-cases, List, Bool,
  All,
}

abbrev pub has_role : RoleDefinition → Role → Bool
has_role d = has_slug d.slug

abbrev pub make_role : RoleDefinition → ℕ → Role
make_role d n = record {
  pk = n;
  name = d.name;
  slug = d.slug;
  description = d.description;
  priority = d.priority;
  is_system = true;
  updated_at = 0;
}

-- the columns of a definition, without the instant
abbrev pub write_role : RoleDefinition → Role → Role
write_role d = define_role d 0

abbrev pub key_of_role : Role → ℕ
key_of_role r = r.pk

pub is_role-IsTable : IsTable has_role write_role make_role key_of_role
is_role-IsTable = record {
  keeps = λ d e a. refl;
  keeps_pk = λ d a. refl;
  again = λ d a. refl;
  makes = λ d n. eq_refl d.slug;
  made = λ d n. refl;
  made_pk = λ d n. refl;
}

abbrev pub put_definition : RoleDefinition → ℕ → List Role → List Role
put_definition = upsert has_role write_role make_role key_of_role

abbrev pub RoleSynced : RoleDefinition → List Role → Type 0
RoleSynced = IsSynced has_role write_role make_role key_of_role

abbrev pub role_pk : RoleDefinition → List Role → ℕ
role_pk = pk_at has_role write_role make_role key_of_role

-- The definitions are of different roles.
abbrev pub DistinctRoles : List RoleDefinition → Type 0
DistinctRoles [] = Unit {0}
DistinctRoles (d ∷ ds) = All (λ e. str_eq d.slug e.slug ≡ false) ds × DistinctRoles ds

pub role-Apart :
    (d e : RoleDefinition)
    → str_eq d.slug e.slug ≡ false
    → Apart has_role write_role make_role key_of_role e d
role-Apart d e different r mine =
    ground (arith, eq_iff r.slug e.slug, eq_iff r.slug d.slug, eq_iff d.slug e.slug)

abbrev pub role_step : RoleDefinition → Action ℕ
role_step d w = put_role d (first (has_slug d.slug) w.db.roles) w

pub role_step_lem :
    (d : RoleDefinition) (w : World)
    → ((role_step d w).0 ≡ ok (role_pk d (put_definition d w.next_pk (undated w.db).roles)))
      × (undated (role_step d w).1.db
          ≡ set_roles (put_definition d w.next_pk (undated w.db).roles) (undated w.db))
unfolding put_role
role_step_lem d w =
    let xs = (undated w.db).roles in
    let n = w.next_pk in
    let self = pk_at-upsert_self has_role write_role make_role key_of_role is_role-IsTable d n xs in
    let updated_ = update_where (has_role d) (write_role d) xs in
    let made_ = xs ++ make_role d n ∷ [] in
    let seen : first (has_role d) xs ≡ under undated_role (first (has_role d) w.db.roles) =
      first-map undated_role (has_role d) (λ r. refl) w.db.roles in
    elim (Option-cases (first (has_slug d.slug) w.db.roles)) [
      | inl missing ↦
          let none_there : exists (has_role d) xs ≡ false =
            sym (is_some-first (has_role d) xs)
            ∙ ap is_some (seen ∙ ap (under undated_role) missing) in
          (
            ap (λ o. (put_role d o w).0) missing
                ∙ ap ok (sym (self ∙ ap (λ b. if b then role_pk d xs else n) none_there)),
            ap (λ o. undated (put_role d o w).1.db) missing
                ∙ ap (λ rs. set_roles rs (undated w.db)) (map_append undated_role w.db.roles _)
                ∙ ap (λ b. set_roles (if b then updated_ else made_) (undated w.db))
                    (sym none_there),
          )
      | inr (r, found) ↦
          let there : exists (has_role d) xs ≡ true =
            sym (is_some-first (has_role d) xs)
            ∙ ap is_some (seen ∙ ap (under undated_role) found) in
          (
            ap (λ o. (put_role d o w).0) found
                ∙ ap ok (
                    sym (
                      self
                      ∙ ap (λ b. if b then role_pk d xs else n) there
                      ∙ ap (pk_of_row key_of_role) (seen ∙ ap (under undated_role) found))),
            ap (λ o. undated (put_role d o w).1.db) found
                ∙ ap (λ rs. set_roles rs (undated w.db))
                    (map-update_where undated_role (has_role d) (write_role d) (define_role d w.now)
                      (λ a. refl) (λ a. refl) w.db.roles)
                ∙ ap (λ b. set_roles (if b then updated_ else made_) (undated w.db)) (sym there),
          )
    ]
