-- ===== src/Management/Returning.antt =====
-- The command ends without an error where every name that a role asks for is registered.
use django_boilderplate.Management.Undated.{undated}
use django_boilderplate.Management.Links.{put_link_lem}
use django_boilderplate.Management.{put_link, row_of}
use django_boilderplate.Management.OneRole.{role_step_lem, role_step, put_definition, role_pk}
use django_boilderplate.World.{continue, ◌>>◌, Action, ok, World}
use django_boilderplate.Management.{desired, RoleDefinition, sync_roles, link_each}
use django_boilderplate.Management.Permissions.{rows_at}
use django_boilderplate.Models.Authorization.{Permission}
use django_boilderplate.Authorization.Registry.{Descriptions}
use django_boilderplate.Prelude.{
  ◌≡◌, ◌∷◌, ◌∙◌, ◌||◌, ℕ, true, str_eq, some, refl, none, map, inr, inl, exists, eq_refl, arith, ap,
  [], String, Option, List, Bool-cases, Bool, All-map, All,
}

abbrev is_row_of : String → String × ℕ → Bool
is_row_of codename row = str_eq row.0 codename

-- The names of a definition are registered; a role with "*" asks for the registered ones.
abbrev pub Registered : Descriptions → Option (List String) → Type 0
Registered registry none = Unit {0}
Registered registry (some names) = All (λ c. exists (λ e. str_eq e.0 c) registry ≡ true) names

row_of-exists :
    (c : String) (rows : List (String × ℕ))
    → exists (is_row_of c) rows ≡ true
    → (p : ℕ) × (row_of c rows ≡ some p)
unfolding row_of
row_of-exists c [] h = cc
row_of-exists c ((name, pk) ∷ rows) h = elim (Bool-cases (str_eq name c)) [
  | inl e ↦ (pk, simp e)
  | inr e ↦ let (p, there) = row_of-exists c rows (ground (arith, h, e)) in (p, simp (e, there))
]

exists-rows_at :
    (c : String) (registry : Descriptions) (xs : List Permission)
    → exists (is_row_of c) (rows_at registry xs) ≡ exists (λ e. str_eq e.0 c) registry
exists-rows_at c [] xs = refl
exists-rows_at c (d ∷ ds) xs = ap (λ b. str_eq d.0 c || b) (exists-rows_at c ds xs)

-- Every row is found by its own name.
own_names :
    (rows all : List (String × ℕ))
    → ((c : String) → exists (is_row_of c) rows ≡ true → exists (is_row_of c) all ≡ true)
    → All (λ c. exists (is_row_of c) all ≡ true) (map (λ entry. entry.0) rows)
own_names [] all within = tt
own_names (r ∷ rows) all within =
    (within r.0 (simp (eq_refl r.0)), own_names rows all (λ c h. within c (ground (arith, h))))

module _ (registry : Descriptions) (xs : List Permission) where
  abbrev rows : List (String × ℕ)
  rows = rows_at registry xs

  desired-known :
      (wanted : Option (List String))
      → Registered registry wanted
      → All (λ c. (p : ℕ) × (row_of c rows ≡ some p)) (desired rows wanted)
  desired-known none known =
      All-map (λ c h. row_of-exists c rows h) (desired rows none) (own_names rows rows (λ c h. h))
  desired-known (some names) known =
      All-map (λ c h. row_of-exists c rows (exists-rows_at c registry xs ∙ h)) names known

  link_each-ok :
      (role : ℕ) (names : List String) (w : World)
      → All (λ c. (p : ℕ) × (row_of c rows ≡ some p)) names
      → (link_each role rows names w).0 ≡ ok tt
  unfolding link_each
  link_each-ok role [] w known = refl
  link_each-ok role (c ∷ names) w known =
      let (p, row) = known.0 in
      simp (row, (put_link_lem role p w).0) (link_each-ok role names (put_link role p w).1 known.1)

  pub sync_roles-ok :
      (ds : List RoleDefinition) (w : World)
      → All (λ d. Registered registry d.permissions) ds
      → (sync_roles rows ds w).0 ≡ ok tt
  unfolding sync_roles
  sync_roles-ok [] w known = refl
  sync_roles-ok (d ∷ ds) w known =
      let k = role_pk d (put_definition d w.next_pk (undated w.db).roles) in
      let w1 = (role_step d w).1 in
      let names = desired rows d.permissions in
      let go = sync_roles rows ds in
      let rest : ℕ → Action (Unit {0}) = λ role. link_each role rows names >> go in
      ap (λ r. (continue r rest w1).0) (role_step_lem d w).0
      ∙ ap (λ r. (continue r (λ _. go) (link_each k rows names w1).1).0)
          (link_each-ok k names w1 (desired-known d.permissions known.0))
      ∙ sync_roles-ok ds (link_each k rows names w1).1 known.1
