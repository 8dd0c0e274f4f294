-- ===== src/Management/Links.antt =====
-- The inner loop of the command: the permissions of one role.
use django_boilderplate.Management.{row_of}
use django_boilderplate.World.{continue, or_raise, key_error, or_raise_ok, Action, ◌>>◌, ◌>>=◌}
use django_boilderplate.Management.{is_link, put_link, link_each}
use django_boilderplate.World.{ok, Db, World}
use django_boilderplate.Models.Authorization.{RolePermission}
use django_boilderplate.Prelude.{
  ◌||◌, false, arith, ap₂, ◌≡◌, ◌∷◌, ◌∙◌, ℕ, true, sym, subst, some, refl, inr, inl, exists-append,
  exists, ap, [], String, List, Bool-cases, All,
}

abbrev pub set_links : List RolePermission → Db → Db
set_links links db = record db { role_permissions = links }

-- The role has the permission that the name stands for.
abbrev pub Linked : ℕ → List (String × ℕ) → List RolePermission → String → Type 0
Linked role rows links codename =
    (p : ℕ) × (row_of codename rows ≡ some p) × (exists (is_link role p) links ≡ true)

pub put_link_lem :
    (role p : ℕ) (w : World)
    → ((put_link role p w).0 ≡ ok tt)
      × ((put_link role p w).1.db ≡ set_links (put_link role p w).1.db.role_permissions w.db)
      × (exists (is_link role p) (put_link role p w).1.db.role_permissions ≡ true)
put_link_lem role p w = elim (Bool-cases (exists (is_link role p) w.db.role_permissions)) [
  | inl e ↦ simp e (refl, refl, refl)
  | inr e ↦
      let link : RolePermission = record { role = role; permission = p } in
      let own_link : is_link role p link ≡ true = ground arith in
      simp e (
        refl,
        refl,
        exists-append (is_link role p) w.db.role_permissions (link ∷ [])
            ∙ ap₂ (λ b c. b || (c || false)) e own_link,
      )
]

put_link-keeps :
    (role p a b : ℕ) (w : World)
    → exists (is_link a b) w.db.role_permissions ≡ true
    → exists (is_link a b) (put_link role p w).1.db.role_permissions ≡ true
put_link-keeps role p a b w h = elim (Bool-cases (exists (is_link role p) w.db.role_permissions)) [
  | inl e ↦ simp e h
  | inr e ↦
      let link : RolePermission = record { role = role; permission = p } in
      simp e (
        exists-append (is_link a b) w.db.role_permissions (link ∷ [])
        ∙ ap (λ x. x || (is_link a b link || false)) h)
]

module _ (role : ℕ) (rows : List (String × ℕ)) where
  abbrev linked : List String → World → World
  linked names w = (link_each role rows names w).1

  -- The parts of a round that goes on.
  link_each-cons :
      (codename : String) (names : List String) (w : World)
      → (link_each role rows (codename ∷ names) w).0 ≡ ok tt
      → (p : ℕ) × (row_of codename rows ≡ some p)
        × (link_each role rows (codename ∷ names) w
            ≡ link_each role rows names (put_link role p w).1)
  unfolding link_each
  link_each-cons codename names w done =
      let rest : ℕ → Action (Unit {0}) = λ p. put_link role p >> link_each role rows names in
      let (p, row, _) = or_raise_ok rest tt (row_of codename rows) key_error w done in
      (
        p,
        row,
        ap (λ o. (or_raise o key_error >>= rest) w) row
            ∙ ap (λ r. continue r (λ _. link_each role rows names) (put_link role p w).1)
                (put_link_lem role p w).0,
      )

  pub link_each-keeps :
      (names : List String) (w : World) (a b : ℕ)
      → (link_each role rows names w).0 ≡ ok tt
      → exists (is_link a b) w.db.role_permissions ≡ true
      → exists (is_link a b) (linked names w).db.role_permissions ≡ true
  unfolding link_each
  link_each-keeps [] w a b done h = h
  link_each-keeps (c ∷ names) w a b done h =
      let (p, _, same) = link_each-cons c names w done in
      let w1 = (put_link role p w).1 in
      ap (λ r. exists (is_link a b) r.1.db.role_permissions) same
      ∙ link_each-keeps names w1 a b (sym (ap (λ r. r.0) same) ∙ done)
          (put_link-keeps role p a b w h)

  pub link_each_lem :
      (names : List String) (w : World)
      → (link_each role rows names w).0 ≡ ok tt
      → ((linked names w).db ≡ set_links (linked names w).db.role_permissions w.db)
        × All (Linked role rows (linked names w).db.role_permissions) names
  unfolding link_each
  link_each_lem [] w done = (refl, tt)
  link_each_lem (c ∷ names) w done =
      let (p, row, same) = link_each-cons c names w done in
      let w1 = (put_link role p w).1 in
      let (_, put_same, own) = put_link_lem role p w in
      let rest = sym (ap (λ r. r.0) same) ∙ done in
      let (frame, all) = link_each_lem names w1 rest in
      let v = linked names w1 in
      subst
        (λ u.
          (u.db ≡ set_links u.db.role_permissions w.db)
          × All (Linked role rows u.db.role_permissions) (c ∷ names))
        (sym (ap (λ r. r.1) same))
        (
          frame ∙ ap (set_links v.db.role_permissions) put_same,
          ((p, row, link_each-keeps names w1 role p rest own), all),
        )

  -- Where the role has every permission, the loop changes nothing.
  pub link_each_settled :
      (names : List String) (w : World)
      → All (Linked role rows w.db.role_permissions) names
      → link_each role rows names w ≡ (ok tt, w)
  unfolding link_each
  link_each_settled [] w all = refl
  link_each_settled (c ∷ names) w all =
      let (p, row, there) = all.0 in simp (row, there) (link_each_settled names w all.1)
