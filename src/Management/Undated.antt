-- ===== src/Management/Undated.antt =====
-- The rows of permissions and roles without the instant of their last change.
use django_boilderplate.Models.Authorization.{Role, Permission}
use django_boilderplate.Prelude.{
  Option, ◌≡◌, ◌∷◌, ◌++◌, update_where, some, refl, none, map, inr, inl, first, ap, [], List,
  Bool-cases, Bool,
}
use django_boilderplate.World.{Db}

abbrev pub undated_permission : Permission → Permission
undated_permission p = record p { updated_at = 0 }

abbrev pub undated_role : Role → Role
undated_role r = record r { updated_at = 0 }

abbrev pub undated : Db → Db
undated db = record db {
  permissions = map undated_permission db.permissions;
  roles = map undated_role db.roles;
}

module _ {A : Type 0} (u : A → A) where
  pub map-update_where :
      (p : A → Bool) (f g : A → A)
      → ((a : A) → p (u a) ≡ p a)
      → ((a : A) → u (g a) ≡ f (u a))
      → (xs : List A) → map u (update_where p g xs) ≡ update_where p f (map u xs)
  map-update_where p f g same commutes [] = refl
  map-update_where p f g same commutes (x ∷ xs) =
      let rest = map-update_where p f g same commutes xs in
      elim (Bool-cases (p x)) [
        | inl e ↦ simp (same x, e, commutes x, rest)
        | inr e ↦ simp (same x, e, rest)
      ]

  pub map_append : (xs : List A) (a : A) → map u (xs ++ a ∷ []) ≡ map u xs ++ u a ∷ []
  map_append [] a = refl
  map_append (x ∷ xs) a = ap (λ ys. u x ∷ ys) (map_append xs a)

  abbrev pub under : Option A → Option A
  under none = none
  under (some a) = some (u a)

  pub first-map :
      (p : A → Bool)
      → ((a : A) → p (u a) ≡ p a)
      → (xs : List A) → first p (map u xs) ≡ under (first p xs)
  first-map p same [] = refl
  first-map p same (x ∷ xs) =
      let rest = first-map p same xs in
      elim (Bool-cases (p x)) [ inl e ↦ simp (same x, e) | inr e ↦ simp (same x, e, rest) ]
