-- ===== src/Authorization/Registry/Stability.antt =====
-- What is registered keeps its description.
use django_boilderplate.Authorization.Registry.{
  is_entry, Descriptions, conflicts, register_permissions, put,
}
use django_boilderplate.Prelude.{
  true, subst, str_eq, eq_iff, ap₂, ◌≡◌, ◌∷◌, some, inr, inl, first, false, arith, [], String,
  Bool-cases,
}

first-put :
    (entry : String × String) (registry : Descriptions) (name description : String)
    → conflicts entry (first (is_entry entry.0) registry) ≡ false
    → first (is_entry name) registry ≡ some (name, description)
    → first (is_entry name) (put entry registry) ≡ some (name, description)
unfolding put conflicts
first-put entry [] name description fine found = cc
first-put entry (e ∷ rest) name description fine found = elim (Bool-cases (is_entry entry.0 e)) [
  | inl same ↦
      let name_same : e.0 ≡ entry.0 = ground (arith, eq_iff e.0 entry.0) in
      let text_test : str_eq e.1 entry.1 ≡ true = ground arith in
      let text_same : e.1 ≡ entry.1 = ground (arith, eq_iff e.1 entry.1) in
      let kept : e ≡ entry = ap₂ (λ a b. (a, b)) name_same text_same in
      simp same
        (subst (λ x. first (is_entry name) (x ∷ rest) ≡ some (name, description)) kept found)
  | inr other ↦ ground (arith, first-put entry rest name description)
]

-- Whatever is registered, and whether the registration succeeds or stops at a conflict: a
-- permission that the registry held keeps its description.
pub register_permissions_keeps :
    (permissions registry : Descriptions) (name description : String)
    → first (is_entry name) registry ≡ some (name, description)
    → first (is_entry name) (register_permissions permissions registry).1 ≡ some (name, description)
unfolding register_permissions
register_permissions_keeps [] registry name description found = found
register_permissions_keeps (entry ∷ rest) registry name description found =
    elim (Bool-cases (conflicts entry (first (is_entry entry.0) registry))) [
      | inl e ↦ simp e found
      | inr e ↦ simp e (
          register_permissions_keeps rest (put entry registry) name description
            (first-put entry registry name description e found))
    ]
