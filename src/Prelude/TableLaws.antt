-- ===== src/Prelude/TableLaws.antt =====
-- Laws of the table operations.
use Prim.Native.Nat.{ℕ, zero, suc, ◌≤◌, ◌+◌}
use mathlib.Core.Path.{◌∙◌, ap, ap₂, ◌≡◌, refl}
use mathlib.Core.Logic.{inl, inr}
use mathlib.Core.Bool.{Bool, true, false, ◌||◌, ◌&&◌, not, false≢true}
use mathlib.Core.Option.{Option, none, some}
use mathlib.Core.List.{List, [], ◌∷◌, ◌++◌, map}
use native.Mathlib.Omega.{arith}
use django_boilderplate.Prelude.Tests.{ltb, if◌then◌else◌, is_some, Bool-cases}
use django_boilderplate.Prelude.Table.{
  delete_where, select, All, length, first, exists, update_where, take,
}

module _ {ℓ} {A : Type ℓ} where
  -- The row that a query returns passes its test.
  pub first-passes : (p : A → Bool) (xs : List A) {a : A} → first p xs ≡ some a → p a ≡ true
  first-passes p [] h = cc
  first-passes p (x ∷ xs) {a = a} h = ground (arith, first-passes p xs {a = a})

  pub is_some-first : (p : A → Bool) (xs : List A) → is_some (first p xs) ≡ exists p xs
  is_some-first p [] = refl
  is_some-first p (x ∷ xs) = ground (arith, is_some-first p xs)

  pub first-none : (p : A → Bool) (xs : List A) → exists p xs ≡ false → first p xs ≡ none
  first-none p [] h = refl
  first-none p (x ∷ xs) h = ground (arith, first-none p xs)

  pub length-take : (n : ℕ) (xs : List A) → length (take n xs) ≤ n
  length-take zero xs = omega arith
  length-take (suc n) [] = omega arith
  length-take (suc n) (x ∷ xs) = omega (arith, length-take n xs)

  pub exists-take :
      (p : A → Bool) (n : ℕ) (xs : List A) → exists p (take n xs) ≡ true → exists p xs ≡ true
  exists-take p zero xs h = absurd (false≢true h)
  exists-take p (suc n) [] h = h
  exists-take p (suc n) (x ∷ xs) h = ground (arith, exists-take p n xs)

  pub take_all : (n : ℕ) (xs : List A) → length xs ≤ n → take n xs ≡ xs
  take_all zero [] h = refl
  take_all zero (x ∷ xs) h = absurd (omega (arith, h))
  take_all (suc n) [] h = refl
  take_all (suc n) (x ∷ xs) h = ap (λ ys. x ∷ ys) (take_all n xs (omega (arith, h)))

  pub length-append : (xs ys : List A) → length (xs ++ ys) ≡ length xs + length ys
  length-append [] ys = omega arith
  length-append (x ∷ xs) ys = omega (arith, length-append xs ys)

  abbrev pub updated : (A → Bool) → (A → A) → Option A → Option A
  updated p f none = none
  updated p f (some a) = some (if p a then f a else a)

  -- An update that keeps the test of a query keeps which row the query finds.
  pub first-update_where :
      (q p : A → Bool) (f : A → A) (xs : List A)
      → ((a : A) → q (f a) ≡ q a)
      → first q (update_where p f xs) ≡ updated p f (first q xs)
  first-update_where q p f [] h = refl
  first-update_where q p f (x ∷ xs) h = ground (arith, h x, first-update_where q p f xs h)

  pub first-append_some :
      (p : A → Bool) (xs ys : List A) (a : A) → first p xs ≡ some a → first p (xs ++ ys) ≡ some a
  first-append_some p [] ys a h = cc
  first-append_some p (x ∷ xs) ys a h = ground (arith, first-append_some p xs ys a)

  pub first-append_none :
      (p : A → Bool) (xs ys : List A) → first p xs ≡ none → first p (xs ++ ys) ≡ first p ys
  first-append_none p [] ys h = refl
  first-append_none p (x ∷ xs) ys h = ground (arith, first-append_none p xs ys)

  pub exists-append :
      (p : A → Bool) (xs ys : List A) → exists p (xs ++ ys) ≡ (exists p xs || exists p ys)
  exists-append p [] ys = refl
  exists-append p (x ∷ xs) ys = ground (arith, exists-append p xs ys)

  -- An update of rows that are not there changes nothing.
  pub update_where_unmatched :
      (p : A → Bool) (f : A → A) (xs : List A) → exists p xs ≡ false → update_where p f xs ≡ xs
  update_where_unmatched p f [] h = refl
  update_where_unmatched p f (x ∷ xs) h = ground (arith, update_where_unmatched p f xs)

  pub exists-first :
      (key good : A → Bool) (xs : List A) (a : A)
      → first key xs ≡ some a
      → good a ≡ true
      → exists (λ x. good x && key x) xs ≡ true
  exists-first key good [] a h fine = absurd (ground (arith, h))
  exists-first key good (x ∷ xs) a h fine = ground (arith, h, fine, exists-first key good xs a)

  pub exists-select :
      (p q : A → Bool) (xs : List A) → exists p (select q xs) ≡ exists (λ x. q x && p x) xs
  exists-select p q [] = refl
  exists-select p q (x ∷ xs) = ground (arith, exists-select p q xs)

  pub exists_never : (p : A → Bool) (xs : List A) → ((a : A) → p a ≡ false) → exists p xs ≡ false
  exists_never p [] h = refl
  exists_never p (x ∷ xs) h = ground (arith, h x, exists_never p xs h)

  -- A row that replaces the one that a query finds is found in its place.
  pub first-replaced :
      (q p : A → Bool) (new : A) (xs : List A) (a : A)
      → first q xs ≡ some a
      → p a ≡ true
      → q new ≡ true
      → first q (update_where p (λ _. new) xs) ≡ some new
  first-replaced q p new [] a h pa qn = cc
  first-replaced q p new (x ∷ xs) a h pa qn = ground (arith, h, pa, qn, first-replaced q p new xs a)

  pub first_narrow :
      (p q : A → Bool) (xs : List A) (a : A)
      → first p xs ≡ some a
      → q a ≡ true
      → first (λ x. p x && q x) xs ≡ some a
  first_narrow p q [] a h fine = cc
  first_narrow p q (x ∷ xs) a h fine = ground (arith, h, fine, first_narrow p q xs a)

  pub exists_cong :
      (p q : A → Bool) (xs : List A) → ((a : A) → p a ≡ q a) → exists p xs ≡ exists q xs
  exists_cong p q [] h = refl
  exists_cong p q (x ∷ xs) h = ap₂ ◌||◌ (h x) (exists_cong p q xs h)

  -- A deletion that spares the rows of a query leaves its answer as it is.
  pub exists-delete_where :
      (p q : A → Bool) (xs : List A)
      → ((a : A) → q a ≡ true → p a ≡ false)
      → exists p (delete_where q xs) ≡ exists p xs
  exists-delete_where p q xs h =
      exists-select p (λ x. not (q x)) xs
      ∙ exists_cong (λ x. not (q x) && p x) p xs (λ a. ground (arith, h a))

  pub exists_updated :
      (q r p : A → Bool) (f : A → A) (xs : List A)
      → ((a : A) → q (if p a then f a else a) ≡ r a)
      → exists q (update_where p f xs) ≡ exists r xs
  exists_updated q r p f [] h = refl
  exists_updated q r p f (x ∷ xs) h = ap₂ ◌||◌ (h x) (exists_updated q r p f xs h)

  pub exists-nonempty : (q : A → Bool) (xs : List A) → ltb 0 (length (select q xs)) ≡ exists q xs
  exists-nonempty q [] = refl
  exists-nonempty q (x ∷ xs) = elim (Bool-cases (q x)) [
    | inl e ↦ simp e (ground arith)
    | inr e ↦ simp e (exists-nonempty q xs)
  ]

  pub exists_weaken :
      (p q : A → Bool) (xs : List A)
      → ((a : A) → p a ≡ true → q a ≡ true)
      → exists q xs ≡ false
      → exists p xs ≡ false
  exists_weaken p q [] h none_q = refl
  exists_weaken p q (x ∷ xs) h none_q = ground (arith, h x, exists_weaken p q xs h)

  pub exists-update_where :
      (q p : A → Bool) (f : A → A) (xs : List A)
      → ((a : A) → q (f a) ≡ q a)
      → exists q (update_where p f xs) ≡ exists q xs
  exists-update_where q p f [] h = refl
  exists-update_where q p f (x ∷ xs) h = ground (arith, h x, exists-update_where q p f xs h)

  pub first-exists :
      (p : A → Bool) (xs : List A) → exists p xs ≡ true → (a : A) × (first p xs ≡ some a)
  first-exists p [] h = absurd (false≢true h)
  first-exists p (x ∷ xs) h = elim (Bool-cases (p x)) [
    | inl e ↦ (x, rw e)
    | inr e ↦ rw e (first-exists p xs (ground arith))
  ]

  pub All-map {κ μ} :
      {P : A → Type κ} {Q : A → Type μ}
      → ((a : A) → P a → Q a)
      → (xs : List A) → All P xs
      → All Q xs
  All-map f [] h = tt
  All-map f (x ∷ xs) h = (f x h.0, All-map f xs h.1)

module _ {ℓ κ} {A : Type ℓ} {B : Type κ} where
  pub exists-map :
      (p : B → Bool) (f : A → B) (xs : List A) → exists p (map f xs) ≡ exists (λ x. p (f x)) xs
  exists-map p f [] = refl
  exists-map p f (x ∷ xs) = ap (λ b. p (f x) || b) (exists-map p f xs)
