-- ===== src/Authentication/Accounts/Identity/Username.antt =====
-- The refusals of `change_username`.
use django_boilderplate.Authentication.Accounts.{
  is_email_of_other, validation_error, is_username_of_other, is_user,
}
use django_boilderplate.World.{err, World}
use django_boilderplate.Authentication.Accounts.Identity.{change_username}
use django_boilderplate.Common.Network.{Request}
use django_boilderplate.Env.{Env}
use django_boilderplate.Models.Accounts.{User}
use django_boilderplate.Prelude.{
  refl, ◌≡◌, ◌∷◌, ◌||◌, ◌&&◌, true, some, inr, inl, first, exists, arith, [], String, Option, List,
  Bool-cases, Bool,
}

exists-or :
    (p q : User → Bool) (users : List User)
    → exists q users ≡ true
    → exists (λ u. p u || q u) users ≡ true
exists-or p q [] h = cc
exists-or p q (u ∷ users) h = ground (arith, exists-or p q users)

module _ (env : Env) (user : User) (username : String) (request : Option Request) where
  -- For a user in the table: a user name that another user has, up to case and the space around
  -- it, is refused with a `ValidationError`, not as CONFLICT, and no row changes.
  pub change_username_taken :
      (w : World) (locked : User)
      → first (is_user user.pk) w.db.users ≡ some locked
      → exists (is_username_of_other env locked.pk (env.strip username)) w.db.users ≡ true
      → ((change_username env user username request w).0 ≡ err validation_error)
        × ((change_username env user username request w).1.db ≡ w.db)
  unfolding change_username
  change_username_taken w locked found taken =
      let broken =
        exists-or (is_email_of_other env locked.pk locked.email)
          (is_username_of_other env locked.pk (env.strip username)) w.db.users taken in
      elim (Bool-cases
        (env.is_valid_email locked.email && env.is_valid_username (env.strip username))) [
          | inl valid ↦ simp (found, valid, broken) (refl, refl)
          | inr invalid ↦ simp (found, invalid) (refl, refl)
        ]
