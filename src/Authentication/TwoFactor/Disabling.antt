-- ===== src/Authentication/TwoFactor/Disabling.antt =====
-- `begin_setup` and `disable`: the credential row that `disable` keeps.
use django_boilderplate.World.{integrity_error, err, World}
use django_boilderplate.Models.Accounts.{User}
use django_boilderplate.Common.Crypto.{key_material, encrypt_value, IsConfigured}
use django_boilderplate.Authentication.TwoFactor.{
  begin_setup, is_pending_of, credential_of, is_enabled_of,
}
use django_boilderplate.Env.{Env}
use django_boilderplate.Models.Authentication.{TwoFactorCredential}
use django_boilderplate.Prelude.{
  ◌≡◌, ◌∷◌, ℕ, true, some, refl, is_none, first, false, exists, delete_where, arith, [], String,
  List,
}

exists-delete :
    (u : ℕ) (rows : List TwoFactorCredential)
    → exists (is_enabled_of u) rows ≡ false
    → exists (is_enabled_of u) (delete_where (is_pending_of u) rows) ≡ false
exists-delete u [] h = refl
exists-delete u (c ∷ rows) h = ground (arith, exists-delete u rows)

exists-kept :
    (u : ℕ) (rows : List TwoFactorCredential) (c : TwoFactorCredential)
    → first (credential_of u) rows ≡ some c
    → is_none c.confirmed_at ≡ false
    → exists (credential_of u) (delete_where (is_pending_of u) rows) ≡ true
exists-kept u [] c h confirmed = cc
exists-kept u (x ∷ rows) c h confirmed = ground (arith, exists-kept u rows c)

module _ (env : Env) (configured : IsConfigured env) (user : User) (password : String) where
  -- Where the encryption key is configured and the user has a confirmed credential but none that is
  -- enabled: with the right password, `begin_setup` raises the integrity error of the one-to-one
  -- constraint, and no row changes.
  pub begin_setup-disabled :
      (w : World) (c : TwoFactorCredential)
      → first (credential_of user.pk) w.db.credentials ≡ some c
      → is_none c.confirmed_at ≡ false
      → exists (is_enabled_of user.pk) w.db.credentials ≡ false
      → env.check_password user.password password ≡ true
      → ((begin_setup env user password w).0 ≡ err integrity_error)
        × ((begin_setup env user password w).1.db ≡ w.db)
  unfolding begin_setup encrypt_value key_material
  begin_setup-disabled w c found confirmed disabled known =
      simp
        (
          known,
          exists-delete user.pk w.db.credentials disabled,
          configured,
          exists-kept user.pk w.db.credentials c found confirmed,
        )
        (refl, refl)
