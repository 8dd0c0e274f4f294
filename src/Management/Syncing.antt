-- ===== src/Management/Syncing.antt =====
-- The command `bootstrap` run twice.
use django_boilderplate.Management.Undated.{undated}
use django_boilderplate.Management.Returning.{sync_roles-ok, Registered}
use django_boilderplate.Management.Permissions.{
  synced, sync_permissions_lem, sync_permissions_settled, Distinct,
}
use django_boilderplate.Api.Registering.{registration_key}
use django_boilderplate.Management.OneRole.{DistinctRoles}
use django_boilderplate.Management.Roles.{sync_roles_lem, sync_roles_settled, RoleDone}
use django_boilderplate.Core.{has_setting_key}
use django_boilderplate.Management.Permissions.{rows_at, EntrySynced}
use django_boilderplate.Models.Authorization.{RolePermission, Role, Permission}
use django_boilderplate.World.{
  atomic-ok, db-atomic_ok, enter, continue, ◌>>=◌, ◌>>◌, Action, Keeps-when, ok, Keeps, World, Db,
}
use django_boilderplate.Management.{
  sync_roles, sync_permissions, bootstrap, RoleDefinition, put_registration_flag,
  put_registration_setting,
}
use django_boilderplate.Authorization.Registry.{Descriptions}
use django_boilderplate.Models.Core.{FeatureFlag}
use django_boilderplate.Prelude.{
  ◌||◌, ℕ, exists-append, String, ◌≡◌, ◌∙◌, true, sym, subst, str_eq, refl, not, inr, inl, exists,
  arith, ap, List, Bool-cases, Bool, All,
}

abbrev has_registration_flag : FeatureFlag → Bool
has_registration_flag f = str_eq f.key "registration.enabled"

-- Everything that the command sees to is as it says.
abbrev Settled : Descriptions → List RoleDefinition → Db → Type 0
Settled registry definitions db =
    All (λ d. EntrySynced d db.permissions) registry
    × All (RoleDone (rows_at registry db.permissions) db.roles db.role_permissions) definitions
    × (exists (has_setting_key registration_key) db.runtime_settings ≡ true)
    × (exists has_registration_flag db.feature_flags ≡ true)

setting_ok : (w : World) → (put_registration_setting w).0 ≡ ok tt
unfolding put_registration_setting
setting_ok w = ground arith

flag_ok : (w : World) → (put_registration_flag w).0 ≡ ok tt
unfolding put_registration_flag
flag_ok w = ground arith

-- The parts that the last two steps leave alone.
abbrev synced_part : Db → List Permission × List Role × List RolePermission
synced_part db = ((undated db).permissions, (undated db).roles, db.role_permissions)

Keeps-setting : Keeps synced_part put_registration_setting
unfolding put_registration_setting
Keeps-setting w =
    Keeps-when synced_part (not (exists (has_setting_key registration_key) w.db.runtime_settings)) _
      (λ v. refl) w

Keeps-flag : Keeps synced_part put_registration_flag
unfolding put_registration_flag
Keeps-flag w =
    Keeps-when synced_part (not (exists has_registration_flag w.db.feature_flags)) _ (λ v. refl) w

settings-flag :
    (w : World) → (put_registration_flag w).1.db.runtime_settings ≡ w.db.runtime_settings
unfolding put_registration_flag
settings-flag w = ground arith

setting_there :
    (w : World)
    → exists (has_setting_key registration_key) (put_registration_setting w).1.db.runtime_settings
      ≡ true
unfolding put_registration_setting
setting_there w =
    elim (Bool-cases (exists (has_setting_key registration_key) w.db.runtime_settings)) [
      | inl e ↦ simp e refl
      | inr e ↦ simp e (
          exists-append (has_setting_key registration_key) w.db.runtime_settings _
          ∙ ap (λ b. b || true) e)
    ]

flag_there :
    (w : World) → exists has_registration_flag (put_registration_flag w).1.db.feature_flags ≡ true
unfolding put_registration_flag
flag_there w = elim (Bool-cases (exists has_registration_flag w.db.feature_flags)) [
  | inl e ↦ simp e refl
  | inr e ↦
      simp e (exists-append has_registration_flag w.db.feature_flags _ ∙ ap (λ b. b || true) e)
]

module _ (registry : Descriptions) (definitions : List RoleDefinition) where
  abbrev last : Action (Unit {0})
  last = put_registration_setting >> put_registration_flag

  abbrev body : Action (Unit {0})
  body = sync_permissions registry >>= λ rows. sync_roles rows definitions >> last

  -- Where everything is settled, the body changes no more than the time stamps.
  body_idle :
      (w : World)
      → Settled registry definitions (undated w.db)
      → ((body w).0 ≡ ok tt) × (undated (body w).1.db ≡ undated w.db)
  unfolding put_registration_setting put_registration_flag
  body_idle w s =
      let rows = rows_at registry (undated w.db).permissions in
      let rest : List (String × ℕ) → Action (Unit {0}) =
        λ rows. sync_roles rows definitions >> last in
      let w1 = synced registry w in
      let w2 = (sync_roles rows definitions w1).1 in
      let (returned, same) = sync_permissions_settled registry w s.0 in
      let s1 : Settled registry definitions (undated w1.db) =
        subst (Settled registry definitions) (sym same) s in
      let roles_done : All (RoleDone rows (undated w1.db).roles w1.db.role_permissions)
          definitions =
        subst (λ db. All (RoleDone rows db.roles db.role_permissions) definitions) (sym same) s.1 in
      let (roles_ok, roles_same) = sync_roles_settled rows definitions w1 roles_done in
      let kept : undated w2.db ≡ undated w.db = roles_same ∙ same in
      let setting_there : exists (has_setting_key registration_key) w2.db.runtime_settings ≡ true =
        ap (λ db. exists (has_setting_key registration_key) db.runtime_settings) kept ∙ s.2 in
      let flag_there : exists has_registration_flag w2.db.feature_flags ≡ true =
        ap (λ db. exists has_registration_flag db.feature_flags) kept ∙ s.3 in
      let setting_kept : put_registration_setting w2 ≡ (ok tt, w2) = simp setting_there in
      let flag_kept : put_registration_flag w2 ≡ (ok tt, w2) = simp flag_there in
      let whole : body w ≡ (ok tt, w2) =
        ap (λ r. continue r rest w1) returned
        ∙ ap (λ r. continue r (λ _. last) w2) roles_ok
        ∙ ap (λ r. continue r.0 (λ _. put_registration_flag) r.1) setting_kept
        ∙ flag_kept in
      (ap (λ r. r.0) whole, ap (λ r. undated r.1.db) whole ∙ kept)

  body-Settled :
      (w : World)
      → Distinct registry
      → DistinctRoles definitions
      → All (λ d. Registered registry d.permissions) definitions
      → ((body w).0 ≡ ok tt) × Settled registry definitions (undated (body w).1.db)
  body-Settled w distinct apart known =
      let (returned, entries, frame) = sync_permissions_lem registry w distinct in
      let w1 = synced registry w in
      let rows = rows_at registry (undated w1.db).permissions in
      let rest : List (String × ℕ) → Action (Unit {0}) =
        λ rows. sync_roles rows definitions >> last in
      let roles_ok = sync_roles-ok registry (undated w1.db).permissions definitions w1 known in
      let w2 = (sync_roles rows definitions w1).1 in
      let (done_, roles_frame) = sync_roles_lem rows definitions w1 apart roles_ok in
      let w3 = (put_registration_setting w2).1 in
      let w4 = (put_registration_flag w3).1 in
      let whole : body w ≡ (ok tt, w4) =
        ap (λ r. continue r rest w1) returned
        ∙ ap (λ r. continue r (λ _. last) w2) roles_ok
        ∙ ap (λ r. continue r (λ _. put_registration_flag) w3) (setting_ok w2)
        ∙ ap (λ r. (r, w4)) (flag_ok w3) in
      let parts : synced_part w4.db ≡ synced_part w2.db = Keeps-flag w3 ∙ Keeps-setting w2 in
      let permissions_same : (undated w4.db).permissions ≡ (undated w1.db).permissions =
        ap (λ t. t.0) parts ∙ ap (λ db. db.permissions) roles_frame in
      let settled : Settled registry definitions (undated w4.db) = (
        subst (λ ps. All (λ d. EntrySynced d ps) registry) (sym permissions_same) entries,
        subst
            (λ ps.
              All (RoleDone (rows_at registry ps) (undated w4.db).roles w4.db.role_permissions)
                definitions)
            (sym permissions_same)
            (subst (λ t. All (RoleDone rows t.1 t.2) definitions) (sym parts) done_),
        ap (λ ss. exists (has_setting_key registration_key) ss) (settings-flag w3)
            ∙ setting_there w2,
        flag_there w3,
      ) in
      (
        ap (λ r. r.0) whole,
        subst (λ r. Settled registry definitions (undated r.1.db)) (sym whole) settled,
      )

  -- Where the registry and the definitions name different permissions and roles, and every name that a
  -- role asks for is registered: the command returns, and a second run, at any later time and from
  -- any state with the rows that the first has left, returns and changes nothing but `updated_at` of
  -- permissions and roles.
  pub bootstrap_twice :
      (w v : World)
      → Distinct registry
      → DistinctRoles definitions
      → All (λ d. Registered registry d.permissions) definitions
      → v.db ≡ (bootstrap registry definitions w).1.db
      → ((bootstrap registry definitions w).0 ≡ ok tt)
        × ((bootstrap registry definitions v).0 ≡ ok tt)
        × (undated (bootstrap registry definitions v).1.db ≡ undated v.db)
  unfolding bootstrap
  bootstrap_twice w v distinct apart known same =
      let (returned, settled) = body-Settled (enter w) distinct apart known in
      let kept : v.db ≡ (body (enter w)).1.db = same ∙ db-atomic_ok body w tt returned in
      let (again, still) =
        body_idle (enter v)
          (subst (λ db. Settled registry definitions (undated db)) (sym kept) settled) in
      (
        atomic-ok body w tt returned,
        atomic-ok body v tt again,
        ap undated (db-atomic_ok body v tt again) ∙ still,
      )
