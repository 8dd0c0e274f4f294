-- ===== src/Tests/Rules.antt =====
-- Runs of the permissions and of the redaction.
use django_boilderplate.Common.Logging.Redaction.{sanitize_lem, is_clean}
use django_boilderplate.Authorization.Consistency.{has_permission-permission_codes}
use django_boilderplate.Tests.Sample.{sample_user, empty_db}
use django_boilderplate.Common.Logging.{sanitize, end, opaque, text, field, dict}
use django_boilderplate.Authorization.{permission_codes, member, has_permission, override_pairs}
use django_boilderplate.World.{Db}
use django_boilderplate.Models.Authorization.{deny, UserRole}
use django_boilderplate.Prelude.{◌≡◌, ◌∷◌, true, some, refl, none, false, []}

abbrev member_role : UserRole
member_role = record {
  user = 7;
  role = 1;
  granted_by = none;
  valid_from = 10;
  valid_until = some 60;
}

-- a role that gives "posts.read", and an override that denies "posts.write"
abbrev rules : Db
rules = record empty_db {
  permissions =
      record {
        pk = 1;
        codename = "posts.read";
        description = "";
        is_system = false;
        updated_at = 1;
      }
      ∷ record {
        pk = 2;
        codename = "posts.write";
        description = "";
        is_system = false;
        updated_at = 1;
      }
      ∷ [];
  role_permissions = record { role = 1; permission = 1 } ∷ record { role = 1; permission = 2 } ∷ [];
  user_roles = member_role ∷ [];
  overrides = record { user = 7; permission = 2; effect = deny } ∷ [];
}

has_permission-permission_codes_example :
    has_permission rules 50 (some sample_user) "posts.read"
    ≡ member (some "posts.read") (permission_codes rules 50 (some sample_user))
unfolding override_pairs
has_permission-permission_codes_example =
    has_permission-permission_codes rules 50 sample_user "posts.read" (refl, tt) refl

sanitize_lem_example :
    let v = dict (field "Password" (text "x") (field "name" (opaque "y") end)) in
    (is_clean (sanitize v) ≡ true) × (sanitize (sanitize v) ≡ sanitize v)
sanitize_lem_example =
    sanitize_lem (dict (field "Password" (text "x") (field "name" (opaque "y") end)))
