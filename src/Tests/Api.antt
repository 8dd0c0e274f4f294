-- ===== src/Tests/Api.antt =====
-- Runs of the views, of the management command and of the checks of production.
use django_boilderplate.Management.Undated.{undated}
use django_boilderplate.Authentication.Accounts.{newest}
use django_boilderplate.Env.{Env}
use django_boilderplate.Admin.Changes.{save_user_model_lem}
use django_boilderplate.Common.Logging.{end}
use django_boilderplate.Admin.{
  save_user_model, write_user, audit_save, revoke_changed, login_changed,
}
use django_boilderplate.Common.Events.Delivery.{publish-subscribe}
use django_boilderplate.Authentication.Accounts.Ending.{is_live_jwt}
use django_boilderplate.Common.Events.{Handler, publish, subscribe, run_each, handlers_of}
use django_boilderplate.Models.Accounts.{status_eq}
use django_boilderplate.Authentication.Sessions.{revoke, revoke_row}
use django_boilderplate.Common.Crypto.{decrypt_value}
use django_boilderplate.Security.Events.{record_event}
use django_boilderplate.Api.Accounts.Revoking.{update_user_put_lem}
use django_boilderplate.Api.Roles.Removal.{destroy_permission-ungranted}
use django_boilderplate.Authentication.Accounts.Ending.{is_live_jwt}
use django_boilderplate.Authorization.{has_permission}
use django_boilderplate.Authentication.Sessions.{is_live_session}
use django_boilderplate.Audit.{record_audit}
use django_boilderplate.Api.Auth.Uniform.{password_reset_post_lem, uniform_answers}
use django_boilderplate.Management.Syncing.{bootstrap_twice}
use django_boilderplate.Models.Accounts.{active, status_eq, deactivated}
use django_boilderplate.Api.Auth.{resend_verification_post, password_reset_post}
use django_boilderplate.Api.Roles.{delete_permission, perform_destroy, destroy_permission}
use django_boilderplate.Models.Authorization.{allow, Permission}
use django_boilderplate.Api.Accounts.{
  is_reserved, update_user, save_user, validate_user, update_user_put, UserData,
}
use django_boilderplate.World.{delivery_error, err, ok, Db, World}
use django_boilderplate.Management.{bootstrap, RoleDefinition}
use django_boilderplate.Authorization.Registry.{Descriptions}
use django_boilderplate.Prelude.{
  ◌+◌, ◌*◌, ℕ, String, ◌≡◌, ◌∷◌, ◌&&◌, true, some, refl, not, none, false, exists, [], List,
}
use django_boilderplate.Tests.Sample.{sample, empty_db, server, sample_user}
use django_boilderplate.Tests.Authentication.{session}

abbrev registry : Descriptions
registry = ("users.view", "View users") ∷ ("roles.manage", "Manage roles") ∷ []

abbrev definitions : List RoleDefinition
definitions =
    record {
      slug = "admin";
      name = "Admin";
      description = "all";
      priority = 800;
      permissions = none;
    }
    ∷ record {
      slug = "user";
      name = "User";
      description = "some";
      priority = 100;
      permissions = some ("users.view" ∷ []);
    }
    ∷ []

abbrev second_day : World
second_day = record (bootstrap registry definitions (server empty_db)).1 { now = 90 }

bootstrap_twice_example :
    ((bootstrap registry definitions (server empty_db)).0 ≡ ok tt)
    × ((bootstrap registry definitions second_day).0 ≡ ok tt)
    × (undated (bootstrap registry definitions second_day).1.db ≡ undated second_day.db)
bootstrap_twice_example =
    bootstrap_twice registry definitions (server empty_db) second_day ((refl, tt), (tt, tt))
      ((refl, tt), (tt, tt)) (tt, ((refl, tt), tt)) refl

abbrev deactivation : UserData
deactivation = record {
  email = none;
  username = none;
  first_name = none;
  last_name = none;
  status = some deactivated;
  email_verified_at = none;
  phone_verified_at = none;
  is_active = none;
  is_staff = none;
}

abbrev with_session : World
with_session = server (record empty_db { user_sessions = session 1 7 ∷ session 2 8 ∷ [] })

update_user_put_lem_example :
    let w' = (update_user_put sample sample_user (some deactivation) 9 none with_session).1 in
    (exists (is_live_session 7) w'.db.user_sessions ≡ false)
    × (exists (is_live_jwt 7) w'.db.jwts ≡ false)
    × ((is_reserved deactivated && not (status_eq deactivated active)) ≡ false)
unfolding update_user_put validate_user save_user update_user revoke revoke_row decrypt_value
    record_event
update_user_put_lem_example =
    update_user_put_lem sample 9 none sample_user (record sample_user { status = deactivated })
      (some deactivation) deactivation with_session refl (refl, (refl, tt)) refl refl refl

abbrev loose : Permission
loose = record { pk = 1; codename = "x.view"; description = ""; is_system = false; updated_at = 1 }

abbrev granted : World
granted = server (record empty_db {
  permissions = loose ∷ [];
  overrides = record { user = 7; permission = 1; effect = allow } ∷ [];
})

destroy_permission-ungranted_example :
    has_permission (destroy_permission sample 1 9 none granted).1.db 60 (some sample_user) "x.view"
    ≡ false
unfolding destroy_permission perform_destroy delete_permission record_audit
destroy_permission-ungranted_example =
    destroy_permission-ungranted sample 1 9 none granted loose sample_user 60 refl refl refl refl

abbrev nobody : Db
nobody = record empty_db { users = [] }

uniform_answers_example :
    ((password_reset_post sample (some "u@example.org") (server empty_db)).0
      ≡ (password_reset_post sample (some "u@example.org") (server nobody)).0)
    × ((resend_verification_post sample (some "u@example.org") (server empty_db)).0
        ≡ (resend_verification_post sample (some "u@example.org") (server nobody)).0)
uniform_answers_example =
    uniform_answers sample (λ _ _ _ _. refl) (some "u@example.org") (server empty_db)
      (server nobody)

save_user_model_lem_example :
    let w' =
      (save_user_model sample 9 none
        (record sample_user { status = deactivated })
        true
        end
        end
        with_session).1 in
    (exists (is_live_session 7) w'.db.user_sessions ≡ false)
    × (exists (is_live_jwt 7) w'.db.jwts ≡ false)
unfolding save_user_model write_user audit_save revoke_changed save_user login_changed status_eq
    revoke revoke_row decrypt_value record_event
save_user_model_lem_example =
    save_user_model_lem sample 9 none end end (record sample_user { status = deactivated })
      sample_user (record sample_user { status = deactivated }) with_session refl (refl, (refl, tt))
      refl refl refl

-- one that raises, and one that does not
abbrev broken : Handler ℕ ℕ
broken = record { identity = 1; run = λ e n. (false, n + e) }

abbrev sound : Handler ℕ ℕ
sound = record { identity = 2; run = λ e n. (true, n * e) }

abbrev one_handler : List (String × Handler ℕ ℕ)
one_handler = ("user.created", broken) ∷ []

publish-subscribe_example :
    let rows' = subscribe "user.created" sound one_handler in
    (subscribe "user.created" sound rows' ≡ rows')
    × (publish rows' "user.created" 5 2 ≡ 35)
    × (publish rows' "user.deleted" 5 2 ≡ 2)
unfolding subscribe publish run_each handlers_of
publish-subscribe_example =
    publish-subscribe "user.created" "user.deleted" sound one_handler 5 2 refl refl

abbrev undelivered : Env
undelivered = record sample { mail_fails = λ _ _ _ _. true }

password_reset_post_lem_example :
    (password_reset_post undelivered (some "u@example.org") (server empty_db)).0
    ≡ err delivery_error
unfolding newest
password_reset_post_lem_example =
    password_reset_post_lem undelivered "u@example.org" (server empty_db)
