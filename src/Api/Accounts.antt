-- ===== src/Api/Accounts.antt =====
-- apps/api/views/accounts.py with the serializers of apps/api/serializers/accounts.py: the users
-- for an administrator. A field that a request does not
-- give is `none`.
use django_boilderplate.Common.Values.{given_value, given_field}
use django_boilderplate.Common.Logging.{boolean as boolean_value, null, Fields, Value, end, text}
use django_boilderplate.Audit.{record_audit}
use django_boilderplate.Api.Responses.{status_value, checked}
use django_boilderplate.Common.Network.{Request}
use django_boilderplate.Authentication.Accounts.{
  save_fields, is_username_of_other, is_email_of_other, revoke_everything, normalize_email_address,
}
use django_boilderplate.Core.{or_kept}
use django_boilderplate.Env.{Env}
use django_boilderplate.World.{
  integrity_error, serializer_error, pure, when, raise_if, modify_db, ◌>>◌, atomic, gets,
  method_not_allowed, ◌>>=◌, raise, api, Error, Action,
}
use django_boilderplate.Models.Accounts.{deleted, banned, User, AccountStatus}
use django_boilderplate.Prelude.{
  true, ◌||◌, ℕ, str_eq, some, none, is_some, if◌then◌else◌, false, exists, String, Option, Bool,
}
pub mod Own
pub mod Revoking

-- the fields of `UserAdminSerializer` that can be written
pub record UserData : Type 0 where
  pub email : Option String
  pub username : Option String
  pub first_name : Option String
  pub last_name : Option String
  pub status : Option AccountStatus
  pub email_verified_at : Option (Option ℕ)
  pub phone_verified_at : Option (Option ℕ)
  pub is_active : Option Bool
  pub is_staff : Option Bool

-- the checks of a field that may be missing
abbrev pub given_and : {A : Type 0} → (A → Bool) → Option A → Bool
given_and p none = false
given_and p (some a) = p a

-- a field that is given in its normal form
abbrev pub mapped : (String → String) → Option String → Option String
mapped f none = none
mapped f (some s) = some (f s)

-- `value in {AccountStatus.BANNED, AccountStatus.DELETED}`
abbrev pub is_reserved : AccountStatus → Bool
is_reserved banned = true
is_reserved deleted = true
is_reserved _ = false

-- `any(field in serializer.validated_data for field in {"email", "status", "is_active"})`
abbrev pub touches_login : UserData → Bool
touches_login d = is_some d.email || (is_some d.status || is_some d.is_active)

abbrev pub change_user : UserData → User → User
change_user d u = record u {
  email = or_kept d.email u.email;
  username = or_kept d.username u.username;
  first_name = or_kept d.first_name u.first_name;
  last_name = or_kept d.last_name u.last_name;
  status = or_kept d.status u.status;
  email_verified_at = or_kept d.email_verified_at u.email_verified_at;
  phone_verified_at = or_kept d.phone_verified_at u.phone_verified_at;
  is_active = or_kept d.is_active u.is_active;
  is_staff = or_kept d.is_staff u.is_staff;
}

-- the codename for an action of `UserAdminViewSet`
unfoldable user_admin_permission : String → String
user_admin_permission action =
    if str_eq action "list" || str_eq action "retrieve"
    then "users.view"
    else if str_eq action "create"
    then "users.create"
    else if str_eq action "update" || str_eq action "partial_update"
    then "users.update"
    else if str_eq action "destroy"
    then "users.delete"
    else "users.view"

abbrev not_allowed : Error
not_allowed = api method_not_allowed 405 none

-- `UserAdminViewSet.perform_create` and `destroy`
unfoldable perform_create_user : Option UserData → Action User
perform_create_user parsed = do d ← checked parsed; raise not_allowed

unfoldable destroy_user : Action (Unit {0})
destroy_user = raise not_allowed

module _ (env : Env) where
  -- `UserAdminSerializer`, for a row that exists
  unfoldable pub validate_user : User → Option UserData → Action UserData
  unfolding normalize_email_address
  validate_user user parsed = do
    d ← checked parsed
    users ← gets (λ w. w.db.users)
    raise_if
        (given_and
            (λ email.
              exists (is_email_of_other env user.pk (normalize_email_address env email)) users)
            d.email
          || (given_and (λ name. exists (is_username_of_other env user.pk (env.strip name)) users)
                d.username
              || given_and is_reserved d.status))
        serializer_error
    pure (record d {
      email = mapped (normalize_email_address env) d.email;
      username = mapped env.strip d.username;
    })

  -- `User.save`: the address and the name in their normal form, under the unique constraints
  unfoldable pub save_user : User → Action User
  unfolding normalize_email_address
  save_user user = do
    let stored : User = record user {
      email = normalize_email_address env user.email;
      username = env.strip user.username;
    }
    taken ← gets (λ w.
        exists
          (λ u.
            is_email_of_other env user.pk stored.email u
            || is_username_of_other env user.pk stored.username u)
          w.db.users)
    raise_if taken integrity_error
    modify_db (save_fields user.pk (λ _. stored))
    pure stored

  abbrev moment_value : Option ℕ → Value
  moment_value none = null
  moment_value (some t) = text (env.isoformat t)

  -- `{field: getattr(serializer.instance, field) for field in serializer.validated_data}`
  unfoldable pub user_before : UserData → User → Fields
  user_before d u = given_field "email" text d.email u.email (
      given_field "username" text d.username u.username (
        given_field "first_name" text d.first_name u.first_name (
          given_field "last_name" text d.last_name u.last_name (
            given_field "status" (λ s. text (status_value s)) d.status u.status
              (given_field "email_verified_at" moment_value d.email_verified_at u.email_verified_at
                (given_field "phone_verified_at" moment_value d.phone_verified_at
                  u.phone_verified_at
                  (given_field "is_active" boolean_value d.is_active u.is_active
                    (given_field "is_staff" boolean_value d.is_staff u.is_staff end))))))))

  -- `serializer.validated_data`
  unfoldable pub user_after : UserData → Fields
  user_after d = given_value "email" text d.email (
      given_value "username" text d.username (
        given_value "first_name" text d.first_name (
          given_value "last_name" text d.last_name (
            given_value "status" (λ s. text (status_value s)) d.status
              (given_value "email_verified_at" moment_value d.email_verified_at (
                given_value "phone_verified_at" moment_value d.phone_verified_at (
                  given_value "is_active" boolean_value d.is_active
                    (given_value "is_staff" boolean_value d.is_staff end))))))))

  -- the body of `UserAdminViewSet.perform_update`, inside its transaction
  unfoldable pub update_user : User → UserData → ℕ → Option Request → Action User
  unfolding save_user revoke_everything record_audit user_before user_after
  update_user user d actor request = do
    saved ← save_user (change_user d user)
    when (touches_login d) (revoke_everything env saved.pk (some actor) request false)
    record_audit env "user.updated" "accounts.user" (env.pk_text saved.pk) (some actor) request
        (user_before d user) (user_after d)
    pure saved

  -- `UserAdminViewSet.update`, for the row that `get_object` found
  unfoldable pub update_user_put : User → Option UserData → ℕ → Option Request → Action User
  unfolding validate_user update_user
  update_user_put user parsed actor request = do
    d ← validate_user user parsed
    atomic (update_user user d actor request)
