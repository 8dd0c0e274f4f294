-- ===== src/Api/Responses.antt =====
-- common/responses.py, and what `UserSerializer` of apps/api/serializers/accounts.py shows of a user.
-- The instants at which a row was created and changed, and the last login, are left out.
use django_boilderplate.ApiKeys.{text_items}
use django_boilderplate.Common.Crypto.{text_or}
use django_boilderplate.Authorization.{permission_codes}
use django_boilderplate.Env.{Env}
use django_boilderplate.Models.Accounts.{
  deleted, deactivated, banned, suspended, pending, active, User, AccountStatus,
}
use django_boilderplate.World.{
  type_error, raise, gets, ◌>>=◌, serializer_error, pure, or_raise, Action,
}
use django_boilderplate.Common.Errors.{RestResponse}
use django_boilderplate.Common.Logging.{
  null, nil, item, end, text, boolean as boolean_value, list, field, dict, Value,
}
use django_boilderplate.Prelude.{
  ◌∷◌, ◌==◌, ℕ, true, sorted_set, some, not, none, is_some, is_none, if◌then◌else◌, false, exists,
  [], String, Option, List, Bool,
}
use Prim.Native.String.{◌++◌ as cat}

-- `success_response`
unfoldable pub success_response : Value → ℕ → RestResponse
success_response data_ status = record {
  status = status;
  body = dict (
      field "success" (boolean_value true)
        (field "data" data_ (field "meta" (dict end) (field "error" null end))));
}

-- `success_response({name: True})`, and with a text
abbrev pub answered : String → RestResponse
answered name = success_response (dict (field name (boolean_value true) end)) 200

abbrev pub sent : String → RestResponse
sent t = success_response (dict (field "message" (text t) end)) 200

-- `serializer.is_valid(raise_exception=True)`; `none` is a request that the fields refuse
abbrev pub checked : {A : Type 0} → Option A → Action A
checked parsed = or_raise parsed serializer_error

abbrev pub status_value : AccountStatus → String
status_value active = "active"
status_value pending = "pending"
status_value suspended = "suspended"
status_value banned = "banned"
status_value deactivated = "deactivated"
status_value deleted = "deleted"

-- the names of a set, and whether `None` is in it
abbrev pub names : List (Option String) → List String
names [] = []
names (none ∷ xs) = names xs
names (some s ∷ xs) = s ∷ names xs

-- `sorted(codes)`: `None` and a text cannot be compared
unfoldable sort_codes : List (Option String) → Action Value
unfolding sorted_set
sort_codes codes =
    if not (exists is_none codes)
    then pure (list (text_items (sorted_set (names codes))))
    else if not (exists is_some codes)
    then pure (list (item null nil))
    else raise type_error

abbrev is_same_user : Option ℕ → ℕ → Bool
is_same_user none pk = false
is_same_user (some viewer) pk = viewer == pk

module _ (env : Env) where
  unfoldable full_name : User → String
  full_name user = env.strip (cat user.first_name (cat " " user.last_name))

  -- `User.display_name`
  unfoldable display_name : User → String
  unfolding full_name
  display_name user = text_or (full_name user) user.username

  -- `UserSerializer(user).data` with the permissions that `get_permissions` gives
  unfoldable user_fields : User → Value → Value
  unfolding display_name
  user_fields user permissions = dict (
      field "id" (text (env.pk_text user.pk)) (
        field "email" (text user.email) (
          field "username" (text user.username) (
            field "first_name" (text user.first_name) (
              field "last_name" (text user.last_name) (
                field "display_name" (text (display_name user)) (
                  field "avatar" (text user.avatar) (
                    field "status" (text (status_value user.status)) (
                      field "is_email_verified" (boolean_value (is_some user.email_verified_at)) (
                        field "is_phone_verified" (boolean_value (is_some user.phone_verified_at))
                          (field "permissions" permissions end)))))))))))

  -- the serializer, for a request of the user `viewer`
  unfoldable pub user_data : (viewer : Option ℕ) → User → Action Value
  unfolding user_fields sort_codes permission_codes
  user_data viewer user = do
    codes ← gets (λ w. permission_codes w.db w.now (some user))
    permissions ← (if is_same_user viewer user.pk then sort_codes codes else pure (list nil))
    pure (user_fields user permissions)
