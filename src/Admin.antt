-- ===== src/Admin.antt =====
-- The administration of apps/accounts/admin.py, apps/authorization/admin.py and common/admin.py: what
-- the forms of the admin site do besides saving a row. The values that a form has changed are given
-- with it, as they were and as they are.
use Prim.Native.String.{◌++◌ as cat}
use django_boilderplate.Models.Security.{password_changed}
use django_boilderplate.Bans.{ban, revoke_ban}
use django_boilderplate.Security.Events.{record_event}
use django_boilderplate.Common.Logging.{end, Fields}
use django_boilderplate.Authentication.Accounts.{
  has_username, get_user, is_user, has_email, normalize_email_address, revoke_everything,
}
use django_boilderplate.Api.Accounts.{is_reserved, save_user}
use django_boilderplate.Audit.{record_audit}
use django_boilderplate.Core.{bool_eq}
use django_boilderplate.Common.Network.{Request}
use django_boilderplate.World.{
  modify_db, integrity_error, validation_error, when, gets, ◌>>=◌, pure, raise_if, ◌>>◌, Action,
}
use django_boilderplate.Env.{Env}
use django_boilderplate.Models.Accounts.{UserBan, status_eq, User, AccountStatus}
use django_boilderplate.Prelude.{
  ◌==◌, update_where, ◌∷◌, ◌||◌, ◌++◌, ◌&&◌, ℕ, true, str_eq, some, not, none, ltb, leb, is_none,
  first, false, exists, [], String, Option, List, Bool,
}
pub mod Changes

-- `SafeUserChangeForm.clean_status`
unfoldable clean_status : AccountStatus → Action AccountStatus
clean_status status = do raise_if (is_reserved status) validation_error; pure status

-- `before[field] != getattr(obj, field)` for one of the three fields
unfoldable pub login_changed : User → User → Bool
login_changed before_ after_ =
    not (str_eq before_.email after_.email)
    || (not (status_eq before_.status after_.status)
        || not (bool_eq before_.is_active after_.is_active))

abbrev change_name : Bool → String
change_name true = "updated"
change_name false = "created"

module _ (env : Env) (actor : ℕ) (request : Option Request) where
  -- the audit row of `AuditAdminMixin.save_model`
  unfoldable pub audit_save :
      (label : String) → (pk : ℕ) → (change : Bool) → (before_ after_ : Fields) → Action (Unit {0})
  unfolding record_audit
  audit_save label pk change before_ after_ =
      record_audit env (cat "admin." (cat label (cat "." (change_name change)))) label
        (env.pk_text pk) (some actor) request before_ after_

  -- `AuditAdminMixin.delete_model`, with the deletion of the row
  unfoldable delete_model :
      (label : String) → (pk : ℕ) → (delete : Action (Unit {0})) → Action (Unit {0})
  unfolding record_audit
  delete_model label pk delete = do
    record_audit env (cat "admin." (cat label ".deleted")) label (env.pk_text pk) (some actor)
        request end end
    delete

  -- a new row of a user, or the columns of one that is there
  unfoldable pub write_user : (change : Bool) → User → Action User
  unfolding save_user normalize_email_address
  write_user true user = save_user env user
  write_user false user = do
    let stored : User = record user {
      email = normalize_email_address env user.email;
      username = env.strip user.username;
    }
    taken ← gets (λ w.
        exists (λ u. has_email env stored.email u || has_username env stored.username u) w.db.users)
    raise_if taken integrity_error
    modify_db (λ db. record db { users = db.users ++ stored ∷ [] })
    pure stored

  -- `if before and any(...)`
  unfoldable pub revoke_changed : Option User → User → Action (Unit {0})
  unfolding revoke_everything login_changed
  revoke_changed none saved = pure tt
  revoke_changed (some before_) saved =
      when (login_changed before_ saved) (revoke_everything env saved.pk (some actor) request false)

  -- `UserAdmin.save_model`
  unfoldable pub save_user_model : User → (change : Bool) → (before_ after_ : Fields) → Action User
  unfolding write_user audit_save revoke_changed
  save_user_model user change before_ after_ = do
    row ← gets (λ w. first (is_user user.pk) w.db.users)
    saved ← write_user change user
    audit_save "accounts.user" saved.pk change before_ after_
    revoke_changed row saved
    pure saved

  -- `UserAdmin.user_change_password`: the form of the framework answers with a status
  unfoldable user_change_password : (form : Action ℕ) → (post : Bool) → (pk : ℕ) → Action ℕ
  unfolding revoke_everything record_event record_audit
  user_change_password form post pk = do
    status ← form
    when (post && (leb 300 status && ltb status 400)) do
      user ← get_user pk
      revoke_everything env user.pk (some actor) request false
      record_event env password_changed (some user.pk) request (("changed_by_admin", "True") ∷ [])
      record_audit env "admin.password.changed" "accounts.user" (env.pk_text user.pk) (some actor)
          request end end
    pure status

  -- `UserBanAdmin.revoke_selected`, over the rows of the selection
  unfoldable revoke_selected : List UserBan → Action (Unit {0})
  revoke_selected [] = pure tt
  revoke_selected (b ∷ bans) = do
    when (is_none b.revoked_at) (revoke_ban env b.pk (some actor) request)
    revoke_selected bans

  -- `UserBanAdmin.save_model`: a new ban goes through the service
  unfoldable save_ban_model : UserBan → (change : Bool) → (before_ after_ : Fields) → Action UserBan
  unfolding ban audit_save
  save_ban_model b true before_ after_ = do
    modify_db (λ db. record db { bans = update_where (λ r. r.pk == b.pk) (λ _. b) db.bans })
    audit_save "accounts.userban" b.pk true before_ after_
    pure b
  save_ban_model b false before_ after_ =
      ban env b.user b.reason (some actor) (some b.starts_at) b.expires_at request
