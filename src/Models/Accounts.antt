-- ===== src/Models/Accounts.antt =====
-- apps/accounts/models.py: users, their one-to-one rows and their bans. A row refers to another by
-- its primary key; an instant is a number of microseconds.
use django_boilderplate.Prelude.{
  ℕ, String, Bool, true, false, not, ◌&&◌, Option, none, some, List, ltb, leb, ◌==◌, exists,
  is_none,
}

pub data AccountStatus : Type 0 where
  active pending suspended banned deactivated deleted : AccountStatus

unfoldable pub status_eq : AccountStatus → AccountStatus → Bool
status_eq active active = true
status_eq pending pending = true
status_eq suspended suspended = true
status_eq banned banned = true
status_eq deactivated deactivated = true
status_eq deleted deleted = true
status_eq _ _ = false

pub record User : Type 0 where
  pub pk : ℕ
  pub email : String
  pub username : String
  pub first_name : String
  pub last_name : String
  pub avatar : String
  pub phone : String
  pub status : AccountStatus
  pub email_verified_at : Option ℕ
  pub phone_verified_at : Option ℕ
  pub is_active : Bool
  pub is_staff : Bool
  pub is_superuser : Bool
  pub password : String
  pub last_login : Option ℕ
  pub last_login_ip : Option String

pub record UserProfile : Type 0 where
  pub user : ℕ
  pub bio : String
  pub website : String
  pub location : String

pub record UserPreferences : Type 0 where
  pub user : ℕ
  pub language : String
  pub timezone : String
  pub email_notifications : Bool
  pub security_emails : Bool

pub record UserSecuritySettings : Type 0 where
  pub user : ℕ
  pub password_changed_at : Option ℕ
  pub locked_until : Option ℕ
  pub notify_new_device : Bool

pub record UserBan : Type 0 where
  pub pk : ℕ
  pub user : ℕ
  pub reason : String
  pub banned_by : Option ℕ
  pub starts_at : ℕ
  pub expires_at : Option ℕ
  pub revoked_at : Option ℕ

-- `value is None or value > now`
abbrev pub open_ended : ℕ → Option ℕ → Bool
open_ended now none = true
open_ended now (some t) = ltb now t

-- `value is not None and value > now`, also of a query `value__gt=now`
abbrev pub later_than : ℕ → Option ℕ → Bool
later_than now none = false
later_than now (some t) = ltb now t

-- `UserBan.is_active`
abbrev pub ban_is_active : ℕ → UserBan → Bool
ban_is_active now b = is_none b.revoked_at && (leb b.starts_at now && open_ended now b.expires_at)

-- `User.has_active_ban`
unfoldable pub has_active_ban : ℕ → List UserBan → ℕ → Bool
has_active_ban now bans user = exists (λ b. b.user == user && ban_is_active now b) bans

-- `User.can_authenticate_now`
unfoldable pub can_authenticate_now : ℕ → List UserBan → User → Bool
unfolding has_active_ban
can_authenticate_now now bans u =
    u.is_active && (status_eq u.status active && not (has_active_ban now bans u.pk))

-- `UserSecuritySettings.is_locked`
abbrev pub is_locked : ℕ → UserSecuritySettings → Bool
is_locked now s = later_than now s.locked_until
