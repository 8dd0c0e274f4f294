-- ===== src/Notifications.antt =====
-- `NotificationService` of apps/notifications/services.py, and the notifications as the view set of
-- apps/api/views/notifications.py shows and changes them.
use django_boilderplate.Authentication.Accounts.{preferences_of}
use django_boilderplate.Security.LoginProtection.{text_in}
use django_boilderplate.Env.{Env}
use django_boilderplate.World.{
  send_email, on_commit, or_raise, when, modify_db, ◌>>◌, gets, resource_not_found, pure, fresh_pk,
  ◌>>=◌, api, Error, Action,
}
use django_boilderplate.Models.Notifications.{Notification}
use django_boilderplate.Common.Logging.{Fields}
use django_boilderplate.Prelude.{
  ◌∷◌, ◌==◌, ◌++◌, ◌&&◌, ℕ, update_where, some, select, none, length, is_none, if◌then◌else◌, first,
  delete_where, [], String, Option, List, Bool,
}
use django_boilderplate.Models.Accounts.{open_ended, User}
pub mod Reading

pub record NotificationMessage : Type 0 where
  pub type_name : String
  pub title : String
  pub message : String
  pub payload : Fields
  pub expires_at : Option ℕ

abbrev new_notification : ℕ → NotificationMessage → ℕ → ℕ → Notification
new_notification user m pk now = record {
  pk = pk;
  user = user;
  type_name = m.type_name;
  title = m.title;
  message = m.message;
  payload = m.payload;
  read_at = none;
  created_at = now;
  expires_at = m.expires_at;
}

-- the row in the application
unfoldable add_notification : ℕ → NotificationMessage → Action (Option Notification)
add_notification user m = do
  pk ← fresh_pk
  now ← gets (λ w. w.now)
  let row = new_notification user m pk now
  modify_db (λ db. record db { notifications = db.notifications ++ row ∷ [] })
  pure (some row)

module _ (env : Env) where
  unfoldable notify_in_app : ℕ → NotificationMessage → List String → Action (Option Notification)
  unfolding add_notification
  notify_in_app user m channels =
      if env.settings.enable_notifications && text_in "in_app" channels
      then add_notification user m
      else pure none

  unfoldable notify :
      User → NotificationMessage → (channels : List String) → Action (Option Notification)
  unfolding notify_in_app preferences_of
  notify user m channels = do
    notification ← notify_in_app user.pk m channels
    preferences ← preferences_of user.pk
    when (text_in "email" channels && preferences.email_notifications)
        (on_commit (send_email "notification" user.email ""))
    pure notification

-- `get_queryset`: the notifications of the user that have not expired
abbrev pub is_visible : ℕ → ℕ → Notification → Bool
is_visible now user n = n.user == user && open_ended now n.expires_at

abbrev pub is_unread : Notification → Bool
is_unread n = is_none n.read_at

abbrev pub has_notification_pk : ℕ → Notification → Bool
has_notification_pk pk n = n.pk == pk

abbrev pub visible_one : ℕ → ℕ → ℕ → Notification → Bool
visible_one now user pk n = is_visible now user n && has_notification_pk pk n

abbrev pub not_found : Error
not_found = api resource_not_found 404 none

abbrev pub set_read : ℕ → Notification → Notification
set_read now n = record n { read_at = some now }

-- the rest of `mark_read`, for the row that `get_object` found
unfoldable mark_found : Notification → Action Notification
mark_found n = do
  now ← gets (λ w. w.now)
  when (is_unread n) (
      modify_db (λ db. record db {
        notifications = update_where (has_notification_pk n.pk) (set_read now) db.notifications;
      }))
  pure (if is_unread n then set_read now n else n)

unfoldable pub mark_read : (user : ℕ) → (pk : ℕ) → Action Notification
unfolding mark_found
mark_read user pk = do
  found ← gets (λ w. first (visible_one w.now user pk) w.db.notifications)
  n ← or_raise found not_found
  mark_found n

unfoldable pub mark_all_read : (user : ℕ) → Action ℕ
mark_all_read user = do
  now ← gets (λ w. w.now)
  unread ← gets (λ w. select (λ n. is_visible now user n && is_unread n) w.db.notifications)
  modify_db (λ db. record db {
    notifications =
        update_where (λ n. is_visible now user n && is_unread n) (set_read now) db.notifications;
  })
  pure (length unread)

unfoldable pub destroy : (user : ℕ) → (pk : ℕ) → Action (Unit {0})
destroy user pk = do
  found ← gets (λ w. first (visible_one w.now user pk) w.db.notifications)
  n ← or_raise found not_found
  modify_db
      (λ db. record db { notifications = delete_where (has_notification_pk n.pk) db.notifications })
