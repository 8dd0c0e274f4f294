-- ===== src/Notifications/Reading.antt =====
-- Reading the notifications of one user.
use django_boilderplate.World.{err, World}
use django_boilderplate.Models.Notifications.{Notification}
use django_boilderplate.Prelude.{
  ◌≤◌, ◌≡◌, ◌∙◌, ◌==◌, ◌&&◌, ℕ, refl, inr, inl, if◌then◌else◌, first-none, false, exists_weaken,
  exists_updated, exists_never, exists, arith, Bool-cases, Bool,
}
use django_boilderplate.Notifications.{
  visible_one, not_found, set_read, is_unread, has_notification_pk, is_visible, mark_all_read,
  destroy, mark_read,
}

module _ (user : ℕ) (now : ℕ) where
  -- the update of `mark_all_read` at one row
  abbrev marked : Notification → Notification
  marked n = if is_visible now user n && is_unread n then set_read now n else n

  marked-read :
      (later : ℕ) (n : Notification)
      → now ≤ later
      → (is_visible later user (marked n) && is_unread (marked n)) ≡ false
  marked-read later n ahead = elim (Bool-cases (is_visible now user n && is_unread n)) [
    | inl e ↦ simp e (ground arith)
    | inr e ↦ simp e (ground (arith, e, ahead))
  ]

  marked-other :
      (other : ℕ) (p : Notification → Bool) (n : Notification)
      → (other == user) ≡ false
      → ((marked n).user == other && p (marked n)) ≡ (n.user == other && p n)
  marked-other other p n apart = elim (Bool-cases (is_visible now user n && is_unread n)) [
    | inl e ↦ simp e (ground (arith, e, apart))
    | inr e ↦ simp e
  ]

-- After `mark_all_read` none of the user's notifications that can be seen at that time or later is
-- unread, and those of another user are what they were, whatever is asked of them.
pub mark_all_read_lem :
    (user other later : ℕ) (p : Notification → Bool) (w : World)
    → w.now ≤ later
    → (other == user) ≡ false
    → let rows = (mark_all_read user w).1.db.notifications in
      (exists (λ n. is_visible later user n && is_unread n) rows ≡ false)
      × (exists (λ n. n.user == other && p n) rows
          ≡ exists (λ n. n.user == other && p n) w.db.notifications)
unfolding mark_all_read
mark_all_read_lem user other later p w ahead apart =
    let test : Notification → Bool = λ n. is_visible w.now user n && is_unread n in
    (
      exists_updated (λ n. is_visible later user n && is_unread n) (λ _. false) test
            (set_read w.now) w.db.notifications (λ n. marked-read user w.now later n ahead)
          ∙ exists_never (λ _. false) w.db.notifications (λ _. refl),
      exists_updated (λ n. n.user == other && p n) (λ n. n.user == other && p n) test
          (set_read w.now) w.db.notifications (λ n. marked-other user w.now other p n apart),
    )

-- A user changes no notification of another: where no notification with the key is the user's,
-- `mark_read` and `destroy` raise RESOURCE_NOT_FOUND and leave the state as it is.
pub mark_read_other :
    (user pk : ℕ) (w : World)
    → exists (λ n. n.user == user && has_notification_pk pk n) w.db.notifications ≡ false
    → (mark_read user pk w ≡ (err not_found, w)) × (destroy user pk w ≡ (err not_found, w))
unfolding mark_read destroy
mark_read_other user pk w none_own =
    let unseen = first-none (visible_one w.now user pk) w.db.notifications (
      exists_weaken (visible_one w.now user pk) (λ n. n.user == user && has_notification_pk pk n)
        w.db.notifications (λ n h. ground (arith, h)) none_own) in
    (simp unseen, simp unseen)
