-- ===== src/Tests/Accounts.antt =====
-- Runs of the change of a user name and of a ban.
use django_boilderplate.Bans.Blocking.{ban-blocks}
use django_boilderplate.Audit.{record_audit}
use django_boilderplate.Authentication.Sessions.{revoke_each, revoke_all}
use django_boilderplate.Authentication.Accounts.{revoke_everything}
use django_boilderplate.Bans.{enforce_ban, finish_ban, create_ban, ban_locked, ban}
use django_boilderplate.Authentication.Tokens.{revoke_all_jwt, blacklist_each}
use django_boilderplate.Tests.Sample.{empty_db, sample, server, sample_user}
use django_boilderplate.World.{World}
use django_boilderplate.Models.Accounts.{can_authenticate_now, UserBan, User}
use django_boilderplate.Prelude.{some, false, arith, ◌≡◌, ◌∷◌, refl, none, []}

abbrev other_user : User
other_user = record sample_user { pk = 8; email = "v@example.org"; username = "v" }

abbrev two_users : World
two_users = server (record empty_db { users = sample_user ∷ other_user ∷ [] })

abbrev spam_ban : UserBan
spam_ban = record {
  pk = 100;
  user = 7;
  reason = "spam";
  banned_by = none;
  starts_at = 50;
  expires_at = some 90;
  revoked_at = none;
}

ban-blocks_example :
    can_authenticate_now 60
      (ban sample 7 "spam" none none (some 90) none two_users).1.db.bans
      sample_user
    ≡ false
unfolding ban ban_locked create_ban finish_ban enforce_ban revoke_everything revoke_all revoke_each
    revoke_all_jwt blacklist_each record_audit
ban-blocks_example =
    ban-blocks sample sample_user "spam" none none (some 90) none two_users spam_ban 60 refl
      (omega arith) refl
