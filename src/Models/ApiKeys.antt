-- ===== src/Models/ApiKeys.antt =====
-- apps/api_keys/models.py: the keys of the programmatic interface, of which only digests are stored.
use django_boilderplate.Prelude.{ℕ, String, Bool, Option, List, ◌&&◌, is_none}
use django_boilderplate.Models.Accounts.{open_ended}

pub record ApiKey : Type 0 where
  pub pk : ℕ
  pub owner : ℕ
  pub name : String
  pub prefix : String
  pub key_hash : String
  pub scopes : List String
  pub last_used_at : Option ℕ
  pub last_used_ip : Option String
  pub expires_at : Option ℕ
  pub revoked_at : Option ℕ

-- `APIKey.is_active`
abbrev pub key_is_active : ℕ → ApiKey → Bool
key_is_active now k = is_none k.revoked_at && open_ended now k.expires_at
