-- ===== src/Env.antt =====
-- What the program takes from outside: the settings of config/settings, and the functions of
-- libraries that are not part of the repository (digests, encryption, one-time passwords, the
-- password hasher, the random source, Unicode text), each a field of one record.
use django_boilderplate.Prelude.{ℕ, String, Bool, Option, List}
use django_boilderplate.Common.Logging.{Value}
use django_boilderplate.Models.Accounts.{User}

pub record Settings : Type 0 where
  pub app_env : String
  pub secret_key : String
  pub totp_encryption_key : String
  pub site_url : String
  pub trust_proxy_headers : Bool
  pub trusted_proxy_ips : String → Bool
  pub redis_enabled : Bool
  -- whether the cache backend has the method `ttl`
  pub cache_has_ttl : Bool
  pub enable_two_factor : Bool
  pub enable_webhooks : Bool
  pub enable_api_keys : Bool
  pub enable_notifications : Bool
  pub api_key_pepper : String
  pub app_name : String
  pub api_key_available_scopes : List String
  pub languages : List String
  pub max_upload_size : ℕ
  pub max_image_pixels : ℕ
  -- days
  pub audit_retention : ℕ
  pub session_retention : ℕ
  pub token_retention : ℕ
  pub notification_retention : ℕ
  pub file_retention : ℕ
  pub login_max_attempts : ℕ
  pub login_lockout_seconds : ℕ
  pub login_max_backoff_seconds : ℕ
  pub password_reset_timeout : ℕ

-- What `user_agents.parse` reports.
pub record Agent : Type 0 where
  pub is_mobile : Bool
  pub is_tablet : Bool
  pub is_pc : Bool
  pub browser : String
  pub os : String

-- What `urllib.parse.urlparse` finds in an address; reading a bad port raises a ValueError.
pub record Url : Type 0 where
  pub scheme : String
  pub hostname : Option String
  pub username : Option String
  pub password : Option String
  pub bad_port : Bool
  pub port : Option ℕ

-- What `socket.getaddrinfo` gives: the addresses of a name, or a `gaierror`, or a `UnicodeError`.
pub data Resolved : Type 0 where
  addresses : List String → Resolved
  unresolved bad_name : Resolved

-- What Pillow makes of a file: an image of a size whose check succeeds or fails, or none.
pub data Image : Type 0 where
  image : (width height : ℕ) → (verified : Bool) → Image
  no_image : Image

pub record Env : Type 0 where
  pub settings : Settings
  -- `str.strip`, `str.casefold`, `str.upper` and the database's `LOWER`, over all of Unicode
  pub strip : String → String
  pub casefold : String → String
  pub upper : String → String
  pub lower : String → String
  -- `str.replace("-", "")`, `text[:2000]` and `text[:255]`
  pub without_dashes : String → String
  pub first_2000 : String → String
  pub first_255 : String → String
  -- `str` of a primary key, and its `hex`
  pub pk_text : ℕ → String
  pub pk_hex : ℕ → String
  -- `datetime.isoformat`
  pub isoformat : ℕ → String
  -- `ipaddress.ip_address`, printed again
  pub ip_address : String → Option String
  pub parse_user_agent : String → Agent
  -- `BaseUserManager.normalize_email` of Django
  pub normalize_email : String → String
  -- `hashlib.sha256(...).hexdigest()`, and `hmac.new(key, value, sha256).hexdigest()`
  pub sha256 : String → String
  pub hmac_sha256 : String → String → String
  -- Fernet: the key, a random draw, the text
  pub fernet_encrypt : String → ℕ → String → String
  pub fernet_decrypt : String → String → Option String
  -- `pyotp.TOTP(secret).verify(code, valid_window=1)` at an instant
  pub totp_verify : String → String → ℕ → Bool
  pub provisioning_uri : String → String → String
  -- the password hasher: a random salt and the password; the stored hash and the password
  pub make_password : ℕ → String → String
  pub unusable_password : ℕ → String
  pub check_password : String → String → Bool
  -- the validators of a password, and the user whose password it would be
  pub is_valid_password : Option User → String → Bool
  -- whether sending a mail at an instant raises: template, recipient and link
  pub mail_fails : String → String → String → ℕ → Bool
  -- model validation of an e-mail address and a user name
  pub is_valid_email : String → Bool
  pub is_valid_username : String → Bool
  -- the `n`-th draw of the `secrets` module, as `token_urlsafe`, `token_hex` or a base-32 secret
  pub random_token : ℕ → String
  pub random_hex : ℕ → String
  pub random_base32 : ℕ → String
  -- `urlparse` (`none` is a ValueError), `getaddrinfo` of a name and a port at an instant, and
  -- `ipaddress.ip_address(address).is_global`
  pub urlparse : String → Option Url
  pub getaddrinfo : String → ℕ → ℕ → Resolved
  pub is_global : String → Bool
  -- `json.dumps(value, separators=(",", ":"), sort_keys=True)` and `str(int(time.time()))`
  pub dumps_sorted : Value → String
  pub unix_time : ℕ → String
  -- `client.post`: the address, the headers, the body and the instant; the code of the response and
  -- its text up to 4096 characters, or an `httpx.HTTPError`
  pub post : String → List (String × String) → String → ℕ → Option (ℕ × String)
  -- `Path(name).suffix` without the dot and in lower case, the MIME type that `filetype.guess` finds in the
  -- first 262144 bytes,
  -- what Pillow reads of an image, and the digest over the chunks, all of the content of a file
  pub suffix_of : String → String
  pub guess_mime : String → Option String
  pub open_image : String → Image
  pub file_digest : String → String
