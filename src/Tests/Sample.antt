-- ===== src/Tests/Sample.antt =====
-- A sample of what the program takes from outside, and a state of the server.
use django_boilderplate.World.{World, Db}
use django_boilderplate.Env.{Env, Settings, addresses, image}
use django_boilderplate.Prelude.{
  not, ◌∷◌, ◌==◌, ℕ, true, str_eq, some, none, if◌then◌else◌, false, [], String,
}
use Prim.Native.String.{◌++◌ as cat}
use django_boilderplate.Models.Accounts.{User, active}

abbrev pub sample_settings : Settings
sample_settings = record {
  app_env = "test";
  secret_key = "s";
  totp_encryption_key = "k";
  site_url = "http://localhost";
  trust_proxy_headers = false;
  trusted_proxy_ips = λ _. false;
  redis_enabled = false;
  cache_has_ttl = false;
  enable_two_factor = true;
  enable_webhooks = true;
  enable_api_keys = true;
  enable_notifications = true;
  api_key_pepper = "";
  app_name = "app";
  api_key_available_scopes = "profile.read" ∷ "profile.write" ∷ [];
  languages = "en" ∷ [];
  max_upload_size = 100;
  max_image_pixels = 50;
  audit_retention = 1;
  session_retention = 1;
  token_retention = 1;
  notification_retention = 1;
  file_retention = 1;
  login_max_attempts = 3;
  login_lockout_seconds = 300;
  login_max_backoff_seconds = 3600;
  password_reset_timeout = 3600;
}

abbrev number_text : ℕ → String
number_text n = if n == 0 then "a" else if n == 1 then "b" else if n == 2 then "c" else "d"

abbrev pub sample : Env
sample = record {
  settings = sample_settings;
  strip = λ s. s;
  casefold = λ s. s;
  upper = λ s. s;
  lower = λ s. s;
  without_dashes = λ s. s;
  first_2000 = λ s. s;
  first_255 = λ s. s;
  pk_text = number_text;
  pk_hex = number_text;
  isoformat = number_text;
  ip_address = λ s. some s;
  parse_user_agent =
      λ s. record { is_mobile = false; is_tablet = false; is_pc = true; browser = s; os = s };
  normalize_email = λ s. s;
  sha256 = λ s. cat "#" s;
  hmac_sha256 = λ key value. cat key (cat "|" value);
  fernet_encrypt = λ key n value. cat key value;
  fernet_decrypt = λ key value. some value;
  totp_verify = λ secret code now. str_eq code secret;
  provisioning_uri = λ secret email. cat secret email;
  make_password = λ n password. cat "!" password;
  unusable_password = λ n. "?";
  check_password = λ stored password. str_eq stored (cat "!" password);
  is_valid_password = λ _ _. true;
  mail_fails = λ _ _ _ _. false;
  is_valid_email = λ _. true;
  is_valid_username = λ _. true;
  random_token = number_text;
  random_hex = number_text;
  random_base32 = number_text;
  urlparse = λ s. some (record {
    scheme = "https";
    hostname = some s;
    username = none;
    password = none;
    bad_port = false;
    port = none;
  });
  getaddrinfo = λ host port now. addresses (host ∷ []);
  is_global = λ s. not (str_eq s "10.0.0.1");
  dumps_sorted = λ _. "{}";
  unix_time = number_text;
  post = λ url headers body now. some (200, body);
  suffix_of = λ name. name;
  guess_mime = λ content. some "image/png";
  open_image = λ content. image 5 5 true;
  file_digest = λ content. cat "#" content;
}

abbrev pub sample_user : User
sample_user = record {
  pk = 7;
  email = "u@example.org";
  username = "u";
  first_name = "";
  last_name = "";
  avatar = "";
  phone = "";
  status = active;
  email_verified_at = some 1;
  phone_verified_at = none;
  is_active = true;
  is_staff = false;
  is_superuser = false;
  password = "!pw";
  last_login = none;
  last_login_ip = none;
}

abbrev pub empty_db : Db
empty_db = record {
  users = sample_user ∷ [];
  profiles = [];
  preferences = [];
  security_settings = [];
  bans = [];
  tokens = [];
  user_sessions = [];
  sessions = [];
  credentials = [];
  recovery_codes = [];
  jwts = [];
  throttles = [];
  security_events = [];
  audit_logs = [];
  permissions = [];
  roles = [];
  role_permissions = [];
  user_roles = [];
  overrides = [];
  api_keys = [];
  runtime_settings = [];
  feature_flags = [];
  idempotency = [];
  stored_files = [];
  notifications = [];
  endpoints = [];
  webhook_events = [];
  deliveries = [];
}

-- the server with these rows
abbrev pub server : Db → World
server db = record {
  db = db;
  cache = [];
  settings_cache = [];
  now = 50;
  next_pk = 100;
  draws = 0;
  session_key = none;
  depth = 0;
  callbacks = [];
  effects = [];
}
