-- ===== src/Config/Database.antt =====
-- `build_database_config` of config/settings/database.py. The environment is a function of the names;
-- a path is its text, and the parser of database addresses is a parameter.
use django_boilderplate.World.{ok, improperly_configured, err, Result}
use django_boilderplate.Prelude.{◌||◌, str_eq, some, not, none, if◌then◌else◌, String, Option, Bool}

pub record DatabaseConfig : Type 0 where
  pub engine : String
  pub name : String
  pub user : String
  pub password : String
  pub host : String
  pub port : String
  pub conn_max_age : String

abbrev sqlite_engine : String
sqlite_engine = "django.db.backends.sqlite3"

abbrev postgres_engine : String
postgres_engine = "django.db.backends.postgresql"

-- `env(name, default=...)`
abbrev or_default : Option String → String → String
or_default none default = default
or_default (some v) default = v

module _ (strip lower : String → String) (absolute : String → String) (psycopg : Bool)
    (db_url : String → DatabaseConfig) (environ : String → Option String) where
  abbrev stripped : String → String → String
  stripped name default = strip (or_default (environ name) default)

  -- the branch of SQLite; `absolute` is the path under the base directory
  unfoldable sqlite_config : String → Result DatabaseConfig
  sqlite_config path =
      if str_eq path ""
      then err improperly_configured
      else ok (record {
        engine = sqlite_engine;
        name = if str_eq path ":memory:" then path else absolute path;
        user = "";
        password = "";
        host = "";
        port = "";
        conn_max_age = "0";
      })

  -- `database["CONN_MAX_AGE"] = ...`
  abbrev with_max_age : DatabaseConfig → DatabaseConfig
  with_max_age d = record d { conn_max_age = or_default (environ "DATABASE_CONN_MAX_AGE") "60" }

  -- the branch of PostgreSQL without an address
  unfoldable named_config : (name user : String) → Result DatabaseConfig
  named_config name user =
      if str_eq name "" || str_eq user ""
      then err improperly_configured
      else ok (
          with_max_age (record {
            engine = postgres_engine;
            name = name;
            user = user;
            password = or_default (environ "DB_PASSWORD") "";
            host = or_default (environ "DB_HOST") "localhost";
            port = or_default (environ "DB_PORT") "5432";
            conn_max_age = "";
          }))

  unfoldable postgres_config : (database_url : String) → Result DatabaseConfig
  unfolding named_config
  postgres_config database_url =
      if not psycopg
      then err improperly_configured
      else if str_eq database_url ""
      then named_config (stripped "DB_NAME" "") (stripped "DB_USER" "")
      else if not (str_eq (db_url database_url).engine postgres_engine)
      then err improperly_configured
      else ok (with_max_age (db_url database_url))

  abbrev is_sqlite : String → Bool
  is_sqlite e = str_eq e "sqlite" || str_eq e "sqlite3"

  abbrev is_postgres : String → Bool
  is_postgres e = str_eq e "postgres" || (str_eq e "postgresql" || str_eq e "postgresql_psycopg")

  unfoldable build_database_config : Result DatabaseConfig
  unfolding sqlite_config postgres_config
  build_database_config =
      let database_url = stripped "DATABASE_URL" "" in
      let selected =
        lower (
          stripped "DATABASE_ENGINE" (if str_eq database_url "" then "sqlite" else "postgresql")) in
      if is_sqlite selected
      then sqlite_config (stripped "SQLITE_PATH" "db.sqlite3")
      else if is_postgres selected
      then postgres_config database_url
      else err improperly_configured
