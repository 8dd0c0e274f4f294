-- ===== src/Common/Network.antt =====
-- common/utils/network.py: the address of the client, and the parts of a request that the services
-- read.
use Prim.Native.Char.{code}
use django_boilderplate.Prelude.{
  String, Bool, false, ◌&&◌, Option, none, some, ◌==◌, str_eq, if◌then◌else◌,
}
use django_boilderplate.Env.{Env}

pub record Request : Type 0 where
  pub remote_addr : Option String
  pub forwarded_for : String
  pub user_agent : String
  pub request_id : String

-- `text.split(",")[0]`
unfoldable before_comma : String → String
before_comma String.[] = String.[]
before_comma (String.◌∷◌ c s) =
    let rest = before_comma s in if code c == 44 then String.[] else String.◌∷◌ c rest

module _ (env : Env) where
  abbrev is_trusted : Option String → Bool
  is_trusted none = false
  is_trusted (some remote) = env.settings.trusted_proxy_ips remote

  abbrev parsed : Option String → Option String
  parsed none = none
  parsed (some candidate) = if str_eq candidate "" then none else env.ip_address candidate

  unfoldable pub get_client_ip : Request → Option String
  unfolding before_comma
  get_client_ip request =
      if env.settings.trust_proxy_headers && is_trusted request.remote_addr
      then (if str_eq request.forwarded_for ""
          then parsed request.remote_addr
          else parsed (some (env.strip (before_comma request.forwarded_for))))
      else parsed request.remote_addr

  -- `get_client_ip(request) if request else None`
  abbrev pub ip_of : Option Request → Option String
  ip_of none = none
  ip_of (some r) = get_client_ip r

  -- `request.META.get("HTTP_USER_AGENT", "")[:2000] if request else ""`
  abbrev pub agent_of : Option Request → String
  agent_of none = ""
  agent_of (some r) = env.first_2000 r.user_agent

abbrev pub request_id_of : Option Request → String
request_id_of none = ""
request_id_of (some r) = r.request_id
