-- ===== src/Config/Load.antt =====
-- `Parse` and `Load` of internal/config/config.go. The environment variables that main reads are not
-- part of it.
use code_agent_router.Prelude.{
  some, none, true, false, [], ◌∷◌, List, Option, Bool, if◌then◌else◌, not, get_or, ℕ, ◌||◌,
}
use code_agent_router.Text.{Bytes, codes, is_empty, trim_space}
use code_agent_router.Config.{QuotaConfig, WorkingHour}
use code_agent_router.Config.Yaml.{
  Heap, parse_yaml, node_at, Kind, Node, is_list, is_map, scalar_kind,
}
use code_agent_router.Prelude.Int.{pos, ℤ, ltb_ℤ}
use code_agent_router.Auth.Password.{atoi}
use code_agent_router.Map.{lookup}

pub record ServerConfig : Type 0 where
  pub addr : Bytes
  pub timezone : Bytes
  pub working_hours : List WorkingHour

pub record SecurityConfig : Type 0 where
  pub encrypt_key_env : Bytes
  pub encrypt_key : Bytes
  pub admin_username : Bytes
  pub admin_password_env : Bytes
  pub admin_password : Bytes

-- `Config`; `logging_dir` is the only field of `LoggingConfig`.
pub record Settings : Type 0 where
  pub server : ServerConfig
  pub quota : QuotaConfig
  pub security : SecurityConfig
  pub logging_dir : Bytes

-- `Default`
abbrev pub defaults : Settings
defaults = record {
  server = record {
    addr = codes "0.0.0.0:8080";
    timezone = codes "Asia/Shanghai";
    working_hours =
        record { start = pos 9; finish = pos 12 } ∷ record { start = pos 14; finish = pos 18 } ∷ [];
  };
  quota = record {
    default_hourly_tokens = pos 10_000_000;
    default_daily_tokens = pos 400_000_000;
    per_minute_requests = pos 10;
  };
  security = record {
    encrypt_key_env = codes "RELAY_ENCRYPT_KEY";
    encrypt_key = [];
    admin_username = codes "admin";
    admin_password_env = codes "RELAY_ADMIN_PASSWORD";
    admin_password = codes "admin123";
  };
  logging_dir = codes "logs";
}

module _ (h : Heap) where
  -- One step of `get`.
  unfoldable pub child_of : Bytes → Option Node → Option Node
  unfolding node_at lookup
  child_of key none = none
  child_of key (some x) =
      if is_map x.kind then elim (lookup key x.m) [ none ↦ none | some n ↦ node_at h n ] else none

  -- `get` on the root, with two keys.
  unfoldable pub setting : (part name : Bytes) → Option Node
  unfolding child_of node_at
  setting part name = child_of name (child_of part (node_at h 0))

  abbrev is_scalar : Kind → Bool
  is_scalar scalar_kind = true
  is_scalar other = false

  -- `asString`
  unfoldable pub as_string : Option Node → (fallback : Bytes) → Bytes
  as_string none fallback = fallback
  as_string (some x) fallback = if is_scalar x.kind then x.s else fallback

  -- `asInt` and `asInt64`, which agree where an int has 64 bits.
  unfoldable pub as_int : Option Node → (fallback : ℤ) → ℤ
  unfolding atoi
  as_int none fallback = fallback
  as_int (some x) fallback = if is_scalar x.kind then get_or fallback (atoi x.s) else fallback

  -- `hours`: the items that are maps.
  unfoldable pub hours_of : List ℕ → List WorkingHour
  unfolding child_of as_int node_at
  hours_of [] = []
  hours_of (n ∷ ns) =
      let rest : List WorkingHour = hours_of ns in
      let item : Option Node = node_at h n in
      let hour : WorkingHour = record {
        start = as_int (child_of (codes "start") item) (pos 0);
        finish = as_int (child_of (codes "end") item) (pos 0);
      } in
      elim item [ none ↦ rest | some x ↦ if is_map x.kind then hour ∷ rest else rest ]

  abbrev or_old : List WorkingHour → List WorkingHour → List WorkingHour
  or_old [] old = old
  or_old (x ∷ xs) old = x ∷ xs

  unfoldable pub apply_hours : Option Node → List WorkingHour → List WorkingHour
  unfolding hours_of
  apply_hours none old = old
  apply_hours (some x) old = if is_list x.kind then or_old (hours_of x.l) old else old

  -- `apply`
  unfoldable pub apply : Settings → Settings
  unfolding setting as_string as_int apply_hours
  apply c = record {
    server = record {
      addr = as_string (setting (codes "server") (codes "addr")) c.server.addr;
      timezone = as_string (setting (codes "server") (codes "timezone")) c.server.timezone;
      working_hours =
          apply_hours (setting (codes "server") (codes "working_hours")) c.server.working_hours;
    };
    quota = record {
      default_hourly_tokens =
          as_int (setting (codes "quota") (codes "default_hourly_tokens"))
            c.quota.default_hourly_tokens;
      default_daily_tokens =
          as_int (setting (codes "quota") (codes "default_daily_tokens"))
            c.quota.default_daily_tokens;
      per_minute_requests =
          as_int (setting (codes "quota") (codes "per_minute_requests"))
            c.quota.per_minute_requests;
    };
    security = record {
      encrypt_key_env =
          as_string (setting (codes "security") (codes "encrypt_key_env"))
            c.security.encrypt_key_env;
      encrypt_key =
          as_string (setting (codes "security") (codes "encrypt_key")) c.security.encrypt_key;
      admin_username =
          as_string (setting (codes "security") (codes "admin_username")) c.security.admin_username;
      admin_password_env =
          as_string (setting (codes "security") (codes "admin_password_env"))
            c.security.admin_password_env;
      admin_password =
          as_string (setting (codes "security") (codes "admin_password")) c.security.admin_password;
    };
    logging_dir = as_string (setting (codes "logging") (codes "dir")) c.logging_dir;
  }

-- `wh.Start < 0 || wh.End > 24 || wh.Start >= wh.End`
unfoldable pub bad_hours : WorkingHour → Bool
bad_hours wh =
    ltb_ℤ wh.start (pos 0) || (ltb_ℤ (pos 24) wh.finish || not (ltb_ℤ wh.start wh.finish))

unfoldable pub all_hours : List WorkingHour → Bool
unfolding bad_hours
all_hours [] = true
all_hours (wh ∷ whs) = if bad_hours wh then false else all_hours whs

-- `validate`; whether it finds no error.
unfoldable pub validate : Settings → Bool
unfolding all_hours is_empty trim_space
validate c =
    if is_empty (trim_space c.server.addr)
    then false
    else if not (all_hours c.server.working_hours)
    then false
    else if not (ltb_ℤ (pos 0) c.quota.default_hourly_tokens)
        || not (ltb_ℤ (pos 0) c.quota.default_daily_tokens)
    then false
    else if not (ltb_ℤ (pos 0) c.quota.per_minute_requests)
    then false
    else not (is_empty (trim_space c.security.admin_username))

unfoldable pub accepted : Settings → Option Settings
unfolding validate
accepted c = if validate c then some c else none

-- `Parse`
unfoldable pub parse_config : (data_bytes : Bytes) → Option Settings
unfolding parse_yaml apply accepted
parse_config data_bytes = elim (parse_yaml data_bytes) [
  | none ↦ none
  | some h ↦ accepted (apply h defaults)
]

-- What reading the file comes to.
pub data FileRead : Type 0 where
  contents : Bytes → FileRead
  no_file unreadable : FileRead

-- `Load`
unfoldable pub load_config : FileRead → Option Settings
unfolding parse_config
load_config (contents data_bytes) = parse_config data_bytes
load_config no_file = some defaults
load_config unreadable = none
