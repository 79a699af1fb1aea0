-- ===== src/Api/Views.antt =====
-- What goes in and out of the handlers of internal/api: the structs that bodies are decoded into, and
-- what the answers hold.
use code_agent_router.Text.{Bytes}
use code_agent_router.Prelude.{Option, Bool, List, ℕ}
use code_agent_router.Prelude.Int.{ℤ}
use code_agent_router.Clock.{Time}
use code_agent_router.Report.Rows.{Report}

pub record LoginBody : Type 0 where
  pub username : Bytes
  pub password : Bytes

pub record UserBody : Type 0 where
  pub username : Bytes
  pub display_name : Bytes
  pub password : Bytes
  pub enabled : Bool
  pub hourly_tokens : ℤ
  pub daily_tokens : ℤ

pub record QuotaBody : Type 0 where
  pub hourly_tokens : Option ℤ
  pub daily_tokens : Option ℤ

pub record KeyBody : Type 0 where
  pub name : Bytes
  pub base_url : Bytes
  pub api_key : Bytes
  pub models : List Bytes
  pub enabled : Bool
  pub hourly_limit : ℤ

pub record KeyPatch : Type 0 where
  pub name : Option Bytes
  pub base_url : Option Bytes
  pub api_key : Option Bytes
  pub models : Option (List Bytes)
  pub enabled : Option Bool
  pub hourly_limit : Option ℤ

-- encoding/json on the bodies.
pub record Decoder : Type 0 where
  pub login_body : Bytes → Option LoginBody
  pub user_body : Bytes → Option UserBody
  pub quota_body : Bytes → Option QuotaBody
  pub enabled_body : Bytes → Option Bool
  pub password_body : Bytes → Option Bytes
  pub key_body : Bytes → Option KeyBody
  pub key_patch : Bytes → Option KeyPatch

-- `userView`
pub record UserView : Type 0 where
  pub id : Bytes
  pub username : Bytes
  pub display_name : Bytes
  pub enabled : Bool
  pub created_at : Time
  pub hourly_tokens : ℤ
  pub daily_tokens : ℤ
  pub hourly_used : ℤ
  pub daily_used : ℤ
  pub access_keys : ℕ
  pub upstream_keys : ℕ

-- `keyView`
pub record KeyView : Type 0 where
  pub id : Bytes
  pub user_id : Bytes
  pub name : Bytes
  pub base_url : Bytes
  pub models : List Bytes
  pub enabled : Bool
  pub created_at : Time
  pub hourly_limit : ℤ
  pub has_key : Bool
  pub hourly_used : ℤ
  pub in_flight : ℤ

-- The map of the usage handlers.
pub record UsageView : Type 0 where
  pub user_id : Bytes
  pub hourly_used : ℤ
  pub hourly_limit : ℤ
  pub daily_used : ℤ
  pub daily_limit : ℤ
  pub working_hour : Bool
  pub per_minute_limit : ℤ

-- The map of `Me`.
pub record MeView : Type 0 where
  pub id : Bytes
  pub username : Bytes
  pub display_name : Bytes
  pub enabled : Bool
  pub hourly_tokens : ℤ
  pub daily_tokens : ℤ
  pub hourly_used : ℤ
  pub daily_used : ℤ
  pub hourly_limit : ℤ
  pub daily_limit : ℤ
  pub access_keys : List Bytes

-- The bodies of answers that are no errors; a report is sent as JSON or as CSV, with the name of the
-- file.
pub data Payload : Type 0 where
  token_of : Bytes → Payload
  succeeded : Payload
  users_of : List UserView → Payload
  user_of : UserView → Payload
  created_user : UserView → (access_key : Bytes) → Payload
  access_key_of : Bytes → Payload
  keys_of : List KeyView → Payload
  key_of : KeyView → Payload
  usage_of_user : UsageView → Payload
  me_of : MeView → Payload
  report_json : Report → Payload
  report_csv : (file : Bytes) → Report → Payload
