-- ===== src/Model.antt =====
-- The records of internal/model/model.go.
use code_agent_router.Prelude.{Bool, List}
use code_agent_router.Prelude.Int.{ℤ, pos}
use code_agent_router.Text.{Bytes}
use code_agent_router.Clock.{Time, zero_time}

pub record User : Type 0 where
  pub id : Bytes
  pub username : Bytes
  pub password_hash : Bytes
  pub display_name : Bytes
  pub created_at : Time
  pub enabled : Bool
  pub hourly_tokens : ℤ
  pub daily_tokens : ℤ

pub record UpstreamKey : Type 0 where
  pub id : Bytes
  pub user_id : Bytes
  pub name : Bytes
  pub base_url : Bytes
  pub api_key_enc : Bytes
  pub models : List Bytes
  pub enabled : Bool
  pub created_at : Time
  pub hourly_limit : ℤ

pub record WindowCounter : Type 0 where
  pub window_start : Time
  pub value : ℤ

pub record UserCounters : Type 0 where
  pub hour : WindowCounter
  pub day : WindowCounter

pub record Session : Type 0 where
  pub role : Bytes
  pub user_id : Bytes
  pub expiry : Time

-- What a read of a Go map gives for a key that is not there.
abbrev pub zero_window : WindowCounter
zero_window = record { window_start = zero_time; value = pos 0 }

abbrev pub zero_counters : UserCounters
zero_counters = record { hour = zero_window; day = zero_window }
