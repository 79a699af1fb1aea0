-- ===== src/Config.antt =====
-- internal/config: the settings of the program, their defaults, and the parser of their file. The two
-- records are what the quota engine and the relay read.
pub mod Text
pub mod Yaml
pub mod Load
pub mod Valid
pub mod Fuel
pub mod Split
mod Tests
use code_agent_router.Prelude.Int.{ℤ}

-- An `int` of Go.
pub record WorkingHour : Type 0 where
  pub start : ℤ
  pub finish : ℤ

pub record QuotaConfig : Type 0 where
  pub default_hourly_tokens : ℤ
  pub default_daily_tokens : ℤ
  pub per_minute_requests : ℤ
