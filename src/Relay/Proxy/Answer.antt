-- ===== src/Relay/Proxy/Answer.antt =====
-- What the handler `proxy` of internal/api/relay.go answers and what it logs.
use code_agent_router.Prelude.{
  ℕ, Bool, true, false, ◌&&◌, Option, none, [], if◌then◌else◌, ltb, leb,
}
use code_agent_router.Prelude.Int.{ℤ, pos, ltb_ℤ}
use code_agent_router.Prelude.Int64.{add64}
use code_agent_router.Text.{Bytes, codes, str_eq}
use code_agent_router.Clock.{Time}
use code_agent_router.Model.{UpstreamKey}
use code_agent_router.Result.{Error, daily_quota, hourly_quota, hourly_exhausted}
use code_agent_router.Relay.Machine.{Response}
use code_agent_router.Relay.Next.{next_working_start}
use code_agent_router.Quota.{Engine}

-- The texts that the handler answers and logs, by what they say.
pub data Message : Type 0 where
  no_message rate_limit_exceeded daily_exceeded : Message
  hourly_exhausted_msg : (retry_at : Time) → Message
  rate_limit_retry : (seconds : ℕ) → Message
  failed_with : Error → Message
  client_disconnected upstream_error upstream_failed : Message

-- The fields of `report.Entry` that the handler decides.
pub record Entry : Type 0 where
  pub user_id : Bytes
  pub model : Bytes
  pub stream : Bool
  pub prompt_tokens : ℤ
  pub completion_tokens : ℤ
  pub total_tokens : ℤ
  pub upstream_key_id : Bytes
  pub route_type : Bytes
  pub status : ℕ
  pub error : Message

-- What the client gets: nothing, an error object (with a Retry-After of so many seconds, if there is
-- one), an upstream's failure, or its answer.
pub data Sent : Type 0 where
  nothing : Sent
  error_object : (status : ℕ) → Message → (retry_after : Option ℕ) → Sent
  passes : Response → Sent
  answers : Response → Sent

pub record Reply : Type 0 where
  pub sent : Sent
  pub entry : Entry

-- The arguments of `proxy`, with what it reads of the body and of the clock first.
pub record Request : Type 0 where
  pub user_id : Bytes
  pub model_name : Bytes
  pub stream : Bool
  pub inject_usage : Bool
  pub prompt_tokens : ℤ
  pub est_completion : ℤ
  pub now : Time

abbrev pub est_of : Request → ℤ
est_of r = add64 r.prompt_tokens r.est_completion

-- `routeType`
unfoldable pub route_type : Bytes → UpstreamKey → Bytes
route_type user_id key = if str_eq key.user_id user_id then codes "own" else codes "pool"

has_error : Message → Bool
has_error no_message = false
has_error m = true

-- `finish`: the entry that is written to the log.
unfoldable pub finish : Entry → (actual : ℤ) → (key_id route : Bytes) → Entry
unfolding has_error
finish e actual key_id route = record e {
  upstream_key_id = key_id;
  route_type = route;
  total_tokens = if ltb_ℤ (pos 0) actual then actual else e.total_tokens;
  status = if has_error e.error && leb 200 e.status && ltb e.status 300 then 502 else e.status;
}

-- An entry with a status and an error, as the handler's early returns log it.
abbrev pub failure : Request → ℕ → Message → Entry
failure r status error = record {
  user_id = r.user_id;
  model = r.model_name;
  stream = r.stream;
  prompt_tokens = pos 0;
  completion_tokens = pos 0;
  total_tokens = pos 0;
  upstream_key_id = [];
  route_type = [];
  status = status;
  error = error;
}

-- An error that is logged and answered with the same status and text, with no key.
unfoldable pub refuse : Request → ℕ → Message → Reply
unfolding finish
refuse r status msg = record {
  sent = error_object status msg none;
  entry = finish (failure r status msg) (pos 0) [] [];
}

-- The text for an error of `CheckAndReserve`.
unfoldable pub quota_message : Engine → (now : Time) → Error → Message
unfolding next_working_start
quota_message eng now daily_quota = daily_exceeded
quota_message eng now hourly_quota = hourly_exhausted_msg (next_working_start eng now)
quota_message eng now e = failed_with e

-- The status and the text for an error of `SelectKey`.
unfoldable pub select_failure : Engine → (now : Time) → Error → ℕ × Message
unfolding next_working_start
select_failure eng now hourly_exhausted = (429, hourly_exhausted_msg (next_working_start eng now))
select_failure eng now e = (502, failed_with e)
