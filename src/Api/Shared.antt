-- ===== src/Api/Shared.antt =====
-- What the handlers of internal/api/admin.go and user.go share.
use code_agent_router.Prelude.{
  some, none, true, false, [], ◌∷◌, Option, ℕ, Bool, if◌then◌else◌, List, ◌==◌, keep, length, ltb,
  take, ◌||◌,
}
use mathlib.Core.List.{reverse}
use code_agent_router.Api.Action.{
  ◌>>=◌, ◌>>◌, Others, Action, each, Message, pure, says, call, read, found_or, draw, reject_if,
  or_reject, of_error, deref, call_reports, of_report_error,
}
use code_agent_router.Text.{Bytes, is_empty, trim_space, codes, str_eq}
use Prim.Native.String.{String}
use code_agent_router.Api.Views.{
  KeyPatch, Payload, KeyBody, KeyView, report_csv, Decoder, UserView, report_json, keys_of,
  usage_of_user, key_of,
}
use code_agent_router.Store.Counters.{counters_locked, key_hour_locked, in_flight_of}
use code_agent_router.Store.Users.{list_access_keys}
use code_agent_router.Store.Keys.{
  create_upstream_key, encrypt, replace_upstream_key, list_upstream_keys, get_upstream_key, Gcm,
}
use code_agent_router.Quota.{hourly_limit, daily_limit, is_working_hour, Engine}
use code_agent_router.Clock.{Time}
use code_agent_router.Model.{UpstreamKey, UserCounters, User}
use code_agent_router.Report.Rows.{Report}
use code_agent_router.Report.Service.{monthly}
use code_agent_router.Result.{Result}
use code_agent_router.Report.Log.{Codec}
use code_agent_router.Prelude.Int.{ℤ}
use code_agent_router.Auth.{Manager}

-- What a handler reads besides its request: the other requests, the clock and the random source at
-- each lock, what crypto and encoding/json do, and the configuration.
pub record Env : Type 0 where
  pub others : Others
  pub clock : ℕ → Time
  pub today : ℕ → Bytes
  pub id_bytes : ℕ → Bytes
  pub random : ℕ → Option Bytes
  pub gcm : Gcm
  pub hmac : (key text : Bytes) → Bytes
  pub decode : Decoder
  pub codec : Codec
  pub tenths : (sum count : ℤ) → ℤ
  pub manager : Manager
  pub engine : Engine

-- The query of the reports: the month, empty if it is not given, and whether CSV is asked for.
pub record ReportQuery : Type 0 where
  pub month : Bytes
  pub csv : Bool

abbrev pub text : String → Message
text s = says (codes s)

-- `strings.TrimRight(s, "/")`
unfoldable pub drop_slashes : Bytes → Bytes
drop_slashes [] = []
drop_slashes (c ∷ s) = if c == 47 then drop_slashes s else c ∷ s

unfoldable pub trim_slashes : Bytes → Bytes
unfolding drop_slashes
trim_slashes s = reverse (drop_slashes (reverse s))

-- `if req.X != nil { updated.X = *req.X }`
abbrev pub patched : {A : Type 0} → Option A → A → A
patched none old = old
patched (some new) old = new

-- `updated` of the handlers `UpdateKey`, but for the API key.
unfoldable pub patch_key : KeyPatch → UpstreamKey → UpstreamKey
unfolding trim_slashes
patch_key p k = record k {
  name = patched p.name k.name;
  base_url = elim p.base_url [ none ↦ k.base_url | some url ↦ trim_slashes url ];
  models = patched p.models k.models;
  enabled = patched p.enabled k.enabled;
  hourly_limit = patched p.hourly_limit k.hourly_limit;
}

-- The rows of one user, with the summary of the whole report.
unfoldable pub report_for : (user_id : Bytes) → (month : Bytes) → Report → Report
report_for user_id month report = record {
  month = month;
  summary = report.summary;
  rows = keep (λ row. str_eq row.user_id user_id) report.rows;
}

abbrev pub sent : {A : Type 0} → (status : ℕ) → A → Action (ℕ × A)
sent status a = pure (status, a)

-- An answer that is no error.
abbrev pub Handler : Type 0
Handler = Action (ℕ × Payload)

unfoldable pub report_reply : (csv : Bool) → (file : Bytes) → Report → Handler
report_reply true file report = sent 200 (report_csv file report)
report_reply false file report = sent 200 (report_json report)

module _ (env : Env) where
  -- `UserCounters`
  unfoldable pub counters : Bytes → Action UserCounters
  unfolding counters_locked
  counters id = call env.others (λ n s. counters_locked id (env.clock n) s)

  -- `userView`
  unfoldable pub user_view : User → Action UserView
  unfolding counters list_access_keys list_upstream_keys
  user_view u = do
    c ← counters u.id
    access ← read env.others (list_access_keys u.id)
    keys ← read env.others (list_upstream_keys u.id)
    pure (record {
      id = u.id;
      username = u.username;
      display_name = u.display_name;
      enabled = u.enabled;
      created_at = u.created_at;
      hourly_tokens = u.hourly_tokens;
      daily_tokens = u.daily_tokens;
      hourly_used = c.hour.value;
      daily_used = c.day.value;
      access_keys = length access;
      upstream_keys = length keys;
    })

  -- `keyView`
  unfoldable pub key_view : UpstreamKey → Action KeyView
  unfolding key_hour_locked in_flight_of
  key_view k = do
    used ← call env.others (λ n s. key_hour_locked k.id (env.clock n) s)
    flying ← read env.others (in_flight_of k.id)
    pure (record {
      id = k.id;
      user_id = k.user_id;
      name = k.name;
      base_url = k.base_url;
      models = k.models;
      enabled = k.enabled;
      created_at = k.created_at;
      hourly_limit = k.hourly_limit;
      has_key = ltb 0 (length k.api_key_enc);
      hourly_used = used.value;
      in_flight = flying;
    })

  -- The views of a list of keys.
  unfoldable pub keys_reply : List UpstreamKey → Handler
  unfolding each key_view
  keys_reply ks = do out ← each key_view ks; sent 200 (keys_of out)

  -- `CreateUpstreamKey` with the arguments that both handlers `CreateKey` give it.
  unfoldable pub make_key : (user_id : Bytes) → KeyBody → Action (Result UpstreamKey)
  unfolding create_upstream_key trim_slashes
  make_key user_id req = call env.others (λ n s.
      create_upstream_key env.gcm user_id req.name (trim_slashes req.base_url) req.api_key
        req.models req.enabled req.hourly_limit (env.random n) (env.id_bytes n) (env.clock n) s)

  -- The checks of both handlers `CreateKey`.
  unfoldable pub key_request : (body : Bytes) → Action KeyBody
  unfolding is_empty trim_space
  key_request body = do
    req ← found_or (env.decode.key_body body) 400 (text "invalid key body")
    reject_if (is_empty (trim_space req.base_url) || is_empty (trim_space req.api_key)) 400
        (text "base_url and api_key are required")
    pure req

  -- `Encrypt`; the random source is read without a lock.
  unfoldable pub seal_key : Option Bytes → UpstreamKey → Action UpstreamKey
  unfolding encrypt
  seal_key none k = pure k
  seal_key (some plain) k = do
    nonce ← draw env.random
    enc ← or_reject (encrypt env.gcm nonce plain) (λ e. (500, of_error e))
    pure (record k { api_key_enc = enc })

  -- The handlers `UpdateKey` from the decoding of the body on.
  unfoldable pub update_found : (key_id body : Bytes) → UpstreamKey → Handler
  unfolding patch_key seal_key replace_upstream_key get_upstream_key key_view
  update_found key_id body k = do
    req ← found_or (env.decode.key_patch body) 400 (text "invalid body")
    updated ← seal_key req.api_key (patch_key req k)
    replaced ← call env.others (λ n s. replace_upstream_key updated s)
    or_reject replaced (λ e. (404, text "upstream key not found"))
    after ← read env.others (get_upstream_key key_id)
    k' ← deref after
    view ← key_view k'
    sent 200 (key_of view)

  -- The answer of `UserUsage` and `Usage` for a user who is there.
  unfoldable pub usage_reply : (id : Bytes) → User → Handler
  unfolding counters hourly_limit daily_limit is_working_hour
  usage_reply id u = do
    c ← counters id
    now ← draw env.clock
    sent 200 (
        usage_of_user (record {
          user_id = id;
          hourly_used = c.hour.value;
          hourly_limit = hourly_limit env.engine u;
          daily_used = c.day.value;
          daily_limit = daily_limit env.engine u;
          working_hour = is_working_hour env.engine now;
          per_minute_limit = env.engine.quota.per_minute_requests;
        }))

  -- `Monthly` for the month of the query, which is the current one if it is not given.
  unfoldable pub month_report : (month : Bytes) → Action (Bytes × Report)
  unfolding is_empty monthly
  month_report asked = do
    today ← draw env.today
    let month = if is_empty asked then take 7 today else asked
    answer ← call_reports env.others (λ n r. monthly env.tenths env.codec (env.today n) month r)
    report ← found_or answer 500 of_report_error
    pure (month, report)
