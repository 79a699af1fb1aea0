-- ===== src/Api/User.antt =====
-- The handlers of internal/api/user.go, under their names. `session` is the session that the
-- middleware has put into the request's context.
use code_agent_router.Api.Action.{
  ◌>>=◌, ◌>>◌, found_or, read, or_reject, of_error, call, call_twice,
}
use code_agent_router.Prelude.{some, none, Option, if◌then◌else◌, ◌++◌}
use code_agent_router.Api.Shared.{
  Env, key_request, month_report, keys_reply, make_key, update_found, usage_reply, report_for,
  Handler, counters, key_view, report_reply, ReportQuery, text, sent,
}
use code_agent_router.Auth.{login_user}
use code_agent_router.Store.Users.{get_user, list_access_keys}
use code_agent_router.Store.Keys.{list_upstream_keys, get_upstream_key, delete_upstream_key}
use code_agent_router.Model.{Session, UpstreamKey}
use code_agent_router.Text.{Bytes, str_eq, codes}
use code_agent_router.Quota.{hourly_limit, daily_limit}
use code_agent_router.Api.Admin.{logged_in}
use code_agent_router.Api.Views.{me_of, key_of, succeeded}

-- `k == nil || k.UserID != s.UserID`
unfoldable pub owned : (session : Session) → Option UpstreamKey → Option UpstreamKey
owned session none = none
owned session (some k) = if str_eq k.user_id session.user_id then some k else none

module _ (env : Env) where
  unfoldable pub login : (body : Bytes) → Handler
  unfolding login_user
  login body = do
    req ← found_or (env.decode.login_body body) 400 (text "invalid login body")
    answer ← call_twice env.others (λ n between s.
        login_user env.hmac req.username req.password (env.random n) (env.clock n) between s)
    logged_in env answer

  unfoldable pub me : (session : Session) → Handler
  unfolding get_user list_access_keys counters hourly_limit daily_limit
  me session = do
    found ← read env.others (get_user session.user_id)
    u ← found_or found 404 (text "user not found")
    keys ← read env.others (list_access_keys u.id)
    c ← counters env u.id
    sent 200 (
        me_of (record {
          id = u.id;
          username = u.username;
          display_name = u.display_name;
          enabled = u.enabled;
          hourly_tokens = u.hourly_tokens;
          daily_tokens = u.daily_tokens;
          hourly_used = c.hour.value;
          daily_used = c.day.value;
          hourly_limit = hourly_limit env.engine u;
          daily_limit = daily_limit env.engine u;
          access_keys = keys;
        }))

  unfoldable pub list_keys : (session : Session) → Handler
  unfolding list_upstream_keys keys_reply
  list_keys session = do
    keys ← read env.others (list_upstream_keys session.user_id)
    keys_reply env keys

  unfoldable pub create_key : (session : Session) → (body : Bytes) → Handler
  unfolding key_request make_key key_view
  create_key session body = do
    req ← key_request env body
    made ← make_key env session.user_id req
    k ← or_reject made (λ e. (500, of_error e))
    view ← key_view env k
    sent 201 (key_of view)

  unfoldable pub update_key : (session : Session) → (key_id body : Bytes) → Handler
  unfolding get_upstream_key owned update_found
  update_key session key_id body = do
    found ← read env.others (get_upstream_key key_id)
    k ← found_or (owned session found) 404 (text "upstream key not found")
    update_found env key_id body k

  unfoldable pub delete_key : (session : Session) → (key_id : Bytes) → Handler
  unfolding get_upstream_key owned delete_upstream_key
  delete_key session key_id = do
    found ← read env.others (get_upstream_key key_id)
    k ← found_or (owned session found) 404 (text "upstream key not found")
    gone ← call env.others (λ n s. delete_upstream_key key_id s)
    or_reject gone (λ e. (500, of_error e))
    sent 200 succeeded

  unfoldable pub usage : (session : Session) → Handler
  unfolding get_user usage_reply
  usage session = do
    found ← read env.others (get_user session.user_id)
    u ← found_or found 404 (text "user not found")
    usage_reply env u.id u

  unfoldable pub monthly_report : (session : Session) → ReportQuery → Handler
  unfolding month_report report_for report_reply
  monthly_report session q = do
    answer ← month_report env q.month
    let file : Bytes =
        codes "report-user-" ++ (session.user_id ++ (codes "-" ++ (answer.0 ++ codes ".csv")))
    report_reply q.csv file (report_for session.user_id answer.0 answer.1)
