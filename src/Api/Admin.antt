-- ===== src/Api/Admin.antt =====
-- The handlers of internal/api/admin.go, under their names. `body` is the request's body; identifiers
-- are the values that the mux finds in the path.

use code_agent_router.Store.Users
use code_agent_router.Api.Action.{
  ◌>>=◌, ◌>>◌, each, Message, Action, found_or, read, draw, call, of_error, deref, reject_if,
  or_reject, panic, pure, reject,
}
use code_agent_router.Prelude.{[], ℕ, if◌then◌else◌, ◌||◌, ◌++◌, get_or}
use code_agent_router.Result.{Error, Result, ok, err, username_taken, user_not_found}
use code_agent_router.Api.Shared.{
  Env, key_request, month_report, Handler, user_view, keys_reply, make_key, update_found,
  usage_reply, report_reply, report_for, text, key_view, ReportQuery, sent, patched,
}
use code_agent_router.Text.{Bytes, is_empty, trim_space, codes}
use code_agent_router.Auth.{Answer, login_admin, granted, refused, panicked}
use code_agent_router.Auth.Password.{hash_password}
use code_agent_router.Store.Users.{
  update_user_quota, add_access_key, get_user, set_user_enabled, update_user_password,
  remove_access_key,
}
use code_agent_router.Store.Keys.{
  list_upstream_keys, all_upstream_keys, get_upstream_key, delete_upstream_key,
}
use code_agent_router.Api.Views.{
  UserBody, token_of, users_of, user_of, access_key_of, key_of, created_user, succeeded,
}
use code_agent_router.Model.{User}
use code_agent_router.Prelude.Int.{ℤ, ltb_ℤ, pos}
use code_agent_router.Map.{lookup}

-- What the errors of `CreateUser`, `DeleteUser` and `CreateKey` are answered with.
unfoldable pub create_failure : Error → ℕ × Message
create_failure username_taken = (409, text "username already exists")
create_failure e = (500, of_error e)

unfoldable pub missing_user : Error → ℕ × Message
missing_user user_not_found = (404, text "user not found")
missing_user e = (500, of_error e)

-- `key, _ := …`
abbrev key_or_empty : Result Bytes → Bytes
key_or_empty (ok key) = key
key_or_empty (err e) = []

module _ (env : Env) where
  -- `LoginAdmin` and `LoginUser`, whose panic is one of the handler.
  abbrev pub logged_in : Answer Bytes → Handler
  logged_in (granted token) = sent 200 (token_of token)
  logged_in (refused panicked) = panic
  logged_in (refused e) = reject 401 (text "invalid username or password")

  unfoldable pub login : (body : Bytes) → Handler
  unfolding login_admin
  login body = do
    req ← found_or (env.decode.login_body body) 400 (text "invalid login body")
    answer ←
        call env.others
          (λ n s. login_admin env.manager req.username req.password (env.random n) (env.clock n) s)
    logged_in answer

  unfoldable pub list_users : Handler
  unfolding Users.list_users each user_view
  list_users = do
    users ← read env.others Users.list_users
    out ← each (user_view env) users
    sent 200 (users_of out)

  -- `auth.HashPassword`
  unfoldable pub hashed : (password : Bytes) → Action Bytes
  unfolding hash_password
  hashed password = do salt ← draw env.id_bytes; deref (hash_password env.hmac password salt)

  -- `if req.HourlyTokens > 0 { _ = a.store.UpdateUserQuota(…) }`; `CreateUser` of the store gives the
  -- handler a pointer to the user it has put in.
  unfoldable pub start_quota : UserBody → User → Action User
  unfolding update_user_quota
  start_quota req u =
      if ltb_ℤ (pos 0) req.hourly_tokens
      then (do
        set ← call env.others (λ n s. update_user_quota u.id req.hourly_tokens req.daily_tokens s)
        pure (record u { hourly_tokens = req.hourly_tokens; daily_tokens = req.daily_tokens }))
      else pure u

  -- The view is of the user as it then stands in the store.
  unfoldable pub create_user : (body : Bytes) → Handler
  unfolding Users.create_user start_quota add_access_key user_view trim_space is_empty hashed
      create_failure
  create_user body = do
    req ← found_or (env.decode.user_body body) 400 (text "invalid user body")
    let username : Bytes = trim_space req.username
    reject_if (is_empty username || is_empty req.password) 400
        (text "username and password are required")
    hash ← hashed req.password
    made ← call env.others (λ n s.
        Users.create_user username req.display_name hash req.enabled (env.id_bytes n) (env.clock n)
          s)
    u ← or_reject made create_failure
    u' ← start_quota req u
    key ← call env.others (λ n s. add_access_key u.id (env.id_bytes n) s)
    live ← read env.others (λ s. get_or u' (lookup u.id s.users))
    view ← user_view env live
    sent 201 (created_user view (key_or_empty key))

  unfoldable pub delete_user : (id : Bytes) → Handler
  unfolding Users.delete_user missing_user
  delete_user id = do
    gone ← call env.others (λ n s. Users.delete_user id s)
    or_reject gone missing_user
    sent 200 succeeded

  -- `a.userView(a.store.GetUser(id))`
  unfoldable pub user_reply : (id : Bytes) → Handler
  unfolding get_user user_view
  user_reply id = do
    found ← read env.others (get_user id)
    u ← deref found
    view ← user_view env u
    sent 200 (user_of view)

  unfoldable pub update_quota : (id body : Bytes) → Handler
  unfolding get_user update_user_quota user_reply
  update_quota id body = do
    req ← found_or (env.decode.quota_body body) 400 (text "invalid quota body")
    found ← read env.others (get_user id)
    u ← found_or found 404 (text "user not found")
    let hourly : ℤ = patched req.hourly_tokens u.hourly_tokens
    let daily : ℤ = patched req.daily_tokens u.daily_tokens
    set ← call env.others (λ n s. update_user_quota id hourly daily s)
    or_reject set (λ e. (500, of_error e))
    user_reply id

  unfoldable pub set_enabled : (id body : Bytes) → Handler
  unfolding set_user_enabled user_reply
  set_enabled id body = do
    enabled ← found_or (env.decode.enabled_body body) 400 (text "invalid body")
    set ← call env.others (λ n s. set_user_enabled id enabled s)
    or_reject set (λ e. (404, text "user not found"))
    user_reply id

  unfoldable pub reset_password : (id body : Bytes) → Handler
  unfolding update_user_password hashed is_empty trim_space
  reset_password id body = do
    password ← found_or (env.decode.password_body body) 400 (text "invalid body")
    reject_if (is_empty (trim_space password)) 400 (text "password is required")
    hash ← hashed password
    set ← call env.others (λ n s. update_user_password id hash s)
    or_reject set (λ e. (404, text "user not found"))
    sent 200 succeeded

  unfoldable pub create_access_key : (id : Bytes) → Handler
  unfolding add_access_key
  create_access_key id = do
    made ← call env.others (λ n s. add_access_key id (env.id_bytes n) s)
    key ← or_reject made (λ e. (404, text "user not found"))
    sent 201 (access_key_of key)

  unfoldable pub delete_access_key : (id key : Bytes) → Handler
  unfolding remove_access_key
  delete_access_key id key = do
    gone ← call env.others (λ n s. remove_access_key id key s)
    or_reject gone (λ e. (404, text "access key not found"))
    sent 200 succeeded

  unfoldable pub list_user_keys : (user_id : Bytes) → Handler
  unfolding list_upstream_keys keys_reply
  list_user_keys user_id = do
    keys ← read env.others (list_upstream_keys user_id)
    keys_reply env keys

  unfoldable pub key_pool : Handler
  unfolding all_upstream_keys keys_reply
  key_pool = do keys ← read env.others all_upstream_keys; keys_reply env keys

  unfoldable pub create_key : (user_id body : Bytes) → Handler
  unfolding key_request make_key missing_user key_view
  create_key user_id body = do
    req ← key_request env body
    made ← make_key env user_id req
    k ← or_reject made missing_user
    view ← key_view env k
    sent 201 (key_of view)

  unfoldable pub update_key : (key_id body : Bytes) → Handler
  unfolding get_upstream_key update_found
  update_key key_id body = do
    found ← read env.others (get_upstream_key key_id)
    k ← found_or found 404 (text "upstream key not found")
    update_found env key_id body k

  unfoldable pub delete_key : (key_id : Bytes) → Handler
  unfolding delete_upstream_key
  delete_key key_id = do
    gone ← call env.others (λ n s. delete_upstream_key key_id s)
    or_reject gone (λ e. (404, text "upstream key not found"))
    sent 200 succeeded

  unfoldable pub user_usage : (id : Bytes) → Handler
  unfolding get_user usage_reply
  user_usage id = do
    found ← read env.others (get_user id)
    u ← found_or found 404 (text "user not found")
    usage_reply env id u

  unfoldable pub monthly_report : ReportQuery → Handler
  unfolding month_report report_reply
  monthly_report q = do
    answer ← month_report env q.month
    report_reply q.csv (codes "report-" ++ (answer.0 ++ codes ".csv")) answer.1

  unfoldable pub user_report : (id : Bytes) → ReportQuery → Handler
  unfolding month_report report_for report_reply
  user_report id q = do
    answer ← month_report env q.month
    report_reply q.csv (codes "report-user-" ++ (id ++ (codes "-" ++ (answer.0 ++ codes ".csv"))))
        (report_for id answer.0 answer.1)
