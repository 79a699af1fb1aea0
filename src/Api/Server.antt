-- ===== src/Api/Server.antt =====
-- The middleware of internal/api/server.go around the mux, and what a request comes to. The handlers
-- of /v1/ are those of Relay: a request that reaches one is handed on.
use code_agent_router.Api.Action.{
  ◌>>=◌, ◌>>◌, Action, Message, Flow, World, pure, goes, panic, read, answers, reject, found_or,
  panics, call_twice,
}
use code_agent_router.Api.Admin
use code_agent_router.Api.User
use code_agent_router.Prelude.{
  some, none, [], ◌∷◌, ℕ, Option, suc, if◌then◌else◌, ◌==◌, ◌%◌, drop, ◌/◌, ◌++◌, zero,
}
use code_agent_router.Api.Routes.{
  Method, AdminCall, route, RelayCall, to_delete_user, UserCall, Route, to_update_quota,
  user_update_key, relay_route, to_set_enabled, user_delete_key, admin_route, user_login,
  to_reset_password, user_route, user_me, to_create_access_key, user_list_keys, web,
  to_delete_access_key, user_create_key, to_list_user_keys, user_usage_of, to_create_key,
  user_monthly_report, to_update_key, to_delete_key, to_user_usage, to_user_report, to_login,
  to_list_users, to_create_user, to_key_pool, to_monthly_report,
}
use code_agent_router.Relay.Usage.{has_prefix}
use code_agent_router.Text.{Bytes, hex_digit, is_empty, trim_space, codes, str_eq}
use code_agent_router.Api.Shared.{Handler, Env, ReportQuery, text}
use code_agent_router.Auth.{Answer, require_admin, require_user, granted, refused}
use code_agent_router.Api.Views.{Payload}
use code_agent_router.Model.{Session, User}
use code_agent_router.Store.Users.{user_by_access_key, get_user}

-- `Authorization`, `X-Request-ID` and the remote address, with the parts that the mux and the handlers
-- read.
pub record HttpRequest : Type 0 where
  pub method : Method
  pub path : Bytes
  pub authorization : Bytes
  pub x_request_id : Bytes
  pub remote_addr : Bytes
  pub query : ReportQuery
  pub body : Bytes

-- `fails` is an error object of its status; `crashes` the one that the recovery from a panic sends.
pub data Served : Type 0 where
  replies : (status : ℕ) → Payload → Served
  fails : (status : ℕ) → Message → Served
  crashes : Served
  relays : RelayCall → (user_id : Bytes) → Served
  serves_file : (path : Bytes) → Served

-- `bearerToken`
unfoldable pub bearer_token : (authorization : Bytes) → Bytes
unfolding has_prefix trim_space
bearer_token h = if has_prefix (codes "Bearer ") h then trim_space (drop 7 h) else []

-- `splitHostPort`: what stands before the last colon and after it, if there is one.
unfoldable pub split_host_port : Bytes → Option (Bytes × Bytes)
split_host_port [] = none
split_host_port (c ∷ s) = elim (split_host_port s) [
  | some (host, port) ↦ some (c ∷ host, port)
  | none ↦ if c == 58 then some ([], s) else none
]

-- `clientIP`
unfoldable pub client_ip : (remote_addr : Bytes) → Bytes
unfolding split_host_port
client_ip addr = elim (split_host_port addr) [ none ↦ addr | some (host, port) ↦ host ]

-- `randHex`: the low hexadecimal digits of the clock's nanoseconds, the lowest first.
unfoldable pub rand_hex : (count now : ℕ) → Bytes
unfolding hex_digit
rand_hex zero now = []
rand_hex (suc n) now = hex_digit (now % 16) ∷ rand_hex n (now / 16)

-- `requestIDMiddleware`
unfoldable pub request_id : (header : Bytes) → (now : ℕ) → Bytes
unfolding rand_hex is_empty
request_id header now = if is_empty header then codes "req_" ++ rand_hex 12 now else header

abbrev pub replied : ℕ × Payload → Served
replied (status, payload) = replies status payload

abbrev pub then_replied : Handler → Action Served
then_replied handler = do answer ← handler; pure (replied answer)

-- What `requireAdmin`, `RequireUser` and the relay's check refuse is answered with 401.
abbrev pub granted_or : {A : Type 0} → Answer A → Message → Action A
granted_or (granted a) m = pure a
granted_or (refused e) m = reject 401 m

module _ (env : Env) (r : HttpRequest) where
  unfoldable pub serve_admin : AdminCall → Handler
  unfolding Admin.login Admin.list_users Admin.create_user Admin.delete_user Admin.update_quota
      Admin.set_enabled Admin.reset_password Admin.create_access_key Admin.delete_access_key
      Admin.key_pool Admin.list_user_keys Admin.create_key Admin.update_key Admin.delete_key
      Admin.user_usage Admin.monthly_report Admin.user_report
  serve_admin to_login = Admin.login env r.body
  serve_admin to_list_users = Admin.list_users env
  serve_admin to_create_user = Admin.create_user env r.body
  serve_admin (to_delete_user id) = Admin.delete_user env id
  serve_admin (to_update_quota id) = Admin.update_quota env id r.body
  serve_admin (to_set_enabled id) = Admin.set_enabled env id r.body
  serve_admin (to_reset_password id) = Admin.reset_password env id r.body
  serve_admin (to_create_access_key id) = Admin.create_access_key env id
  serve_admin (to_delete_access_key id key) = Admin.delete_access_key env id key
  serve_admin to_key_pool = Admin.key_pool env
  serve_admin (to_list_user_keys user_id) = Admin.list_user_keys env user_id
  serve_admin (to_create_key user_id) = Admin.create_key env user_id r.body
  serve_admin (to_update_key user_id key_id) = Admin.update_key env key_id r.body
  serve_admin (to_delete_key user_id key_id) = Admin.delete_key env key_id
  serve_admin (to_user_usage id) = Admin.user_usage env id
  serve_admin to_monthly_report = Admin.monthly_report env r.query
  serve_admin (to_user_report id) = Admin.user_report env id r.query

  unfoldable pub serve_user : Session → UserCall → Handler
  unfolding User.login User.me User.list_keys User.create_key User.update_key User.delete_key
      User.usage User.monthly_report
  serve_user session user_login = User.login env r.body
  serve_user session user_me = User.me env session
  serve_user session user_list_keys = User.list_keys env session
  serve_user session user_create_key = User.create_key env session r.body
  serve_user session (user_update_key key_id) = User.update_key env session key_id r.body
  serve_user session (user_delete_key key_id) = User.delete_key env session key_id
  serve_user session user_usage_of = User.usage env session
  serve_user session user_monthly_report = User.monthly_report env session r.query

  -- The login of users reads no session; the other handlers of users dereference it.
  abbrev pub with_session : Option Session → UserCall → Handler
  with_session session user_login = User.login env r.body
  with_session none c = panic
  with_session (some session) c = serve_user session c

  -- A handler of /v1/ reads an empty user id where the context has none.
  unfoldable pub serve_route : (user_id : Bytes) → Option Session → Route → Action Served
  unfolding serve_admin serve_user
  serve_route user_id session (relay_route c) = pure (relays c user_id)
  serve_route user_id session (admin_route c) = then_replied (serve_admin c)
  serve_route user_id session (user_route c) = then_replied (with_session session c)
  serve_route user_id session web = pure (serves_file r.path)

  -- `u == nil || !u.Enabled`
  abbrev enabled_user : Option User → Option User
  enabled_user none = none
  enabled_user (some u) = if u.enabled then some u else none

  -- `authenticate` of the relay.
  unfoldable pub relay_user : Action Bytes
  unfolding bearer_token user_by_access_key get_user
  relay_user = do
    let key : Bytes = bearer_token r.authorization
    owner ← read env.others (user_by_access_key key)
    id ← found_or owner 401 (text "invalid relay access key")
    user ← read env.others (get_user id)
    u ← found_or (enabled_user user) 401 (text "invalid relay access key")
    pure id

  -- `authenticate` of the administrators' and of the users' handlers.
  unfoldable pub admin_granted : Action (Unit {0})
  unfolding bearer_token require_admin
  admin_granted = do
    let token : Bytes = bearer_token r.authorization
    answer ← call_twice env.others (λ n. require_admin token (env.clock n))
    granted_or answer (text "admin authentication required")

  unfoldable pub user_session : Action Session
  unfolding bearer_token require_user
  user_session = do
    let token : Bytes = bearer_token r.authorization
    answer ← call_twice env.others (λ n. require_user token (env.clock n))
    granted_or answer (text "user authentication required")

  -- `routeMiddleware` around the mux.
  unfoldable pub route_middleware : Action Served
  unfolding route serve_route relay_user admin_granted user_session has_prefix str_eq
  route_middleware =
      let to : Route = route r.method r.path in
      if has_prefix (codes "/v1/") r.path
      then (do id ← relay_user; serve_route id none to)
      else if has_prefix (codes "/admin/") r.path
      then (if str_eq r.path (codes "/admin/login")
          then serve_route [] none to
          else (do admin_granted; serve_route [] none to))
      else if has_prefix (codes "/user/") r.path
      then (if str_eq r.path (codes "/user/login")
          then serve_route [] none to
          else (do session ← user_session; serve_route [] (some session) to))
      else serve_route [] none to

  -- `recoverMiddleware`, and the early returns.
  unfoldable pub recovered : Flow Served → Served
  recovered (goes served) = served
  recovered (answers status m) = fails status m
  recovered panics = crashes

  -- What `withMiddleware` makes of a request: the request's id, and the answer.
  unfoldable pub serve : World → (Bytes × Served) × World
  unfolding route_middleware recovered request_id
  serve w =
      let (flow, w') = route_middleware w in
      ((request_id r.x_request_id (env.clock w.locks).instant, recovered flow), w')
