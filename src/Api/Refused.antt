-- ===== src/Api/Refused.antt =====
-- Requests that the middleware of internal/api/server.go turns away.
use code_agent_router.Api.Action.{◌>>=◌, ◌>>◌, World, Message, answers, reject, call_twice}
use code_agent_router.Prelude.{
  refl, inl, inr, true, false, arith, Bool, ◌≡◌, Bool-cases, subst, ◌+◌, ap,
}
use code_agent_router.Api.Routes.{
  Route, route, Method, admin_route, user_route, get, relay_route, to_login, user_login, post, web,
  put, delete, other_method, head,
}
use code_agent_router.Api.Shared.{Env, text}
use code_agent_router.Text.{codes, Bytes, str_eq, str_eq_iff, is_empty}
use code_agent_router.Api.Server.{
  HttpRequest, serve, route_middleware, fails, admin_granted, user_session, bearer_token, recovered,
}
use code_agent_router.Api.Prefixes.{is_admin, is_user}
use code_agent_router.Auth.{Answer, require_admin, require_user, Failure, refused}
use code_agent_router.Store.State.{Store}
use code_agent_router.Model.{Session}
use code_agent_router.Relay.Usage.{has_prefix}
use code_agent_router.Api.Gate.{admin_prefix, user_prefix}
use code_agent_router.Store.Users.{get_session}

-- The handlers of administrators but for the login.
abbrev pub behind_admin : Route → Bool
behind_admin (admin_route to_login) = false
behind_admin (admin_route c) = true
behind_admin other = false

-- The handlers of users but for the login.
abbrev pub behind_user : Route → Bool
behind_user (user_route user_login) = false
behind_user (user_route c) = true
behind_user other = false

behind-is_admin : (to : Route) → behind_admin to ≡ true → is_admin to ≡ true
behind-is_admin (admin_route c) h = refl
behind-is_admin (relay_route c) h = h
behind-is_admin (user_route c) h = h
behind-is_admin web h = h

behind-is_user : (to : Route) → behind_user to ≡ true → is_user to ≡ true
behind-is_user (user_route c) h = refl
behind-is_user (relay_route c) h = h
behind-is_user (admin_route c) h = h
behind-is_user web h = h

admin_login_passes : (method : Method) → behind_admin (route method (codes "/admin/login")) ≡ false
unfolding route str_eq
admin_login_passes get = refl
admin_login_passes post = refl
admin_login_passes put = refl
admin_login_passes delete = refl
admin_login_passes head = refl
admin_login_passes other_method = refl

admin_not_login :
    (method : Method) (path : Bytes)
    → behind_admin (route method path) ≡ true
    → str_eq path (codes "/admin/login") ≡ false
admin_not_login method path h = elim (Bool-cases (str_eq path (codes "/admin/login"))) [
  | inr e ↦ e
  | inl e ↦
      let p = (str_eq_iff path (codes "/admin/login")).0 e in
      let q = subst (λ s. behind_admin (route method s) ≡ true) p h in
      absurd (ground (arith, admin_login_passes method))
]

user_login_passes : (method : Method) → behind_user (route method (codes "/user/login")) ≡ false
unfolding route str_eq
user_login_passes get = refl
user_login_passes post = refl
user_login_passes put = refl
user_login_passes delete = refl
user_login_passes head = refl
user_login_passes other_method = refl

pub user_not_login :
    (method : Method) (path : Bytes)
    → behind_user (route method path) ≡ true
    → str_eq path (codes "/user/login") ≡ false
user_not_login method path h = elim (Bool-cases (str_eq path (codes "/user/login"))) [
  | inr e ↦ e
  | inl e ↦
      let p = (str_eq_iff path (codes "/user/login")).0 e in
      let q = subst (λ s. behind_user (route method s) ≡ true) p h in
      absurd (ground (arith, user_login_passes method))
]

module _ (env : Env) (r : HttpRequest) (w : World) where
  -- The check of the token, on the store that the middleware finds, and with what other requests do
  -- before an expired session is deleted.
  abbrev pub admin_check : Answer (Unit {0}) × Store
  admin_check =
      require_admin (bearer_token r.authorization) (env.clock w.locks)
        (env.others.others (w.locks + 1)) (env.others.others w.locks w.store)

  abbrev pub user_check : Answer Session × Store
  user_check =
      require_user (bearer_token r.authorization) (env.clock w.locks)
        (env.others.others (w.locks + 1)) (env.others.others w.locks w.store)

  -- A request that is turned away: the answer, and all that it has changed.
  pub record IsRefused (m : Message) (s : Store) : Type 0 where
    pub answer : (serve env r w).0.1 ≡ fails 401 m
    pub world : (serve env r w).1 ≡ record w { store = s; locks = w.locks + 2 }

  admin_granted-refused :
      {failure : Failure}
      → admin_check.0 ≡ refused failure
      → admin_granted env r w ≡ (
        answers 401 (text "admin authentication required"),
        record w { store = admin_check.1; locks = w.locks + 2 },
      )
  unfolding admin_granted reject ◌>>=◌ is_empty call_twice get_session
  admin_granted-refused k = rw (admin_granted, k) refl

  -- A request that the mux would hand to a handler of administrators, but for the login, and whose bearer
  -- token RequireAdmin refuses, is answered with 401 and changes nothing but what the check itself does to
  -- the store, whatever the method, the path, the body and the other requests.
  pub admin_refused :
      {failure : Failure}
      → behind_admin (route r.method r.path) ≡ true
      → admin_check.0 ≡ refused failure
      → IsRefused (text "admin authentication required") admin_check.1
  unfolding serve route_middleware admin_granted recovered has_prefix ◌>>=◌ ◌>>◌ call_twice reject
  admin_refused h k =
      let (tail, e) = admin_prefix r.method r.path (behind-is_admin (route r.method r.path) h) in
      let not_relay : has_prefix (codes "/v1/") r.path ≡ false = ap (has_prefix (codes "/v1/")) e in
      let under : has_prefix (codes "/admin/") r.path ≡ true =
        ap (has_prefix (codes "/admin/")) e in
      let not_login = admin_not_login r.method r.path h in
      record {
        answer = rw (route_middleware, not_relay, under, not_login, admin_granted-refused k) refl;
        world = rw (route_middleware, not_relay, under, not_login, admin_granted-refused k) refl;
      }

  pub user_session-refused :
      {failure : Failure}
      → user_check.0 ≡ refused failure
      → user_session env r w ≡ (
        answers 401 (text "user authentication required"),
        record w { store = user_check.1; locks = w.locks + 2 },
      )
  unfolding user_session reject ◌>>=◌ is_empty call_twice get_session
  user_session-refused k = rw (user_session, k) refl

  -- A request that the mux would hand to a handler of users, but for the login, and whose bearer
  -- token RequireUser refuses, is answered with 401 and changes nothing but what the check itself does to
  -- the store, whatever the method, the path, the body and the other requests.
  pub user_refused :
      {failure : Failure}
      → behind_user (route r.method r.path) ≡ true
      → user_check.0 ≡ refused failure
      → IsRefused (text "user authentication required") user_check.1
  unfolding serve route_middleware user_session recovered has_prefix ◌>>=◌ call_twice reject
  user_refused h k =
      let (tail, e) = user_prefix r.method r.path (behind-is_user (route r.method r.path) h) in
      let not_relay : has_prefix (codes "/v1/") r.path ≡ false = ap (has_prefix (codes "/v1/")) e in
      let not_admin : has_prefix (codes "/admin/") r.path ≡ false =
        ap (has_prefix (codes "/admin/")) e in
      let under : has_prefix (codes "/user/") r.path ≡ true = ap (has_prefix (codes "/user/")) e in
      let not_login = user_not_login r.method r.path h in
      record {
        answer =
            rw (route_middleware, not_relay, not_admin, under, not_login, user_session-refused k)
              refl;
        world =
            rw (route_middleware, not_relay, not_admin, under, not_login, user_session-refused k)
              refl;
      }
