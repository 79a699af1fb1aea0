-- ===== src/Api/Strangers.antt =====
-- The upstream keys of a user under the requests of others that reach the handlers of
-- internal/api/user.go.
use code_agent_router.Api.Action.{◌>>=◌, World, call, pure, goes, call_twice}
use code_agent_router.Auth.{granted, refused, Answer}
use code_agent_router.Api.Owners.{Keeps}
use code_agent_router.Api.Isolation.{Holds, require_user-Holds}
use code_agent_router.Prelude.{
  refl, inl, inr, some, none, true, false, [], arith, ℕ, ◌≡◌, Option, ◌++◌, ◌+◌, ap, Bool-cases,
}
use code_agent_router.Api.Shared.{Env}
use code_agent_router.Text.{Bytes, str_eq, codes, is_empty}
use code_agent_router.Model.{UpstreamKey, Session}
use code_agent_router.Store.Users.{random_id}
use code_agent_router.Store.State.{Store}
use code_agent_router.Api.Server.{
  HttpRequest, serve_user, serve_route, user_session, serve, route_middleware, with_session,
  bearer_token,
}
use code_agent_router.Api.Routes.{
  UserCall, Route, user_route, route, user_update_key, user_delete_key, relay_route, user_login,
  admin_route, user_me, user_list_keys, web, user_create_key, user_usage_of, user_monthly_report,
}
use code_agent_router.Api.Private.{
  login-Keeps, me-Keeps, list_keys-Keeps, create_key-Keeps, update_key-Keeps, delete_key-Keeps,
  usage-Keeps, monthly_report-Keeps,
}
use code_agent_router.Api.Prefixes.{is_user}
use code_agent_router.Relay.Usage.{has_prefix}
use code_agent_router.Api.Kept.{panic-Does, bind-Does, pure-Does}
use code_agent_router.Api.Refused.{user_check, user_session-refused}
use code_agent_router.Api.Gate.{user_prefix}

module _ (env : Env) (i : Bytes) (k : UpstreamKey)
    (fresh : (n : ℕ) → str_eq (random_id (codes "k_") (env.id_bytes n)) i ≡ false)
    (keeps : (n : ℕ) (s : Store) → Holds i k s → Holds i k (env.others.others n s))
    (r : HttpRequest) where
  serve_user-Keeps :
      (session : Session) (c : UserCall)
      → str_eq k.user_id session.user_id ≡ false
      → Keeps env i k fresh keeps (serve_user env r session c)
  unfolding serve_user
  serve_user-Keeps session user_login e = login-Keeps env i k fresh keeps r.body
  serve_user-Keeps session user_me e = me-Keeps env i k fresh keeps session
  serve_user-Keeps session user_list_keys e = list_keys-Keeps env i k fresh keeps session
  serve_user-Keeps session user_create_key e = create_key-Keeps env i k fresh keeps session r.body
  serve_user-Keeps session (user_update_key key_id) e =
      update_key-Keeps env i k fresh keeps session e key_id r.body
  serve_user-Keeps session (user_delete_key key_id) e =
      delete_key-Keeps env i k fresh keeps session e key_id
  serve_user-Keeps session user_usage_of e = usage-Keeps env i k fresh keeps session e
  serve_user-Keeps session user_monthly_report e =
      monthly_report-Keeps env i k fresh keeps session e r.query

  -- The session that a request comes with, if any, is not that of the key's user.
  abbrev IsStranger : Option Session → Type 0
  IsStranger none = Unit
  IsStranger (some session) = str_eq k.user_id session.user_id ≡ false

  with_session-Keeps :
      (session : Option Session) (c : UserCall)
      → IsStranger session
      → Keeps env i k fresh keeps (with_session env r session c)
  with_session-Keeps session user_login e = login-Keeps env i k fresh keeps r.body
  with_session-Keeps none user_me e = panic-Does _
  with_session-Keeps none user_list_keys e = panic-Does _
  with_session-Keeps none user_create_key e = panic-Does _
  with_session-Keeps none (user_update_key key_id) e = panic-Does _
  with_session-Keeps none (user_delete_key key_id) e = panic-Does _
  with_session-Keeps none user_usage_of e = panic-Does _
  with_session-Keeps none user_monthly_report e = panic-Does _
  with_session-Keeps (some session) user_me e = serve_user-Keeps session user_me e
  with_session-Keeps (some session) user_list_keys e = serve_user-Keeps session user_list_keys e
  with_session-Keeps (some session) user_create_key e = serve_user-Keeps session user_create_key e
  with_session-Keeps (some session) (user_update_key key_id) e =
      serve_user-Keeps session (user_update_key key_id) e
  with_session-Keeps (some session) (user_delete_key key_id) e =
      serve_user-Keeps session (user_delete_key key_id) e
  with_session-Keeps (some session) user_usage_of e = serve_user-Keeps session user_usage_of e
  with_session-Keeps (some session) user_monthly_report e =
      serve_user-Keeps session user_monthly_report e

  serve_route-Keeps :
      (session : Option Session) (to : Route)
      → IsStranger session
      → is_user to ≡ true
      → Keeps env i k fresh keeps (serve_route env r [] session to)
  unfolding serve_route
  serve_route-Keeps session (user_route c) e h =
      bind-Does _ _ _ (with_session-Keeps session c e) (λ answer _. pure-Does _ _ tt)
  serve_route-Keeps session (relay_route c) e h = absurd (ground arith)
  serve_route-Keeps session (admin_route c) e h = absurd (ground arith)
  serve_route-Keeps session web e h = absurd (ground arith)

  module _ (w : World) where
    user_session-granted :
        {session : Session}
        → (user_check env r w).0 ≡ granted session
        → user_session env r w
          ≡ (goes session, record w { store = (user_check env r w).1; locks = w.locks + 2 })
    unfolding user_session ◌>>=◌ call pure call_twice is_empty
    user_session-granted e = rw (user_session, e) refl

    -- A request that the mux hands to a handler of users, the login among them, leaves every upstream
    -- key as it is that belongs to another user than the one whose session the request bears,
    -- whatever the method, the path, the token and the body. The identifiers that the random source
    -- makes are new, and the other requests leave the key alone; keys are filed under their
    -- identifiers.
    pub strangers_keep :
        is_user (route r.method r.path) ≡ true
        → ((session : Session)
            → (user_check env r w).0 ≡ granted session
            → str_eq k.user_id session.user_id ≡ false)
        → Holds i k w.store
        → Holds i k (serve env r w).1.store
    unfolding serve route_middleware has_prefix ◌>>=◌
    strangers_keep h stranger holds = elim (Bool-cases (str_eq r.path (codes "/user/login"))) [
      | inl login ↦
          rw (route_middleware, not_relay, not_admin, under, login)
            ((serve_route-Keeps none (route r.method r.path) tt h).runs w holds).0
      | inr q ↦ checked q (user_check env r w).0 refl
    ]
      where
        found : (tail : Bytes) × (r.path ≡ codes "/user/" ++ tail)
        found = user_prefix r.method r.path h

        not_relay : has_prefix (codes "/v1/") r.path ≡ false
        not_relay = ap (has_prefix (codes "/v1/")) found.1

        not_admin : has_prefix (codes "/admin/") r.path ≡ false
        not_admin = ap (has_prefix (codes "/admin/")) found.1

        under : has_prefix (codes "/user/") r.path ≡ true
        under = ap (has_prefix (codes "/user/")) found.1

        kept : Holds i k (user_check env r w).1
        kept =
            require_user-Holds i k (bearer_token r.authorization) (env.clock w.locks)
              (env.others.others (w.locks + 1)) _ (keeps (w.locks + 1))
              (keeps w.locks w.store holds)

        checked :
            str_eq r.path (codes "/user/login") ≡ false
            → (a : Answer Session) → (user_check env r w).0 ≡ a
            → Holds i k (serve env r w).1.store
        checked q (granted session) e =
            rw (route_middleware, not_relay, not_admin, under, q, user_session-granted e)
              ((serve_route-Keeps (some session) (route r.method r.path) (stranger session e)
                  h).runs
                _ kept).0
        checked q (refused failure) e =
            rw (route_middleware, not_relay, not_admin, under, q, user_session-refused env r w e)
              kept
