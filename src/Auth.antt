-- ===== src/Auth.antt =====
-- internal/auth/auth.go: the login of administrators and users, and the sessions of the web console.
-- Comparing in constant time is comparing; what is read of the clock and of the random source is an
-- argument.
pub mod Password
pub mod Sessions
mod Tests
use code_agent_router.Prelude.{
  Bool, true, false, not, ◌&&◌, ◌||◌, Option, none, some, [], if◌then◌else◌, ◌+◌,
}
use code_agent_router.Text.{Bytes, codes, str_eq, is_empty, hex_encode}
use code_agent_router.Clock.{Time, before, day}
use code_agent_router.Model.{User, Session}
use code_agent_router.Auth.Password.{verify_password}
use code_agent_router.Store.State.{Store}
use code_agent_router.Store.Users.{get_session, put_session, delete_session, get_user_by_username}

-- `ErrUnauthorized`, `ErrInvalidCredentials`, a failure of the random source, and a panic.
pub data Failure : Type 0 where
  unauthorized invalid_credentials no_entropy panicked : Failure

pub data Answer (A : Type 0) : Type 0 where
  granted : A → Answer A
  refused : Failure → Answer A

-- `Manager`, without its store.
pub record Manager : Type 0 where
  pub admin_user : Bytes
  pub admin_pass : Bytes

-- `time.Now().Add(sessionTTL)`
unfoldable pub expiry_of : Time → Time
expiry_of now = record now { instant = now.instant + day }

unfoldable pub new_session :
    (role user_id : Bytes) → (entropy : Option Bytes) → (now : Time) → Store → Answer Bytes × Store
unfolding expiry_of
new_session role user_id none now s = (refused no_entropy, s)
new_session role user_id (some bytes) now s =
    let token : Bytes = hex_encode bytes in
    (
      granted token,
      put_session token (record { role = role; user_id = user_id; expiry = expiry_of now }) s,
    )

unfoldable pub login_admin :
    Manager
    → (username password : Bytes) → (entropy : Option Bytes) → (now : Time) → Store
    → Answer Bytes × Store
unfolding new_session
login_admin m username password entropy now s =
    if not (str_eq username m.admin_user) || not (str_eq password m.admin_pass)
    then (refused invalid_credentials, s)
    else new_session (codes "admin") [] entropy now s

-- `LoginUser` with the result of `VerifyPassword`.
unfoldable pub login_verified :
    Option Bool → User → (entropy : Option Bytes) → (now : Time) → Store → Answer Bytes × Store
unfolding new_session
login_verified none u entropy now s = (refused panicked, s)
login_verified (some false) u entropy now s = (refused invalid_credentials, s)
login_verified (some true) u entropy now s = new_session (codes "user") u.id entropy now s

module _ (hmac : (key text : Bytes) → Bytes) where
  -- `LoginUser` once `GetUserByUsername` has returned.
  unfoldable pub login_found :
      Option User
      → (password : Bytes) → (entropy : Option Bytes) → (now : Time) → Store
      → Answer Bytes × Store
  unfolding login_verified verify_password
  login_found none password entropy now s = (refused invalid_credentials, s)
  login_found (some u) password entropy now s =
      if not u.enabled || is_empty u.password_hash
      then (refused invalid_credentials, s)
      else login_verified (verify_password hmac u.password_hash password) u entropy now s

  -- `LoginUser`. The session is put under a lock of its own: `between` is what other requests do to the
  -- store after the user has been read.
  unfoldable pub login_user :
      (username password : Bytes)
      → (entropy : Option Bytes) → (now : Time) → (between : Store → Store) → Store
      → Answer Bytes × Store
  unfolding login_found
  login_user username password entropy now between s =
      login_found (get_user_by_username username s) password entropy now (between s)

-- `Check` once `GetSession` has returned.
unfoldable pub check_found :
    Bytes
    → (now : Time) → (between : Store → Store) → Option Session
    → Store
    → Answer Session × Store
check_found token now between none s = (refused unauthorized, s)
check_found token now between (some sess) s =
    if before now sess.expiry
    then (granted sess, s)
    else (refused unauthorized, delete_session token (between s))

-- `Check`. The session is deleted under a lock of its own: `between` is what other requests do to the
-- store before it.
unfoldable pub check :
    Bytes → (now : Time) → (between : Store → Store) → Store → Answer Session × Store
unfolding check_found
check token now between s =
    if is_empty token
    then (refused unauthorized, s)
    else check_found token now between (get_session token s) s

-- What `RequireAdmin` and `RequireUser` make of the answer of `Check`.
unfoldable pub with_role : Bytes → Answer Session → Answer Session
with_role role (refused e) = refused e
with_role role (granted sess) =
    if not (str_eq sess.role role) then refused unauthorized else granted sess

-- `RequireAdmin` keeps no session.
unfoldable pub no_session : Answer Session → Answer (Unit {0})
no_session (refused e) = refused e
no_session (granted sess) = granted tt

unfoldable pub require_admin :
    Bytes → (now : Time) → (between : Store → Store) → Store → Answer (Unit {0}) × Store
unfolding check with_role no_session
require_admin token now between s =
    let (a, s') = check token now between s in (no_session (with_role (codes "admin") a), s')

unfoldable pub require_user :
    Bytes → (now : Time) → (between : Store → Store) → Store → Answer Session × Store
unfolding check with_role
require_user token now between s =
    let (a, s') = check token now between s in (with_role (codes "user") a, s')
