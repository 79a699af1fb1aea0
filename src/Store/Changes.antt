-- ===== src/Store/Changes.antt =====
-- The methods of internal/store/state.go that change the store, and histories of their calls.
use code_agent_router.Prelude.{Bool, Option, List}
use code_agent_router.Prelude.Int.{ℤ}
use code_agent_router.Text.{Bytes}
use code_agent_router.Clock.{Time}
use code_agent_router.Model.{UpstreamKey, Session}
use code_agent_router.Store.State.{Store, WriteOutcome, flush}
use code_agent_router.Store.Users.{
  create_user, update_user_quota, update_user_password, set_user_enabled, delete_user,
  add_access_key, remove_access_key, put_session, delete_session,
}
use code_agent_router.Store.Keys.{
  Gcm, create_upstream_key, replace_upstream_key, delete_upstream_key,
}
use code_agent_router.Store.Counters.{
  reserve_user, release_user, settle_user, reserve_key, release_key, settle_key,
}

-- One call of a method that changes the store; the outcome of the random source, the clock and the
-- disk is free.
pub data Change (s : Store) : Store → Type 0 where
  creates_user :
      (username display_name hash : Bytes) (enabled : Bool) (entropy : Bytes) (now : Time)
      → Change s (create_user username display_name hash enabled entropy now s).1
  sets_quota : (id : Bytes) (hourly daily : ℤ) → Change s (update_user_quota id hourly daily s).1
  sets_password : (id hash : Bytes) → Change s (update_user_password id hash s).1
  sets_enabled : (id : Bytes) (enabled : Bool) → Change s (set_user_enabled id enabled s).1
  deletes_user : (id : Bytes) → Change s (delete_user id s).1
  adds_access_key : (id entropy : Bytes) → Change s (add_access_key id entropy s).1
  removes_access_key : (id key : Bytes) → Change s (remove_access_key id key s).1
  puts_session : (token : Bytes) (sess : Session) → Change s (put_session token sess s)
  deletes_session : (token : Bytes) → Change s (delete_session token s)
  creates_key :
      (gcm : Gcm) (id name base_url api_key : Bytes) (models : List Bytes) (enabled : Bool)
      (hourly_limit : ℤ) (nonce : Option Bytes) (entropy : Bytes) (now : Time)
      → Change s
          (create_upstream_key gcm id name base_url api_key models enabled hourly_limit nonce
            entropy now s).1
  replaces_key : (k : UpstreamKey) → Change s (replace_upstream_key k s).1
  deletes_key : (id : Bytes) → Change s (delete_upstream_key id s).1
  reserves_user :
      (id : Bytes) (est hourly daily : ℤ) (working : Bool) (now : Time)
      → Change s (reserve_user id est hourly daily working now s).1
  releases_user : (id : Bytes) (est : ℤ) (now : Time) → Change s (release_user id est now s)
  settles_user :
      (id : Bytes) (est actual : ℤ) (now : Time) → Change s (settle_user id est actual now s)
  reserves_key :
      (id : Bytes) (est limit : ℤ) (working : Bool) (now : Time)
      → Change s (reserve_key id est limit working now s).1
  releases_key : (id : Bytes) (est : ℤ) (now : Time) → Change s (release_key id est now s)
  settles_key :
      (id : Bytes) (est actual : ℤ) (now : Time) → Change s (settle_key id est actual now s)
  flushes : (w : WriteOutcome) → Change s (flush w s).1

pub data Changes (s : Store) : Store → Type 0 where
  unchanged : Changes s s
  then_changed : {t u : Store} → Changes s t → Change t u → Changes s u
