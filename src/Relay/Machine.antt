-- ===== src/Relay/Machine.antt =====
-- The shared store as one request sees it: before each of its calls the other requests may change
-- the store in any way, and each call that reserves or gives back is noted.
use code_agent_router.Prelude.{ℕ, ◌+◌, Bool, Option, List, ◌∷◌, if◌then◌else◌}
use code_agent_router.Prelude.Int.{ℤ}
use code_agent_router.Text.{Bytes, is_empty}
use code_agent_router.Map.{Map}
use code_agent_router.Clock.{Time}
use code_agent_router.Json.{Fields}
use code_agent_router.Model.{UpstreamKey}
use code_agent_router.Result.{Result, ok, err}
use code_agent_router.Store.State.{Store}
use code_agent_router.Store.Counters.{select_key, reserve_key, release_key}
use code_agent_router.Quota
use code_agent_router.Quota.{Engine, check_and_reserve}

-- The body that is sent upstream: the client's, with usage asked for, or with the options removed.
pub data Sends : Type 0 where
  original injected stripped_options : Sends

-- An upstream's answer. `lines` are those that a stream is read in; `read_ok` tells whether the body
-- can be read to its end.
pub record Response : Type 0 where
  pub status : ℕ
  pub body : Bytes
  pub lines : List Bytes
  pub read_ok : Bool

-- What `Client.Do` comes to; `gone` tells whether the client's context has ended.
pub data Outcome : Type 0 where
  unreachable : (gone : Bool) → Outcome
  responds : Response → Outcome

-- What the request does not decide: the other requests, the clock at each lock, the upstreams, the
-- parser of encoding/json, and whether the client takes what is written.
pub record Env : Type 0 where
  pub others : ℕ → Store → Store
  pub clock : ℕ → Time
  pub upstream : ℕ → UpstreamKey → Sends → Outcome
  pub unmarshal : Bytes → Option Fields
  pub write_ok : ℕ → Bool

pub data Call : Type 0 where
  reserved_user released_user : ℤ → Call
  settled_user : (est actual : ℤ) → Call
  reserved_key released_key : Bytes → ℤ → Call
  settled_key : Bytes → (est actual : ℤ) → Call

-- `locks` and `dials` count the calls of the store and of the upstreams; `calls` is newest first.
pub record Machine : Type 0 where
  pub store : Store
  pub locks : ℕ
  pub dials : ℕ
  pub calls : List Call

module _ (env : Env) where
  -- The store that the next call finds.
  abbrev pub found : Machine → Store
  found m = env.others m.locks m.store

  -- The machine after a call of the store that is not noted.
  abbrev pub passed : Machine → Store → Machine
  passed m s = record m { store = s; locks = m.locks + 1 }

  -- The machine after a call of the store that is noted.
  abbrev pub noted : Call → Machine → Store → Machine
  noted c m s = record m { store = s; locks = m.locks + 1; calls = c ∷ m.calls }

  unfoldable pub do_select :
      (user_id model_name : Bytes)
      → (working : Bool) → (default_hourly : ℤ) → Map Bool
      → Machine
      → Result UpstreamKey × Machine
  do_select user_id model_name working default_hourly exclude m = (
    select_key user_id model_name working default_hourly exclude (env.clock m.locks) (found m),
    passed m (found m),
  )

  -- A reservation is noted if it is granted; `locks` is how often the store was locked.
  unfoldable pub note_user :
      (est : ℤ) → Machine → Result (Unit {0}) × Store → Result (Unit {0}) × Machine
  note_user est m (ok u, s) =
      (ok u, record m { store = s; locks = m.locks + 2; calls = reserved_user est ∷ m.calls })
  note_user est m (err x, s) = (err x, record m { store = s; locks = m.locks + 2 })

  unfoldable pub do_reserve_user :
      Engine → Bytes → (est : ℤ) → (now : Time) → Machine → Result (Unit {0}) × Machine
  unfolding note_user
  do_reserve_user e user_id est now m =
      note_user est m (check_and_reserve e (env.others (m.locks + 1)) user_id est now (found m))

  unfoldable pub note_key :
      Bytes → (est : ℤ) → Machine → Result (Unit {0}) × Store → Result (Unit {0}) × Machine
  note_key key_id est m (ok u, s) = (ok u, noted (reserved_key key_id est) m s)
  note_key key_id est m (err x, s) = (err x, passed m s)

  unfoldable pub do_reserve_key :
      Bytes → (est limit : ℤ) → (working : Bool) → Machine → Result (Unit {0}) × Machine
  unfolding note_key
  do_reserve_key key_id est limit working m =
      note_key key_id est m (reserve_key key_id est limit working (env.clock m.locks) (found m))

  -- `h.store.ReleaseKey`
  unfoldable pub do_release_key : Bytes → (est : ℤ) → Machine → Machine
  do_release_key key_id est m =
      noted (released_key key_id est) m (release_key key_id est (env.clock m.locks) (found m))

  -- The calls of `Engine.Release` and `Engine.Settle`, newest first.
  abbrev release_calls : (key_id : Bytes) → (est : ℤ) → List Call → List Call
  release_calls key_id est cs =
      if is_empty key_id
      then released_user est ∷ cs
      else released_key key_id est ∷ released_user est ∷ cs

  abbrev settle_calls : (key_id : Bytes) → (est actual : ℤ) → List Call → List Call
  settle_calls key_id est actual cs =
      if is_empty key_id
      then settled_user est actual ∷ cs
      else settled_key key_id est actual ∷ settled_user est actual ∷ cs

  -- `h.quota.Release`
  unfoldable pub do_release : (user_id key_id : Bytes) → (est : ℤ) → Machine → Machine
  do_release user_id key_id est m = record m {
    store =
        Quota.release (env.others (m.locks + 1)) user_id key_id est (env.clock m.locks)
          (env.clock (m.locks + 1)) (found m);
    locks = m.locks + 2;
    calls = release_calls key_id est m.calls;
  }

  -- `h.quota.Settle`
  unfoldable pub do_settle : (user_id key_id : Bytes) → (est actual : ℤ) → Machine → Machine
  do_settle user_id key_id est actual m = record m {
    store =
        Quota.settle (env.others (m.locks + 1)) user_id key_id est actual (env.clock m.locks)
          (env.clock (m.locks + 1)) (found m);
    locks = m.locks + 2;
    calls = settle_calls key_id est actual m.calls;
  }
