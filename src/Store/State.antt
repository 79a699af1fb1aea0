-- ===== src/Store/State.antt =====
-- The types `State` and `Store` of internal/store/state.go, the debounced save, and `New`, `load`
-- and `Flush`. The state file holds the state that its JSON text encodes.
use code_agent_router.Prelude.{Bool, true, false, Option, none, some, [], if◌then◌else◌, not}
use code_agent_router.Prelude.Int.{ℤ}
use code_agent_router.Text.{Bytes}
use code_agent_router.Map.{Map}
use code_agent_router.Model.{User, UpstreamKey, WindowCounter, UserCounters, Session}
use code_agent_router.Result.{Result, ok, err, io_failure}

pub record State : Type 0 where
  pub users : Map User
  pub access_keys : Map Bytes
  pub upstream_keys : Map UpstreamKey
  pub counters : Map UserCounters
  pub key_hours : Map WindowCounter
  pub sessions : Map Session
  pub in_flight : Map ℤ

-- `freshState`
abbrev pub fresh_state : State
fresh_state = record {
  users = [];
  access_keys = [];
  upstream_keys = [];
  counters = [];
  key_hours = [];
  sessions = [];
  in_flight = [];
}

-- `timer` tells whether the debounce timer is armed, `file` what the state file holds.
pub record Store : Type 0 where
  pub state : State
  pub open state use *
  pub dirty : Bool
  pub timer : Bool
  pub file : Option State

-- `scheduleSaveLocked`
unfoldable pub schedule_save_locked : Store → Store
schedule_save_locked s = record s { dirty = true; timer = true }

-- `markDirtyLocked`
unfoldable pub mark_dirty_locked : Store → Store
unfolding schedule_save_locked
mark_dirty_locked s = schedule_save_locked (record s { dirty = true })

-- A method that changes the state and marks it dirty.
unfoldable pub changed : Store → State → Store
unfolding mark_dirty_locked
changed s st = mark_dirty_locked (record s { state = st })

-- What reading the state file comes to: the file is missing, cannot be read, is not the JSON text of
-- a state, or holds one.
pub data ReadOutcome : Type 0 where
  missing unreadable malformed : ReadOutcome
  holds : State → ReadOutcome

-- `load`: the requests in flight are not persisted.
unfoldable pub load : ReadOutcome → Result (Option State)
load missing = ok none
load unreadable = err io_failure
load malformed = err io_failure
load (holds st) = ok (some (record st { in_flight = [] }))

-- What the file holds after a read with that outcome.
abbrev pub held : ReadOutcome → Option State
held (holds st) = some st
held _ = none

abbrev pub or_fresh : Option State → State
or_fresh none = fresh_state
or_fresh (some st) = st

-- `New`
unfoldable pub new : ReadOutcome → Result Store
unfolding load
new r = elim (load r) [
  | err e ↦ err e
  | ok st ↦ ok (record { state = or_fresh st; dirty = false; timer = false; file = held r })
]

-- Where `Flush` fails, if it does: before the rename, or at it.
pub data WriteOutcome : Type 0 where
  written marshal_fails mkdir_fails write_fails rename_fails : WriteOutcome

-- What the JSON text of a state keeps.
abbrev pub persisted : State → State
persisted st = record st { in_flight = [] }

-- The part of `Flush` behind the test of `dirty`.
unfoldable pub save : WriteOutcome → Store → Result (Unit {0}) × Store
save written s = (ok tt, record s { file = some (persisted s.state); dirty = false })
save _ s = (err io_failure, s)

unfoldable pub flush : WriteOutcome → Store → Result (Unit {0}) × Store
unfolding save
flush w s =
    let s' : Store = record s { timer = false } in if not s.dirty then (ok tt, s') else save w s'
