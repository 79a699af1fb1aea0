-- ===== src/Store/Frame.antt =====
-- What the counter methods of internal/store/state.go leave alone.
use code_agent_router.Prelude.{◌≡◌, refl, Bool, arith}
use code_agent_router.Prelude.Int.{ℤ}
use code_agent_router.Text.{Bytes}
use code_agent_router.Clock.{Time}
use code_agent_router.Store.State.{Store, changed}
use code_agent_router.Store.Counters.{
  gate_user, reserve_user, release_user, settle_user, gate_key, reserve_key, release_key,
  settle_key, put_counters, put_key_hour, counters_locked, key_hour_locked, start_flight,
  end_flight,
}

-- Users, access keys, upstream keys and sessions are the same.
pub record SameEntities (s t : Store) : Type 0 where
  pub same_users : t.users ≡ s.users
  pub same_access_keys : t.access_keys ≡ s.access_keys
  pub same_upstream_keys : t.upstream_keys ≡ s.upstream_keys
  pub same_sessions : t.sessions ≡ s.sessions

all_refl : (s : Store) → SameEntities s s
all_refl s = record {
  same_users = refl;
  same_access_keys = refl;
  same_upstream_keys = refl;
  same_sessions = refl;
}

pub reserve_user-SameEntities :
    (id : Bytes) (est hourly daily : ℤ) (working : Bool) (now : Time) (s : Store)
    → SameEntities s (reserve_user id est hourly daily working now s).1
unfolding reserve_user gate_user put_counters changed
reserve_user-SameEntities id est hourly daily working now s = ground arith

pub reserve_key-SameEntities :
    (id : Bytes) (est limit : ℤ) (working : Bool) (now : Time) (s : Store)
    → SameEntities s (reserve_key id est limit working now s).1
unfolding reserve_key gate_key key_hour_locked put_key_hour start_flight changed
reserve_key-SameEntities id est limit working now s = ground arith

pub release_user-SameEntities :
    (id : Bytes) (est : ℤ) (now : Time) (s : Store) → SameEntities s (release_user id est now s)
unfolding release_user counters_locked put_counters changed
release_user-SameEntities id est now s = record {
  same_users = refl;
  same_access_keys = refl;
  same_upstream_keys = refl;
  same_sessions = refl;
}

pub settle_user-SameEntities :
    (id : Bytes) (est actual : ℤ) (now : Time) (s : Store)
    → SameEntities s (settle_user id est actual now s)
unfolding settle_user counters_locked put_counters changed
settle_user-SameEntities id est actual now s = record {
  same_users = refl;
  same_access_keys = refl;
  same_upstream_keys = refl;
  same_sessions = refl;
}

end_flight-SameEntities : (id : Bytes) (s : Store) → SameEntities s (end_flight id s)
unfolding end_flight
end_flight-SameEntities id s = ground arith

pub release_key-SameEntities :
    (id : Bytes) (est : ℤ) (now : Time) (s : Store) → SameEntities s (release_key id est now s)
unfolding release_key key_hour_locked put_key_hour changed
release_key-SameEntities id est now s =
    let f = end_flight-SameEntities id _ in
    record {
      same_users = f.same_users;
      same_access_keys = f.same_access_keys;
      same_upstream_keys = f.same_upstream_keys;
      same_sessions = f.same_sessions;
    }

pub settle_key-SameEntities :
    (id : Bytes) (est actual : ℤ) (now : Time) (s : Store)
    → SameEntities s (settle_key id est actual now s)
unfolding settle_key key_hour_locked put_key_hour changed
settle_key-SameEntities id est actual now s =
    let f = end_flight-SameEntities id _ in
    record {
      same_users = f.same_users;
      same_access_keys = f.same_access_keys;
      same_upstream_keys = f.same_upstream_keys;
      same_sessions = f.same_sessions;
    }
