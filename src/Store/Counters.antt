-- ===== src/Store/Counters.antt =====
-- The methods of internal/store/state.go on counters and routing. The values are int64, so sums and
-- differences wrap around.
use code_agent_router.Prelude.{Bool, not, ◌&&◌, ◌||◌, none, some, if◌then◌else◌, get_or}
use code_agent_router.Prelude.Int.{ℤ, pos, ltb_ℤ}
use code_agent_router.Prelude.Int64.{add64, sub64, max64}
use code_agent_router.Text.{Bytes}
use code_agent_router.Map.{Map, lookup, insert, values}
use code_agent_router.Clock.{Time, hour_start, day_start, same_instant, is_zero}
use code_agent_router.Model.{UpstreamKey, WindowCounter, UserCounters, zero_window, zero_counters}
use code_agent_router.Result.{
  Result, ok, err, user_not_found, daily_quota, hourly_quota, upstream_key_missing,
}
use code_agent_router.Router.{select}
use code_agent_router.Store.State.{Store, changed}

unfoldable pub ensure_window : WindowCounter → (start now : Time) → WindowCounter
ensure_window c start now =
    if not (same_instant c.window_start start) || is_zero c.window_start
    then record { window_start = start; value = pos 0 }
    else c

unfoldable pub window_value : WindowCounter → Time → ℤ
window_value c now =
    if not (is_zero c.window_start) && not (same_instant c.window_start (hour_start now))
    then pos 0
    else c.value

-- The counters of a user with both windows brought up to date.
unfoldable pub current : Bytes → Time → Store → UserCounters
current user_id now s =
    let hc : UserCounters = get_or zero_counters (lookup user_id s.counters) in
    record {
      hour = ensure_window hc.hour (hour_start now) now;
      day = ensure_window hc.day (day_start now) now;
    }

-- `s.state.Counters[userID] = hc`
unfoldable pub put_counters : Bytes → UserCounters → Store → Store
put_counters user_id hc s = record s {
  state = record s.state { counters = insert user_id hc s.counters };
}

-- `countersLocked`, and `UserCounters`, which only locks: they write the windows back.
unfoldable pub counters_locked : Bytes → Time → Store → UserCounters × Store
counters_locked user_id now s =
    let hc : UserCounters = current user_id now s in (hc, put_counters user_id hc s)

-- The counter of a key with its window brought up to date.
unfoldable pub key_current : Bytes → Time → Store → WindowCounter
key_current key_id now s =
    ensure_window (get_or zero_window (lookup key_id s.key_hours)) (hour_start now) now

-- `s.state.KeyHours[keyID] = c`
unfoldable pub put_key_hour : Bytes → WindowCounter → Store → Store
put_key_hour key_id c s = record s {
  state = record s.state { key_hours = insert key_id c s.key_hours };
}

-- `keyHourLocked`, and `KeyHourCounter`, which only locks.
unfoldable pub key_hour_locked : Bytes → Time → Store → WindowCounter × Store
key_hour_locked key_id now s =
    let c : WindowCounter = key_current key_id now s in (c, put_key_hour key_id c s)

-- `InFlight`
unfoldable pub in_flight_of : Bytes → Store → ℤ
in_flight_of key_id s = get_or (pos 0) (lookup key_id s.in_flight)

-- Both values plus the same amount.
unfoldable pub charge : UserCounters → ℤ → UserCounters
charge hc est = record {
  hour = record hc.hour { value = add64 hc.hour.value est };
  day = record hc.day { value = add64 hc.day.value est };
}

-- The gates and the reservation of `ReserveUser`, for a user who is there and enabled.
unfoldable pub gate_user :
    Bytes
    → (est hourly_limit daily_limit : ℤ) → (working : Bool) → UserCounters
    → Store
    → Result (Unit {0}) × Store
gate_user user_id est hourly_limit daily_limit working hc s =
    if ltb_ℤ (pos 0) daily_limit && ltb_ℤ daily_limit (add64 hc.day.value est)
    then (err daily_quota, s)
    else if working && ltb_ℤ (pos 0) hourly_limit && ltb_ℤ hourly_limit (add64 hc.hour.value est)
    then (err hourly_quota, s)
    else (ok tt, changed s (put_counters user_id (charge hc est) s).state)

unfoldable pub reserve_user :
    Bytes
    → (est hourly_limit daily_limit : ℤ) → (working : Bool) → (now : Time) → Store
    → Result (Unit {0}) × Store
reserve_user user_id est hourly_limit daily_limit working now s = elim (lookup user_id s.users) [
  | none ↦ (err user_not_found, s)
  | some u ↦
      if not u.enabled
      then (err user_not_found, s)
      else gate_user user_id est hourly_limit daily_limit working (current user_id now s) s
]

unfoldable pub release_user : Bytes → (est : ℤ) → (now : Time) → Store → Store
release_user user_id est now s =
    let (hc, s') = counters_locked user_id now s in
    changed s'
      (put_counters user_id
        (record {
          hour = record hc.hour { value = max64 (pos 0) (sub64 hc.hour.value est) };
          day = record hc.day { value = max64 (pos 0) (sub64 hc.day.value est) };
        })
        s').state

unfoldable pub settle_user : Bytes → (est actual : ℤ) → (now : Time) → Store → Store
settle_user user_id est actual now s =
    let (hc, s') = counters_locked user_id now s in
    let delta : ℤ = sub64 actual est in
    changed s'
      (put_counters user_id
        (record {
          hour = record hc.hour { value = max64 (pos 0) (add64 hc.hour.value delta) };
          day = record hc.day { value = max64 (pos 0) (add64 hc.day.value delta) };
        })
        s').state

-- `s.state.InFlight[keyID]++`
unfoldable pub start_flight : Bytes → Store → Store
start_flight key_id s = record s {
  state = record s.state {
    in_flight = insert key_id (add64 (in_flight_of key_id s) (pos 1)) s.in_flight;
  };
}

-- `if s.state.InFlight[keyID] > 0 { s.state.InFlight[keyID]-- }`
unfoldable pub end_flight : Bytes → Store → Store
end_flight key_id s =
    if ltb_ℤ (pos 0) (in_flight_of key_id s)
    then record s {
      state = record s.state {
        in_flight = insert key_id (sub64 (in_flight_of key_id s) (pos 1)) s.in_flight;
      };
    }
    else s

-- The gate and the reservation of `ReserveKey`, for a key that is there and enabled.
unfoldable pub gate_key :
    Bytes → (est limit : ℤ) → (working : Bool) → WindowCounter → Store → Result (Unit {0}) × Store
gate_key key_id est limit working c s =
    if working && ltb_ℤ (pos 0) limit && ltb_ℤ limit (add64 c.value est)
    then (err hourly_quota, s)
    else (
      ok tt,
      changed s
          (start_flight key_id
            (put_key_hour key_id (record c { value = add64 c.value est }) s)).state,
    )

unfoldable pub reserve_key :
    Bytes → (est limit : ℤ) → (working : Bool) → (now : Time) → Store → Result (Unit {0}) × Store
reserve_key key_id est limit working now s = elim (lookup key_id s.upstream_keys) [
  | none ↦ (err upstream_key_missing, s)
  | some k ↦
      let (c, s') = key_hour_locked key_id now s in
      if not k.enabled
      then (err upstream_key_missing, s)
      else gate_key key_id est limit working c s'
]

unfoldable pub release_key : Bytes → (est : ℤ) → (now : Time) → Store → Store
release_key key_id est now s =
    let (c, s') = key_hour_locked key_id now s in
    let c' : WindowCounter = record c { value = max64 (pos 0) (sub64 c.value est) } in
    changed s' (end_flight key_id (put_key_hour key_id c' s')).state

unfoldable pub settle_key : Bytes → (est actual : ℤ) → (now : Time) → Store → Store
settle_key key_id est actual now s =
    let (c, s') = key_hour_locked key_id now s in
    let c' : WindowCounter = record c {
      value = max64 (pos 0) (sub64 (add64 c.value actual) est);
    } in
    changed s' (end_flight key_id (put_key_hour key_id c' s')).state

-- `SelectKey`: the key is chosen, not reserved, under the lock.
unfoldable pub select_key :
    (user_id model_name : Bytes)
    → (working : Bool) → (default_hourly : ℤ) → (exclude : Map Bool) → (now : Time) → Store
    → Result UpstreamKey
select_key user_id model_name working default_hourly exclude now s =
    select
      (record {
        user_id = user_id;
        model_name = model_name;
        working = working;
        default_hourly = default_hourly;
        exclude = exclude;
        usage = λ id. window_value (get_or zero_window (lookup id s.key_hours)) now;
        in_flight = λ id. get_or (pos 0) (lookup id s.in_flight);
      })
      (values s.upstream_keys)
