-- ===== src/Store/Windows.antt =====
-- The counters of internal/store/state.go within one window: what a reservation, its release and its
-- settlement do to the value that the gates compare.
use code_agent_router.Prelude.{◌<◌, ◌≡◌, refl, ap, Bool, true, some, arith, get_or, subst, sym}
use code_agent_router.Prelude.Int.{ℤ, pos, ◌≤ℤ◌}
use code_agent_router.Prelude.Int64.{add64, sub64, max64}
use code_agent_router.Text.{Bytes, str_eq_refl}
use code_agent_router.Map.{lookup, lookup-insert}
use code_agent_router.Clock.{Time, hour_start, day_start}
use code_agent_router.Model.{WindowCounter, UserCounters, zero_counters}
use code_agent_router.Result.{ok}
use code_agent_router.Store.State.{Store, changed}
use code_agent_router.Store.Counters.{
  ensure_window, current, put_counters, counters_locked, charge, gate_user, reserve_user,
  release_user, settle_user,
}

-- A window that is up to date stays as it is at every later time in it.
ensure_window_again :
    (c : WindowCounter) (start now now' : Time) (v : ℤ)
    → 0 < start.instant
    → ensure_window (record (ensure_window c start now) { value = v }) start now'
      ≡ record (ensure_window c start now) { value = v }
unfolding ensure_window
ensure_window_again c start now now' v h = ground arith

-- The value of a user's day at a time.
abbrev pub day_value : Bytes → Time → Store → ℤ
day_value id now s = (current id now s).day.value

abbrev pub hour_value : Bytes → Time → Store → ℤ
hour_value id now s = (current id now s).hour.value

-- What the counters of a user read as once `hc` has been written.
read_back :
    (id : Bytes) (hc : UserCounters) (s : Store)
    → lookup id (put_counters id hc s).state.counters ≡ some hc
unfolding put_counters
read_back id hc s = rw (lookup-insert id id hc s.state.counters, str_eq_refl id)

-- After counters with the windows of `now` have been written, they read as written.
module _ (id : Bytes) (now now' : Time) (s : Store) (positive : 0 < (day_start now).instant)
    (same_day : day_start now' ≡ day_start now) where
  day_written :
      (hc : UserCounters) (v : ℤ) (t : Store)
      → hc.day ≡ record (current id now s).day { value = v }
      → day_value id now' (changed t (put_counters id hc t).state) ≡ v
  unfolding current changed
  day_written hc v t e = ground (
    arith,
    read_back id hc t,
    ap (λ c. c.value)
        (ensure_window_again (get_or zero_counters (lookup id s.counters)).day (day_start now) now
          now' v positive),
  )

module _ (id : Bytes) (now now' : Time) (s : Store) (positive : 0 < (hour_start now).instant)
    (same_hour : hour_start now' ≡ hour_start now) where
  hour_written :
      (hc : UserCounters) (v : ℤ) (t : Store)
      → hc.hour ≡ record (current id now s).hour { value = v }
      → hour_value id now' (changed t (put_counters id hc t).state) ≡ v
  unfolding current changed
  hour_written hc v t e = ground (
    arith,
    read_back id hc t,
    ap (λ c. c.value)
        (ensure_window_again (get_or zero_counters (lookup id s.counters)).hour (hour_start now) now
          now' v positive),
  )

-- What the gates have let through.
record IsWithin (hc : UserCounters) (est hourly daily : ℤ) (working : Bool) : Type 0 where
  day_ok : pos 1 ≤ℤ daily → add64 hc.day.value est ≤ℤ daily
  hour_ok : working ≡ true → pos 1 ≤ℤ hourly → add64 hc.hour.value est ≤ℤ hourly

gate_user-ok :
    (id : Bytes) (est hourly daily : ℤ) (working : Bool) (hc : UserCounters) (s : Store)
    {s' : Store}
    → gate_user id est hourly daily working hc s ≡ (ok tt, s')
    → IsWithin hc est hourly daily working
      × (s' ≡ changed s (put_counters id (charge hc est) s).state)
unfolding gate_user
gate_user-ok id est hourly daily working hc s e =
    (record { day_ok = λ h. ground arith; hour_ok = λ w h. ground arith }, ground arith)

reserve_user-ok :
    (id : Bytes) (est hourly daily : ℤ) (working : Bool) (now : Time) (s : Store) {s' : Store}
    → reserve_user id est hourly daily working now s ≡ (ok tt, s')
    → gate_user id est hourly daily working (current id now s) s ≡ (ok tt, s')
unfolding reserve_user
reserve_user-ok id est hourly daily working now s e = ground arith

-- `now'` lies in the hour and in the day of `now`, whose windows begin after the zero time.
pub record SameWindow (now now' : Time) : Type 0 where
  pub same_hour : hour_start now' ≡ hour_start now
  pub same_day : day_start now' ≡ day_start now
  pub hour_positive : 0 < (hour_start now).instant
  pub day_positive : 0 < (day_start now).instant

-- The counters of a user at `now'` after an operation that began with those of `s` at `now`.
pub record Reads (id : Bytes) (now' : Time) (s : Store) (hour_is day_is : ℤ) : Type 0 where
  pub hour_reads : hour_value id now' s ≡ hour_is
  pub day_reads : day_value id now' s ≡ day_is

written-Reads :
    (id : Bytes) (now now' : Time) (s t : Store) (hv dv : ℤ)
    → SameWindow now now'
    → let hc : UserCounters = record {
      hour = record (current id now s).hour { value = hv };
      day = record (current id now s).day { value = dv };
    } in
      Reads id now' (changed t (put_counters id hc t).state) hv dv
written-Reads id now now' s t hv dv w = record {
  hour_reads = hour_written id now now' s w.hour_positive w.same_hour _ hv t refl;
  day_reads = day_written id now now' s w.day_positive w.same_day _ dv t refl;
}

module _ (id : Bytes) (est : ℤ) (now now' : Time) (s : Store) (w : SameWindow now now') where
  -- A reservation that `ReserveUser` grants adds the estimate to the hour and to the day, and the
  -- results are within the limits that are set: the daily one, and in working hours the hourly one.
  pub reserve_user-Reads :
      (hourly daily : ℤ) (working : Bool) {s' : Store}
      → reserve_user id est hourly daily working now s ≡ (ok tt, s')
      → Reads id now' s' (add64 (hour_value id now s) est) (add64 (day_value id now s) est)
        × (pos 1 ≤ℤ daily → day_value id now' s' ≤ℤ daily)
        × (working ≡ true → pos 1 ≤ℤ hourly → hour_value id now' s' ≤ℤ hourly)
  unfolding charge
  reserve_user-Reads hourly daily working {s'} e =
      let (within, q) =
        gate_user-ok id est hourly daily working _ s
          (reserve_user-ok id est hourly daily working now s e) in
      let r : Reads id now' s' (add64 (hour_value id now s) est) (add64 (day_value id now s) est) =
        subst
          (λ t. Reads id now' t (add64 (hour_value id now s) est) (add64 (day_value id now s) est))
          (sym q) (written-Reads id now now' s s _ _ w) in
      (r, (λ h. rw r.day_reads (within.day_ok h)), (λ b h. rw r.hour_reads (within.hour_ok b h)))

  pub release_user-Reads :
      Reads id now'
        (release_user id est now s)
        (max64 (pos 0) (sub64 (hour_value id now s) est))
        (max64 (pos 0) (sub64 (day_value id now s) est))
  unfolding release_user counters_locked
  release_user-Reads = written-Reads id now now' s _ _ _ w

  -- `SettleUser` changes the hour and the day, as they read in the same window, by the actual tokens
  -- minus the estimate, in int64 arithmetic, and leaves no value below zero.
  pub settle_user-Reads :
      (actual : ℤ)
      → Reads id now'
          (settle_user id est actual now s)
          (max64 (pos 0) (add64 (hour_value id now s) (sub64 actual est)))
          (max64 (pos 0) (add64 (day_value id now s) (sub64 actual est)))
  unfolding settle_user counters_locked
  settle_user-Reads actual = written-Reads id now now' s _ _ _ w
