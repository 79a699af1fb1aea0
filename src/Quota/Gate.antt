-- ===== src/Quota/Gate.antt =====
-- What `CheckAndReserve` of internal/quota/quota.go lets through.
use code_agent_router.Prelude.{◌≡◌, refl, true, Option, none, some}
use code_agent_router.Prelude.Int.{ℤ, pos, ◌≤ℤ◌}
use code_agent_router.Prelude.Int64.{add64}
use code_agent_router.Text.{Bytes}
use code_agent_router.Clock.{Time}
use code_agent_router.Model.{User}
use code_agent_router.Result.{ok}
use code_agent_router.Store.State.{Store}
use code_agent_router.Store.Users.{get_user}
use code_agent_router.Store.Windows.{hour_value, day_value, Reads, SameWindow, reserve_user-Reads}
use code_agent_router.Quota.{
  Engine, is_working_hour, hourly_limit, daily_limit, reserve_for, check_and_reserve,
}

-- A user who is there has the estimate on both counters, within that user's limits.
pub record IsAdmitted (e : Engine) (between : Store → Store) (id : Bytes) (est : ℤ)
    (now now' : Time) (s s' : Store) : Type 0 where
  pub user : User
  pub is_there : get_user id s ≡ some user
  pub reads :
      Reads id now' s'
        (add64 (hour_value id now (between s)) est)
        (add64 (day_value id now (between s)) est)
  pub day_limit : pos 1 ≤ℤ daily_limit e user → day_value id now' s' ≤ℤ daily_limit e user
  pub hour_limit :
      is_working_hour e now ≡ true
      → pos 1 ≤ℤ hourly_limit e user
      → hour_value id now' s' ≤ℤ hourly_limit e user

module _ (e : Engine) (between : Store → Store) (id : Bytes) (est : ℤ) (now now' : Time) (s : Store)
    (w : SameWindow now now') where
  reserve_for-IsAdmitted :
      (o : Option User) {s' : Store}
      → get_user id s ≡ o
      → reserve_for e id est now o (between s) ≡ (ok tt, s')
      → IsAdmitted e between id est now now' s s'
  unfolding reserve_for
  reserve_for-IsAdmitted none f h = cc
  reserve_for-IsAdmitted (some u) f h =
      let (r, d, o) =
        reserve_user-Reads id est now now' (between s) w (hourly_limit e u) (daily_limit e u)
          (is_working_hour e now) h in
      record { user = u; is_there = f; reads = r; day_limit = d; hour_limit = o }

  -- A request that `CheckAndReserve` lets through is that of a user who was there; whatever the other
  -- requests have done before the store was locked again, its estimate is on the hour and on the day,
  -- the day is within the user's daily limit, and in working hours the hour is within the user's
  -- hourly limit, where these are positive.
  pub check_and_reserve-IsAdmitted :
      {s' : Store}
      → check_and_reserve e between id est now s ≡ (ok tt, s')
      → IsAdmitted e between id est now now' s s'
  unfolding check_and_reserve
  check_and_reserve-IsAdmitted h = reserve_for-IsAdmitted (get_user id s) refl h
