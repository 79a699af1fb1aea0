-- ===== src/Quota/Tests.antt =====
-- A request at the gate of internal/quota/quota.go.
use code_agent_router.Prelude.{◌≡◌, refl, true, false, none, [], ◌∷◌, ◌+◌, arith}
use code_agent_router.Prelude.Int.{pos, ◌+ℤ◌}
use code_agent_router.Prelude.Int64.{add64}
use code_agent_router.Text.{codes, str_eq}
use code_agent_router.Map.{lookup}
use code_agent_router.Clock.{Time, zero_time, day, hour, hour_start, day_start, hour_of}
use code_agent_router.Model.{User}
use code_agent_router.Result.{ok}
use code_agent_router.Store.State.{Store, fresh_state}
use code_agent_router.Store.Users.{get_user}
use code_agent_router.Store.Counters.{reserve_user, gate_user, current, charge, ensure_window}
use code_agent_router.Store.Windows.{SameWindow}
use code_agent_router.Quota.{
  Engine, any_range, in_range, is_working_hour, hourly_limit, daily_limit, reserve_for,
  check_and_reserve,
}
use code_agent_router.Quota.Gate.{IsAdmitted, check_and_reserve-IsAdmitted}

abbrev alice : User
alice = record {
  id = codes "u_1";
  username = codes "alice";
  password_hash = [];
  display_name = [];
  created_at = zero_time;
  enabled = true;
  hourly_tokens = pos 0;
  daily_tokens = pos 500;
}

abbrev store : Store
store = record {
  state = record fresh_state { users = (codes "u_1", alice) ∷ [] };
  dirty = false;
  timer = false;
  file = none;
}

abbrev engine : Engine
engine = record {
  working_hours = record { start = pos 0; finish = pos 24 } ∷ [];
  quota = record {
    default_hourly_tokens = pos 1000;
    default_daily_tokens = pos 1000;
    per_minute_requests = pos 10;
  };
  loc = 0;
}

abbrev now : Time
now = record { instant = day + day + hour; offset = 0 }

now-now : SameWindow now now
unfolding hour_start day_start
now-now = record {
  same_hour = refl;
  same_day = refl;
  hour_positive = omega arith;
  day_positive = omega arith;
}

admitted_store : Store
admitted_store = (check_and_reserve engine (λ s. s) (codes "u_1") (pos 100) now store).1

let_through :
    check_and_reserve engine (λ s. s) (codes "u_1") (pos 100) now store ≡ (ok tt, admitted_store)
unfolding admitted_store check_and_reserve reserve_for get_user reserve_user gate_user current
    charge ensure_window hour_start day_start lookup str_eq add64 ◌+ℤ◌ is_working_hour any_range
    in_range hourly_limit daily_limit hour_of
let_through = refl

check_and_reserve-IsAdmitted_example :
    IsAdmitted engine (λ s. s) (codes "u_1") (pos 100) now now store admitted_store
check_and_reserve-IsAdmitted_example =
    check_and_reserve-IsAdmitted engine (λ s. s) (codes "u_1") (pos 100) now now store now-now
      let_through
