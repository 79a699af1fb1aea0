-- ===== src/Relay/Tests.antt =====
-- The handlers of internal/api/relay.go on concrete requests; the first has a client that goes away
-- while the upstream is called.
use code_agent_router.Prelude.{
  ◌+◌, ◌≢◌, refl, inl, inr, true, false, none, [], ◌∷◌, arith, ◌*◌, some, Option, List, ◌≡◌,
}
use code_agent_router.Prelude.Int.{pos}
use code_agent_router.Text.{codes, is_empty, Bytes, str_eq}
use code_agent_router.Clock.{
  Time, hour, day, zero_time, hour_of, minute, hour_start, day_start, in_location,
}
use code_agent_router.Map.{values, Map, lookup}
use code_agent_router.Model.{User, UpstreamKey}
use code_agent_router.Store.State.{fresh_state, Store}
use code_agent_router.Ratelimit.{Limiter}
use code_agent_router.Quota.{Engine, is_working_hour}
use code_agent_router.Relay.Machine.{Env, Machine, unreachable}
use code_agent_router.Relay.Proxy.{Request, proxy, unfinished}
use code_agent_router.Relay.Balance.{Named, EndsClosed, proxy_gives_back}
use code_agent_router.Relay.Reply.{EndsReplied, proxy_replies}
use code_agent_router.Relay.Termination.{KeysAmong, proxy_ends}
use code_agent_router.Config.{WorkingHour}
use code_agent_router.Relay.Next.{IsNextStart, next_working_start, next_working_start-IsNextStart}
use code_agent_router.Relay.Serve.{listed, ModelCache, IsListing, model_list, model_list-IsListing}
use code_agent_router.Json.{Fields, field, str, done}
use code_agent_router.Store.Windows.{hour_value}

abbrev now : Time
now = record { instant = day + day + hour; offset = 0 }

abbrev alice : User
alice = record {
  id = codes "u_1";
  username = codes "alice";
  password_hash = [];
  display_name = [];
  created_at = zero_time;
  enabled = true;
  hourly_tokens = pos 0;
  daily_tokens = pos 0;
}

abbrev key : UpstreamKey
key = record {
  id = codes "k_1";
  user_id = codes "u_1";
  name = [];
  base_url = [];
  api_key_enc = [];
  models = [];
  enabled = true;
  created_at = zero_time;
  hourly_limit = pos 0;
}

abbrev machine : Machine
machine = record {
  store = record {
    state = record fresh_state {
      users = (codes "u_1", alice) ∷ [];
      upstream_keys = (codes "k_1", key) ∷ [];
    };
    dirty = false;
    timer = false;
    file = none;
  };
  locks = 0;
  dials = 0;
  calls = [];
}

-- The client has gone when the upstream fails; no other request is there.
abbrev env : Env
env = record {
  others = λ n s. s;
  clock = λ n. now;
  upstream = λ n k body. unreachable true;
  unmarshal = λ b. none;
  write_ok = λ n. true;
}

abbrev engine : Engine
engine = record {
  working_hours = record { start = pos 0; finish = pos 24 } ∷ [];
  quota = record {
    default_hourly_tokens = pos 1000;
    default_daily_tokens = pos 1000;
    per_minute_requests = pos 10;
  };
  loc = 0;
}

abbrev request : Request
request = record {
  user_id = codes "u_1";
  model_name = codes "gpt-4";
  stream = true;
  inject_usage = true;
  prompt_tokens = pos 10;
  est_completion = pos 20;
  now = now;
}

abbrev limiter : Limiter
limiter = record { windows = []; limit = 10; window = 60 }

machine-Named : Named machine.store
unfolding values is_empty
machine-Named k (inl h) = rw h refl
machine-Named k (inr h) = absurd h

machine_among : KeysAmong (codes "k_1" ∷ []) machine.store
unfolding values
machine_among k (inl h) = inl (rw h refl)
machine_among k (inr h) = absurd h

proxy_gives_back_example :
    EndsClosed env engine request (λ n s h. h) (proxy env engine request 3 limiter machine).0
proxy_gives_back_example =
    proxy_gives_back env engine request (λ n s h. h) 3 limiter machine refl machine-Named

proxy_ends_example : (proxy env engine request 3 limiter machine).0 ≢ unfinished
proxy_ends_example =
    proxy_ends env engine request (codes "k_1" ∷ []) (λ n s h. h) 3 limiter machine machine_among
      (omega arith)

proxy_replies_example :
    EndsReplied env engine request
      (machine.dials + 2)
      (proxy env engine request 3 limiter machine).0
proxy_replies_example = proxy_replies env engine request 3 limiter machine

-- Nine to twelve in UTC+8.
abbrev morning : WorkingHour
morning = record { start = pos 9; finish = pos 12 }

abbrev office : Engine
office = record engine { working_hours = morning ∷ []; loc = 8 * hour }

-- Half past ten there.
abbrev half_past_ten : Time
half_past_ten = record { instant = day + 2 * hour + 30 * minute; offset = 0 }

-- The user has used the whole quota of the hour that began at ten.
abbrev used_up : Store
used_up = record machine.store {
  state = record machine.store.state {
    counters =
        (
          codes "u_1",
          record {
            hour = record { window_start = hour_start half_past_ten; value = pos 1000 };
            day = record { window_start = day_start half_past_ten; value = pos 1000 };
          },
        )
        ∷ [];
  };
}

next_working_start-IsNextStart_example :
    IsNextStart office half_past_ten (next_working_start office half_past_ten)
    × (hour_value (codes "u_1") (in_location (next_working_start office half_past_ten) 0) used_up
        ≡ pos 0)
unfolding is_working_hour hour_of hour_start lookup str_eq
next_working_start-IsNextStart_example =
    next_working_start-IsNextStart office half_past_ten (codes "u_1") used_up refl (omega arith)
      refl (omega arith)

-- An upstream that names a model twice, and one without a name.
abbrev model_named : Bytes → Fields
model_named id = field (codes "id") (str id) done

abbrev named_twice : UpstreamKey → Option (List Fields)
named_twice k = some (model_named (codes "m") ∷ model_named [] ∷ model_named (codes "m") ∷ [])

abbrev no_models : ModelCache
no_models = record { entries = []; made_at = 0 }

abbrev shared_key : UpstreamKey
shared_key = record {
  id = codes "k_9";
  user_id = codes "u_9";
  name = [];
  base_url = [];
  api_key_enc = [];
  models = [];
  enabled = true;
  created_at = zero_time;
  hourly_limit = pos 0;
}

model_list-IsListing_example :
    IsListing (model_list named_twice (shared_key ∷ []) 5 6 no_models).1.entries
    × ((m : Map Bytes)
        → (model_list named_twice (shared_key ∷ []) 5 6 no_models).0 ≡ listed m
        → IsListing m)
unfolding lookup
model_list-IsListing_example =
    model_list-IsListing named_twice (shared_key ∷ []) 5 6 no_models
      (record { once = tt; named = refl })
