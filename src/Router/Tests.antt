-- ===== src/Router/Tests.antt =====
-- The choice of internal/router/router.go among concrete keys.
use code_agent_router.Prelude.{◌≡◌, refl, true, List, [], ◌∷◌}
use Prim.Native.String.{String}
use code_agent_router.Prelude.Int.{ℤ, pos}
use code_agent_router.Text.{codes, str_eq, str_lt, to_lower, trim_space}
use code_agent_router.Map.{lookup}
use code_agent_router.Clock.{zero_time}
use code_agent_router.Model.{UpstreamKey}
use code_agent_router.Result.{ok, err, no_key}
use code_agent_router.Router.{
  Query, select, choose, own_keys, pool_keys, qualified, usable, is_own, has_room, hourly_limit,
  serves_model, serves_any, best,
}
use code_agent_router.Router.Choice.{Meets, select-Meets}

abbrev key : String → String → ℤ → UpstreamKey
key id owner limit = record {
  id = codes id;
  user_id = codes owner;
  name = [];
  base_url = [];
  api_key_enc = [];
  models = codes "GPT-4" ∷ [];
  enabled = true;
  created_at = zero_time;
  hourly_limit = limit;
}

abbrev keys : List UpstreamKey
keys = key "k_1" "bob" (pos 0) ∷ key "k_2" "alice" (pos 100) ∷ key "k_3" "carol" (pos 0) ∷ []

-- Every key has used 100 tokens in the hour.
abbrev query : String → Query
query model = record {
  user_id = codes "alice";
  model_name = codes model;
  working = true;
  default_hourly = pos 1000;
  exclude = [];
  usage = λ id. pos 100;
  in_flight = λ id. pos 0;
}

-- Alice's own key is at its limit, so the pool serves her.
select_test : select (query " gpt-4 ") keys ≡ ok (key "k_1" "bob" (pos 0))
unfolding select choose own_keys pool_keys qualified usable is_own has_room hourly_limit
    serves_model serves_any best lookup str_eq to_lower trim_space str_lt
select_test = refl

no_key_test : select (query "gpt-5") keys ≡ err no_key
unfolding select choose own_keys pool_keys qualified usable is_own has_room hourly_limit
    serves_model serves_any best lookup str_eq to_lower trim_space str_lt
no_key_test = refl

select-Meets_example : Meets (query " gpt-4 ") keys (select (query " gpt-4 ") keys)
select-Meets_example = select-Meets (query " gpt-4 ") keys
