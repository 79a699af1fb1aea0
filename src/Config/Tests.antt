-- ===== src/Config/Tests.antt =====
-- The parser and the loading of internal/config on a small file.
use code_agent_router.Prelude.{refl, some, none, [], ◌∷◌, arith, Option, ◌≡◌, ◌≢◌}
use code_agent_router.Text.{Bytes, codes}
use code_agent_router.Config.Load.{load_config, Settings, contents, defaults}
use code_agent_router.Joined.{join}
use code_agent_router.Config.Yaml.{parse_scalar, out_of_fuel}
use code_agent_router.Config.Valid.{IsValid, load_config-IsValid}
use code_agent_router.Config.Text.{split_top_level}
use code_agent_router.Prelude.Int.{pos, ◌+ℤ◌}
use code_agent_router.Config.Split.{join-split_top_level}
use code_agent_router.Config.Fuel.{parse_scalar-ends}

abbrev document : Bytes
document =
    codes
      "server: # where\n  working_hours:\n    - {start: 8, end: 20}\n    - start: 21\n      end: 22\nquota:\n  per_minute_requests: 5\nsecurity:\n  admin_username: 'root'\n"

abbrev settings_of : Option Settings → Settings
settings_of none = defaults
settings_of (some c) = c

document_test :
    (settings_of (load_config (contents document))).server.working_hours
    ≡ record { start = pos 8; finish = pos 20 } ∷ record { start = pos 21; finish = pos 22 } ∷ []
unfolding load_config ◌+ℤ◌
document_test = refl

tab_test : load_config (contents (codes "a: 1\n b:\tc")) ≡ none
unfolding load_config
tab_test = refl

load_config-IsValid_example : IsValid (settings_of (load_config (contents document)))
unfolding load_config ◌+ℤ◌
load_config-IsValid_example = load_config-IsValid (contents document) refl

join-split_top_level_example :
    join 44 (split_top_level (codes "a: [1,2], 'b,c'") 44) ≡ codes "a: [1,2], 'b,c'"
join-split_top_level_example = join-split_top_level (codes "a: [1,2], 'b,c'") 44

parse_scalar-ends_example : parse_scalar 10 (codes "{a: [1]}") [] ≢ out_of_fuel
parse_scalar-ends_example = parse_scalar-ends 10 (codes "{a: [1]}") [] (omega arith)
