-- ===== src/Ratelimit/Tests.antt =====
-- The limiter of internal/ratelimit/ratelimit.go on concrete calls.
use code_agent_router.Prelude.{ℕ, ◌≡◌, ◌≤◌, ◌<◌, refl, List, [], ◌∷◌, keep, length, arith}
use code_agent_router.Text.{Bytes, codes, str_eq}
use code_agent_router.Map.{lookup, insert}
use code_agent_router.Ratelimit.{Limiter, Verdict, allowed, denied, new, allow}
use code_agent_router.Ratelimit.Window.{in_span, let_through, window_limit}
use code_agent_router.Ratelimit.Retry.{after, retry_allowed}

abbrev alice : Bytes
alice = codes "alice"

abbrev bob : Bytes
bob = codes "bob"

abbrev calls : List (Bytes × ℕ)
calls = (alice, 10) ∷ (bob, 11) ∷ (alice, 20) ∷ (alice, 30) ∷ (alice, 75) ∷ []

-- The third request within 60 is refused, a later one is not.
let_through_test : let_through alice (new 2 60) calls [] ≡ 10 ∷ 20 ∷ 75 ∷ []
unfolding let_through new allow lookup insert str_eq
let_through_test = refl

window_limit_example : length (keep (in_span 60 10) (let_through alice (new 2 60) calls [])) ≤ 2
window_limit_example = window_limit alice 2 60 calls 10 (omega arith)

abbrev two_hits : List (Bytes × ℕ)
two_hits = (alice, 10) ∷ (alice, 20) ∷ []

abbrev refusal : Verdict × Limiter
refusal = (denied 40, record { windows = (alice, 10 ∷ 20 ∷ []) ∷ []; limit = 2; window = 60 })

refusal_test : allow (after (new 2 60) two_hits) alice 30 ≡ refusal
unfolding after new allow lookup insert str_eq
refusal_test = refl

retry_allowed_example : (0 < 40) × ((allow refusal.1 alice 70).0 ≡ allowed)
retry_allowed_example = retry_allowed alice 2 60 two_hits 30 refusal_test
