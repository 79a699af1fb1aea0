-- ===== src/Relay/Rule.antt =====
-- The rule for the loop of `proxy` in internal/api/relay.go: what each round keeps holds at the end.
use code_agent_router.Prelude.{ℕ, zero, suc}
use code_agent_router.Quota.{Engine}
use code_agent_router.Relay.Machine.{Env, Machine}
use code_agent_router.Relay.Proxy.{
  Request, Reply, Loop, Next, again, next, stop, returns, Ended, exhausted, left, replied, attempt,
  run_loop,
}

module _ (P : ℕ → Loop → Type 0) (Q : Loop → Type 0) (R : Machine → Reply → Type 0) where
  -- What a round with `suc n` attempts left may end with.
  abbrev pub Keeps : ℕ → Next → Type 0
  Keeps n (again l) = P (suc n) l
  Keeps n (next l) = P n l
  Keeps n (stop l) = Q l
  Keeps n (returns m reply) = R m reply

  abbrev pub Ends : Ended → Type 0
  Ends exhausted = Unit
  Ends (left l) = Q l
  Ends (replied m reply) = R m reply

  module _ (env : Env) (e : Engine) (r : Request)
      (round : (n : ℕ) (l : Loop) → P (suc n) l → Keeps n (attempt env e r l))
      (done : (l : Loop) → P zero l → Q l) where
    next-Ends :
        (fuel n : ℕ) (x : Next)
        → Keeps n x
        → ((k : ℕ) (l : Loop) → P k l → Ends (run_loop env e r fuel k l))
        → Ends (elim x [
          | again l' ↦ run_loop env e r fuel (suc n) l'
          | next l' ↦ run_loop env e r fuel n l'
          | stop l' ↦ left l'
          | returns m reply ↦ replied m reply
        ])
    next-Ends fuel n (again l) p rest = rest (suc n) l p
    next-Ends fuel n (next l) p rest = rest n l p
    next-Ends fuel n (stop l) p rest = p
    next-Ends fuel n (returns m reply) p rest = p

    pub run_loop-Ends : (fuel n : ℕ) (l : Loop) → P n l → Ends (run_loop env e r fuel n l)
    unfolding run_loop
    run_loop-Ends zero zero l p = done l p
    run_loop-Ends (suc fuel) zero l p = done l p
    run_loop-Ends zero (suc n) l p = tt
    run_loop-Ends (suc fuel) (suc n) l p =
        next-Ends fuel n (attempt env e r l) (round n l p) (run_loop-Ends fuel)
