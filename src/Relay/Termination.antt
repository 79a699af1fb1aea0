-- ===== src/Relay/Termination.antt =====
-- The loop of `proxy` in internal/api/relay.go ends: each round uses up an attempt or excludes one
-- more key, as long as the other requests register no new keys.
mod Open
pub use Open.{
  KeysAmong, is_open, open_keys-insert_le, open_keys-insert_lt, keys_same, select_key-open,
}
unfoldable pub use Open.{open_keys}
use code_agent_router.Prelude.{
  ℕ, zero, suc, ◌+◌, ◌≤◌, ◌<◌, ◌≡◌, ◌≢◌, refl, ap, subst, inl, inr, Bool, true, false, Option, none,
  some, List, [], In, Bool-cases, not, ◌&&◌, ◌||◌, ltb, leb, ◌==◌, arith, keep, length,
  length-keep_mono, length-keep-lt, length-keep-le, get_or,
}
use Prim.Native.Nat.{pred}
use code_agent_router.Prelude.Int.{ℤ}
use code_agent_router.Text.{Bytes, str_eq_refl}
use code_agent_router.Clock.{Time}
use code_agent_router.Map.{Map, lookup, insert, lookup-insert, values}
use code_agent_router.Model.{User, UpstreamKey}
use code_agent_router.Result.{Result, ok, err}
use code_agent_router.Router.{Query, select}
use code_agent_router.Router.Choice.{Meets, IsChoice, select-Meets}
use code_agent_router.Store.State.{Store}
use code_agent_router.Store.Counters.{select_key, reserve_key}
use code_agent_router.Store.Frame.{
  SameEntities, release_key-SameEntities, reserve_key-SameEntities, reserve_user-SameEntities,
}
use code_agent_router.Store.Users.{get_user}
use code_agent_router.Ratelimit.{Limiter, Verdict, allowed, denied, panics, allow}
use code_agent_router.Quota.{
  Engine, reserve_for, check_and_reserve, is_working_hour, hourly_limit, daily_limit,
}
use code_agent_router.Relay.Machine.{
  Env, Machine, Outcome, unreachable, responds, found, passed, noted, reserved_key, note_user,
  note_key, do_select, do_reserve_user, do_reserve_key, do_release_key,
}
use code_agent_router.Relay.Proxy.{
  Request, est_of, Loop, Next, again, next, stop, returns, on_unreachable, on_response, on_outcome,
  dial, key_limit, on_reserved, try_key, no_key_left, on_selected, attempt, Ended, exhausted, left,
  replied, run_loop, start_loop, unfinished, conclude, on_checked, admitted, on_verdict, proxy,
}

module _ (env : Env) (e : Engine) (r : Request) (ids : List Bytes)
    (others_among : (n : ℕ) (s : Store) → KeysAmong ids s → KeysAmong ids (env.others n s)) where
  abbrev est : ℤ
  est = est_of r

  -- The loop has at most `n` keys to try and the keys that it knows of are in the list.
  record Bounded (n : ℕ) (l : Loop) : Type 0 where
    few : open_keys ids l.exclude ≤ n
    among : KeysAmong ids l.machine.store

  -- A round leaves fewer keys, or no more keys and an attempt less, or ends the loop.
  abbrev Progress : ℕ → Next → Type 0
  Progress n (again l) = (b : ℕ) × (n ≡ suc b) × Bounded b l
  Progress n (next l) = Bounded n l
  Progress n (stop l) = Unit
  Progress n (returns m reply) = Unit

  freed_among :
      (key : UpstreamKey) (m : Machine)
      → KeysAmong ids m.store
      → KeysAmong ids (do_release_key env key.id est m).store
  unfolding do_release_key
  freed_among key m h =
      keys_same ids (release_key-SameEntities key.id est (env.clock m.locks) (found env m))
        (others_among m.locks m.store h)

  outcome-Progress :
      (n : ℕ) (o : Outcome) (key : UpstreamKey) (l : Loop)
      → Bounded n l
      → Progress n (on_outcome env e r o key l)
  unfolding on_outcome on_unreachable on_response
  outcome-Progress n (unreachable true) key l b = tt
  outcome-Progress n (unreachable false) key l b = record {
    few = omega (arith, b.few, open_keys-insert_le ids key.id l.exclude);
    among = freed_among key l.machine b.among;
  }
  outcome-Progress n (responds resp) key l b =
      let freed = freed_among key l.machine b.among in
      elim (Bool-cases (resp.status == 400 && r.inject_usage && r.stream && not l.stripped)) [
        | inl c ↦ rw c (record { few = b.few; among = freed })
        | inr c ↦ rw c (elim (Bool-cases (leb 200 resp.status && ltb resp.status 300)) [
          | inl d ↦ rw d tt
          | inr d ↦ rw d (elim (Bool-cases (resp.status == 429 || leb 500 resp.status)) [
            | inl f ↦ rw f (record {
              few = omega (arith, b.few, open_keys-insert_le ids key.id l.exclude);
              among = freed;
            })
            | inr f ↦ rw f tt
          ])
        ])
      ]

  dial-Progress :
      (n : ℕ) (key : UpstreamKey) (l : Loop) → Bounded n l → Progress n (dial env e r key l)
  unfolding dial
  dial-Progress n key l b =
      outcome-Progress n (env.upstream l.machine.dials key l.request_body) key
        (record l { machine = record l.machine { dials = l.machine.dials + 1 } })
        (record { few = b.few; among = b.among })

  reserved-Progress :
      (n : ℕ) (key : UpstreamKey) (l : Loop) (x : Result (Unit {0}) × Store)
      → Bounded n l
      → In key.id ids
      → get_or false (lookup key.id l.exclude) ≡ false
      → KeysAmong ids x.1
      → Progress n (on_reserved env e r key l (note_key env key.id est l.machine x))
  unfolding on_reserved note_key
  reserved-Progress n key l (ok u, s) b i h among =
      dial-Progress n key (record l { machine = noted env (reserved_key key.id est) l.machine s })
        (record { few = b.few; among = among })
  reserved-Progress n key l (err x, s) b i h among =
      let lt = open_keys-insert_lt ids key.id l.exclude i h in
      (pred n, omega (arith, b.few), record { few = omega (arith, b.few); among = among })

  selected-Progress :
      (n : ℕ) (l : Loop) (x : Result UpstreamKey) (m : Machine)
      → open_keys ids l.exclude ≤ n
      → KeysAmong ids m.store
      → ((k : UpstreamKey)
          → x ≡ ok k
          → In k.id ids × (get_or false (lookup k.id l.exclude) ≡ false))
      → Progress n (on_selected env e r l (x, m))
  unfolding on_selected no_key_left try_key do_reserve_key
  selected-Progress n l (err x) m few among open_key = tt
  selected-Progress n l (ok key) m few among open_key =
      let (i, h) = open_key key refl in
      let now : Time = env.clock m.locks in
      reserved-Progress n key (record l { machine = m })
        (reserve_key key.id est (key_limit env e r key) (is_working_hour e r.now) now (found env m))
        (record { few = few; among = among }) i h
        (keys_same ids
          (reserve_key-SameEntities key.id est (key_limit env e r key) (is_working_hour e r.now) now
            (found env m))
          (others_among m.locks m.store among))

  attempt-Progress : (n : ℕ) (l : Loop) → Bounded n l → Progress n (attempt env e r l)
  unfolding attempt do_select
  attempt-Progress n l b =
      let among = others_among l.machine.locks l.machine.store b.among in
      let now : Time = env.clock l.machine.locks in
      let s : Store = found env l.machine in
      selected-Progress n l
        (select_key r.user_id r.model_name (is_working_hour e r.now) e.quota.default_hourly_tokens
          l.exclude now s)
        (passed env l.machine s) b.few among
        λ k h.
          let (i, o) =
            select_key-open r.user_id r.model_name (is_working_hour e r.now)
              e.quota.default_hourly_tokens l.exclude now s h in
          (among k i, o)

  next-ends :
      (fuel attempts n : ℕ) (x : Next)
      → Progress n x
      → n + suc attempts ≤ suc fuel
      → ((k b : ℕ) (l : Loop) → Bounded b l → b + k ≤ fuel → run_loop env e r fuel k l ≢ exhausted)
      → elim x as (λ _. Ended) [
        | again l' ↦ run_loop env e r fuel (suc attempts) l'
        | next l' ↦ run_loop env e r fuel attempts l'
        | stop l' ↦ left l'
        | returns m reply ↦ replied m reply
      ]
        ≢ exhausted
  next-ends fuel attempts n (again l) (b, e', p) h rest = rest (suc attempts) b l p (omega arith)
  next-ends fuel attempts n (next l) p h rest = rest attempts n l p (omega arith)
  next-ends fuel attempts n (stop l) p h rest = λ q. cc
  next-ends fuel attempts n (returns m reply) p h rest = λ q. cc

  run_loop-ends :
      (fuel attempts n : ℕ) (l : Loop)
      → Bounded n l
      → n + attempts ≤ fuel
      → run_loop env e r fuel attempts l ≢ exhausted
  unfolding run_loop
  run_loop-ends zero zero n l b h = λ q. cc
  run_loop-ends (suc fuel) zero n l b h = λ q. cc
  run_loop-ends zero (suc attempts) n l b h = absurd (omega arith)
  run_loop-ends (suc fuel) (suc attempts) n l b h =
      next-ends fuel attempts n (attempt env e r l) (attempt-Progress n l b) h (run_loop-ends fuel)

  concluded : (x : Ended) → x ≢ exhausted → conclude env e r x ≢ unfinished
  unfolding conclude
  concluded exhausted h = absurd (h refl)
  concluded (left l) h = λ q. cc
  concluded (replied m reply) h = λ q. cc

  checked-ends :
      (fuel : ℕ) (m : Machine) (x : Result (Unit {0}) × Store)
      → KeysAmong ids x.1
      → length ids + 2 ≤ fuel
      → on_checked env e r fuel (note_user env est m x) ≢ unfinished
  unfolding on_checked note_user start_loop open_keys
  checked-ends fuel m (err y, s) among h = λ q. cc
  checked-ends fuel m (ok u, s) among h = concluded _ (
      run_loop-ends fuel 2 (length ids) _
        (record { few = length-keep-le (is_open []) ids; among = among }) h)

  reserved_among :
      (now : Time) (u : Option User) (s : Store)
      → KeysAmong ids s
      → KeysAmong ids (reserve_for e r.user_id est now u s).1
  unfolding reserve_for
  reserved_among now none s h = h
  reserved_among now (some u) s h =
      keys_same ids
        (reserve_user-SameEntities r.user_id est (hourly_limit e u) (daily_limit e u)
          (is_working_hour e now) now s)
        h

  verdict-ends :
      (fuel : ℕ) (v : Verdict) (m : Machine)
      → KeysAmong ids m.store
      → length ids + 2 ≤ fuel
      → on_verdict env e r fuel v m ≢ unfinished
  unfolding on_verdict admitted do_reserve_user check_and_reserve
  verdict-ends fuel allowed m among h =
      let s : Store = env.others (m.locks + 1) (found env m) in
      checked-ends fuel m (reserve_for e r.user_id est r.now (get_user r.user_id (found env m)) s)
        (reserved_among r.now (get_user r.user_id (found env m)) s
          (others_among (m.locks + 1) (found env m) (others_among m.locks m.store among)))
        h
  verdict-ends fuel (denied retry) m among h = λ q. cc
  verdict-ends fuel panics m among h = λ q. cc

  -- A request ends: with fuel for one round for each key and two more, the loop never runs out,
  -- whatever the upstreams answer. The hypothesis is that the keys of the store, and those that the
  -- other requests leave there, are among a fixed list.
  pub proxy_ends :
      (fuel : ℕ) (l : Limiter) (m : Machine)
      → KeysAmong ids m.store
      → length ids + 2 ≤ fuel
      → (proxy env e r fuel l m).0 ≢ unfinished
  unfolding proxy
  proxy_ends fuel l m among h = verdict-ends fuel (allow l r.user_id r.now.instant).0 m among h
