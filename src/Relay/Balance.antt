-- ===== src/Relay/Balance.antt =====
-- What a request takes from the store and what it gives back, over the calls that `proxy` of
-- internal/api/relay.go makes, whatever the other requests, the clock and the upstreams do.
mod Held
pub use Held.{
  Holds, start, takes_user, frees_user, settles_user, takes_key, frees_key, settles_key, Named,
  keeps_Named, select_key-listed,
}
use code_agent_router.Prelude.{
  ℕ, suc, ◌+◌, ◌≡◌, refl, subst, ◌⊎◌, inl, inr, Bool, true, false, Option, none, some, List, [],
  ◌∷◌, In, Bool-cases, not, ◌&&◌, ◌||◌, ltb, leb, ◌==◌,
}
use code_agent_router.Prelude.Int.{ℤ}
use code_agent_router.Text.{Bytes, is_empty}
use code_agent_router.Router.{Query, select}
use code_agent_router.Map.{Map, values}
use code_agent_router.Clock.{Time}
use code_agent_router.Router.Choice.{Meets, IsChoice, select-Meets}
use code_agent_router.Store.Counters.{select_key, reserve_key}
use code_agent_router.Model.{User, UpstreamKey}
use code_agent_router.Result.{Result, ok, err}
use code_agent_router.Store.Users.{get_user}
use code_agent_router.Ratelimit.{Limiter, Verdict, allowed, denied, panics, allow}
use code_agent_router.Quota.{
  Engine, reserve_for, hourly_limit, daily_limit, check_and_reserve, is_working_hour,
}
use code_agent_router.Store.State.{Store}
use code_agent_router.Store.Frame.{
  SameEntities, release_key-SameEntities, reserve_key-SameEntities, reserve_user-SameEntities,
}
use code_agent_router.Relay.Machine.{
  Env, Call, reserved_user, released_user, settled_user, reserved_key, released_key, settled_key,
  Machine, Response, Outcome, unreachable, responds, found, noted, passed, do_select,
  do_reserve_user, do_reserve_key, note_key, note_user, do_release_key, do_release, do_settle,
}
use code_agent_router.Relay.Proxy.{
  Request, est_of, Reply, Sent, nothing, Loop, on_unreachable, on_response, on_outcome, key_limit,
  dial, on_reserved, on_selected, try_key, no_key_left, attempt, Ended, exhausted, left, replied,
  answer_or_give_up, deliver, give_up, after_loop, start_loop, Final, unfinished, panicked, served,
  on_checked, on_verdict, conclude, admitted, limited, proxy, answer_or_give_up,
}
use code_agent_router.Relay.Rule.{Keeps, Ends, run_loop-Ends}

module _ (env : Env) (e : Engine) (r : Request)
    (others_named : (n : ℕ) (s : Store) → Named s → Named (env.others n s)) where
  abbrev est : ℤ
  est = est_of r

  -- Before a round the user's reservation is held and no key's, and no answer is there.
  record Ready (n : ℕ) (l : Loop) : Type 0 where
    held : Holds l.machine.calls (some est) none
    named : Named l.machine.store
    no_answer : l.used ≡ none

  -- After the loop: the key of the answer is held, if there is one.
  record Stopped (l : Loop) : Type 0 where
    outcome :
        ((l.used ≡ none) × Holds l.machine.calls (some est) none)
        ⊎ ((key : UpstreamKey) × (resp : Response) × (l.used ≡ some (key, resp))
            × (is_empty key.id ≡ false)
            × Holds l.machine.calls (some est) (some (key.id, est)))

  -- What has been given back when the client has its reply.
  abbrev pub Closed : List Call → Sent → Type 0
  Closed cs nothing =
      (id : Bytes) × (earlier : List Call) × (cs
        ≡ released_key id est ∷ released_user est ∷ released_key id est ∷ earlier)
      × Holds earlier (some est) (some (id, est))
  Closed cs _ = Holds cs none none

  abbrev ClosedBy : Machine → Reply → Type 0
  ClosedBy m reply = Closed m.calls reply.sent

  -- A round with the key `key` reserved.
  record Dialled (key : UpstreamKey) (l : Loop) : Type 0 where
    held : Holds l.machine.calls (some est) (some (key.id, est))
    named : Named l.machine.store
    no_answer : l.used ≡ none
    key_named : is_empty key.id ≡ false

  release_key-Named :
      (key : UpstreamKey) (m : Machine)
      → Named m.store
      → Named (do_release_key env key.id est m).store
  unfolding do_release_key
  release_key-Named key m n =
      keeps_Named (release_key-SameEntities key.id est (env.clock m.locks) (found env m))
        (others_named m.locks m.store n)

  release_key_calls :
      (id : Bytes) (m : Machine)
      → (do_release_key env id est m).calls ≡ released_key id est ∷ m.calls
  unfolding do_release_key
  release_key_calls id m = refl

  -- `Engine.Release` with no key, and with one.
  release_calls_user :
      (m : Machine) → (do_release env r.user_id [] est m).calls ≡ released_user est ∷ m.calls
  unfolding do_release is_empty
  release_calls_user m = refl

  release_calls_both :
      (id : Bytes) (m : Machine)
      → is_empty id ≡ false
      → (do_release env r.user_id id est m).calls
        ≡ released_key id est ∷ released_user est ∷ m.calls
  unfolding do_release
  release_calls_both id m h = rw h refl

  settle_calls_both :
      (id : Bytes) (actual : ℤ) (m : Machine)
      → is_empty id ≡ false
      → (do_settle env r.user_id id est actual m).calls
        ≡ settled_key id est actual ∷ settled_user est actual ∷ m.calls
  unfolding do_settle
  settle_calls_both id actual m h = rw h refl

  unreachable-Keeps :
      (n : ℕ) (gone : Bool) (key : UpstreamKey) (l : Loop)
      → Dialled key l
      → Keeps Ready Stopped ClosedBy n (on_unreachable env e r gone key l)
  unfolding on_unreachable
  unreachable-Keeps n true key l d = (
    key.id,
    l.machine.calls,
    release_calls_both key.id (do_release_key env key.id est l.machine) d.key_named,
    d.held,
  )
  unreachable-Keeps n false key l d = record {
    held = frees_key d.held;
    named = release_key-Named key l.machine d.named;
    no_answer = d.no_answer;
  }

  response-Keeps :
      (n : ℕ) (resp : Response) (key : UpstreamKey) (l : Loop)
      → Dialled key l
      → Keeps Ready Stopped ClosedBy n (on_response env e r resp key l)
  unfolding on_response
  response-Keeps n resp key l d =
      let freed = release_key-Named key l.machine d.named in
      elim (Bool-cases (resp.status == 400 && r.inject_usage && r.stream && not l.stripped)) [
        | inl a ↦ rw a (record { held = frees_key d.held; named = freed; no_answer = d.no_answer })
        | inr a ↦ rw a (elim (Bool-cases (leb 200 resp.status && ltb resp.status 300)) [
          | inl b ↦ rw b (record { outcome = inr (key, resp, refl, d.key_named, d.held) })
          | inr b ↦ rw b (elim (Bool-cases (resp.status == 429 || leb 500 resp.status)) [
            | inl c ↦
                rw c (record { held = frees_key d.held; named = freed; no_answer = d.no_answer })
            | inr c ↦ rw c (record { outcome = inl (d.no_answer, frees_key d.held) })
          ])
        ])
      ]

  dial-Keeps :
      (n : ℕ) (o : Outcome) (key : UpstreamKey) (l : Loop)
      → Dialled key l
      → Keeps Ready Stopped ClosedBy n (on_outcome env e r o key l)
  unfolding on_outcome
  dial-Keeps n (unreachable gone) key l d = unreachable-Keeps n gone key l d
  dial-Keeps n (responds resp) key l d = response-Keeps n resp key l d

  Dialled-Keeps :
      (n : ℕ) (key : UpstreamKey) (l : Loop)
      → Dialled key l
      → Keeps Ready Stopped ClosedBy n (dial env e r key l)
  unfolding dial
  Dialled-Keeps n key l d =
      dial-Keeps n (env.upstream l.machine.dials key l.request_body) key
        (record l { machine = record l.machine { dials = l.machine.dials + 1 } })
        (record {
          held = d.held;
          named = d.named;
          no_answer = d.no_answer;
          key_named = d.key_named;
        })

  reserved-Keeps :
      (n : ℕ) (key : UpstreamKey) (l : Loop) (x : Result (Unit {0}) × Store)
      → Ready (suc n) l
      → is_empty key.id ≡ false
      → Named x.1
      → Keeps Ready Stopped ClosedBy n
          (on_reserved env e r key l (note_key env key.id est l.machine x))
  unfolding on_reserved note_key
  reserved-Keeps n key l (ok u, s) d key_named named =
      Dialled-Keeps n key (record l { machine = noted env (reserved_key key.id est) l.machine s })
        (record {
          held = takes_key d.held;
          named = named;
          no_answer = d.no_answer;
          key_named = key_named;
        })
  reserved-Keeps n key l (err x, s) d key_named named = record {
    held = d.held;
    named = named;
    no_answer = d.no_answer;
  }

  try_key-Keeps :
      (n : ℕ) (key : UpstreamKey) (l : Loop)
      → Ready (suc n) l
      → is_empty key.id ≡ false
      → Keeps Ready Stopped ClosedBy n (try_key env e r key l)
  unfolding try_key do_reserve_key
  try_key-Keeps n key l d key_named =
      let now : Time = env.clock l.machine.locks in
      let s : Store = found env l.machine in
      reserved-Keeps n key l
        (reserve_key key.id est (key_limit env e r key) (is_working_hour e r.now) now s) d key_named
        (keeps_Named
          (reserve_key-SameEntities key.id est (key_limit env e r key) (is_working_hour e r.now) now
            s)
          (others_named l.machine.locks l.machine.store d.named))

  selected-Keeps :
      (n : ℕ) (l : Loop) (x : Result UpstreamKey) (m : Machine)
      → Holds m.calls (some est) none
      → Named m.store
      → l.used ≡ none
      → ((k : UpstreamKey) → x ≡ ok k → is_empty k.id ≡ false)
      → Keeps Ready Stopped ClosedBy n (on_selected env e r l (x, m))
  unfolding on_selected no_key_left
  selected-Keeps n l (ok key) m held named no_answer key_named =
      try_key-Keeps n key (record l { machine = m })
        (record { held = held; named = named; no_answer = no_answer }) (key_named key refl)
  selected-Keeps n l (err x) m held named no_answer key_named =
      rw (release_calls_user m) (frees_user held)

  attempt-Keeps :
      (n : ℕ) (l : Loop) → Ready (suc n) l → Keeps Ready Stopped ClosedBy n (attempt env e r l)
  unfolding attempt do_select
  attempt-Keeps n l d =
      let named = others_named l.machine.locks l.machine.store d.named in
      let now : Time = env.clock l.machine.locks in
      let s : Store = found env l.machine in
      selected-Keeps n l
        (select_key r.user_id r.model_name (is_working_hour e r.now) e.quota.default_hourly_tokens
          l.exclude now s)
        (passed env l.machine s) d.held named d.no_answer
        λ k h. named k (
          select_key-listed r.user_id r.model_name (is_working_hour e r.now)
            e.quota.default_hourly_tokens l.exclude now s h)

  start-Ready :
      (m : Machine) → Holds m.calls (some est) none → Named m.store → Ready 2 (start_loop env e r m)
  unfolding start_loop
  start-Ready m held named = record { held = held; named = named; no_answer = refl }

  give_up-Closed :
      (last : Option (UpstreamKey × Response)) (m : Machine)
      → Holds m.calls (some est) none
      → let (m', reply) = give_up env e r last m in ClosedBy m' reply
  unfolding give_up
  give_up-Closed none m held = rw (release_calls_user m) (frees_user held)
  give_up-Closed (some (key, resp)) m held = rw (release_calls_user m) (frees_user held)

  -- What has been given back when the loop has stopped and the reply is out.
  Stopped-Closed :
      (l : Loop) → Stopped l → let (m, reply) = after_loop env e r l in ClosedBy m reply
  unfolding after_loop answer_or_give_up deliver
  Stopped-Closed l s = elim s.outcome [
    | inl (no_answer, held) ↦ rw no_answer (give_up-Closed l.last l.machine held)
    | inr (key, resp, answer, key_named, held) ↦
        rw (answer, settle_calls_both key.id _ l.machine key_named)
          (settles_key (settles_user held))
  ]

  -- What a request ends with.
  abbrev pub EndsClosed : Final → Type 0
  EndsClosed unfinished = Unit
  EndsClosed panicked = Unit
  EndsClosed (served m reply) = Closed m.calls reply.sent

  concluded-Closed : (x : Ended) → Ends Ready Stopped ClosedBy x → EndsClosed (conclude env e r x)
  unfolding conclude
  concluded-Closed exhausted h = tt
  concluded-Closed (left l) h = Stopped-Closed l h
  concluded-Closed (replied m reply) h = h

  checked-Closed :
      (fuel : ℕ) (m : Machine) (x : Result (Unit {0}) × Store)
      → m.calls ≡ []
      → Named x.1
      → EndsClosed (on_checked env e r fuel (note_user env est m x))
  unfolding on_checked note_user
  checked-Closed fuel m (err y, s) h named = rw h start
  checked-Closed fuel m (ok u, s) h named = concluded-Closed _ (
      run_loop-Ends Ready Stopped ClosedBy env e r attempt-Keeps
        (λ l d. record { outcome = inl (d.no_answer, d.held) }) fuel 2 _
        (start-Ready _ (rw h (takes_user start)) named))

  reserved-Named :
      (now : Time) (u : Option User) (s : Store)
      → Named s
      → Named (reserve_for e r.user_id est now u s).1
  unfolding reserve_for
  reserved-Named now none s h = h
  reserved-Named now (some u) s h =
      keeps_Named
        (reserve_user-SameEntities r.user_id est (hourly_limit e u) (daily_limit e u)
          (is_working_hour e now) now s)
        h

  verdict-Closed :
      (fuel : ℕ) (v : Verdict) (m : Machine)
      → m.calls ≡ []
      → Named m.store
      → EndsClosed (on_verdict env e r fuel v m)
  unfolding on_verdict admitted limited do_reserve_user check_and_reserve
  verdict-Closed fuel allowed m h named =
      let s : Store = env.others (m.locks + 1) (found env m) in
      checked-Closed fuel m (reserve_for e r.user_id est r.now (get_user r.user_id (found env m)) s)
        h
        (reserved-Named r.now (get_user r.user_id (found env m)) s
          (others_named (m.locks + 1) (found env m) (others_named m.locks m.store named)))
  verdict-Closed fuel (denied retry) m h named = rw h start
  verdict-Closed fuel panics m h named = tt

  -- Whatever the other requests, the clock and the upstreams do, a request that is answered has given
  -- back all that it reserved, once: its user's reservation, and that of each key that it tried. One
  -- whose client has gone away gives the key back twice, around the user's reservation. The
  -- hypotheses are that the request starts with no call and that no upstream key has an empty id.
  pub proxy_gives_back :
      (fuel : ℕ) (l : Limiter) (m : Machine)
      → m.calls ≡ []
      → Named m.store
      → EndsClosed (proxy env e r fuel l m).0
  unfolding proxy
  proxy_gives_back fuel l m h named =
      verdict-Closed fuel (allow l r.user_id r.now.instant).0 m h named
