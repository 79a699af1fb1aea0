-- ===== src/Relay/Proxy.antt =====
-- The handler `proxy` of internal/api/relay.go, from the rate limiter to the log entry. The loop runs
-- on fuel, since a key that cannot be reserved does not use up an attempt.
mod Answer
pub use Answer.{
  Message, no_message, rate_limit_exceeded, rate_limit_retry, daily_exceeded, hourly_exhausted_msg,
  failed_with, client_disconnected, upstream_error, upstream_failed, Entry, Sent, nothing,
  error_object, passes, answers, Reply, Request, est_of, failure,
}
unfoldable pub use Answer.{route_type, finish, refuse, quota_message, select_failure}
use code_agent_router.Prelude.{
  ℕ, zero, suc, ◌+◌, ◌-◌, ◌/◌, Bool, true, false, not, ◌&&◌, ◌||◌, Option, none, some, [],
  if◌then◌else◌, ltb, leb, ◌==◌,
}
use code_agent_router.Prelude.Int.{ℤ, pos, ltb_ℤ}
use code_agent_router.Prelude.Int64.{add64}
use code_agent_router.Text.{Bytes, codes, str_eq}
use code_agent_router.Map.{Map, insert}
use code_agent_router.Clock.{Time, second}
use code_agent_router.Model.{UpstreamKey}
use code_agent_router.Result.{Result, Error, ok, err, daily_quota, hourly_quota, hourly_exhausted}
use code_agent_router.Ratelimit
use code_agent_router.Ratelimit.{Limiter, Verdict, allowed, denied, panics}
use code_agent_router.Quota.{Engine, is_working_hour}
use code_agent_router.Relay.Usage.{proxy_json, stream_loop}
use code_agent_router.Relay.Machine.{
  Sends, original, injected, stripped_options, Response, Outcome, unreachable, responds, Env,
  Machine, do_select, do_reserve_user, do_reserve_key, do_release_key, do_release, do_settle,
}

-- The variables of the loop.
pub record Loop : Type 0 where
  pub machine : Machine
  pub exclude : Map Bool
  pub request_body : Sends
  pub stripped : Bool
  pub used : Option (UpstreamKey × Response)
  pub last : Option (UpstreamKey × Response)

-- How one round of the loop ends: `continue` after `attempt--`, `continue`, `break`, or `return`.
pub data Next : Type 0 where
  again next stop : Loop → Next
  returns : Machine → Reply → Next

-- `io.Copy(io.Discard, resp.Body); resp.Body.Close()`: nothing is left to read.
unfoldable pub drain : Response → Response
drain r = record r { body = []; lines = [] }

module _ (env : Env) (e : Engine) (r : Request) where
  -- An attempt that failed at the transport.
  unfoldable pub on_unreachable : (gone : Bool) → UpstreamKey → Loop → Next
  unfolding do_release_key do_release finish route_type
  on_unreachable gone key l =
      let m : Machine = do_release_key env key.id (est_of r) l.machine in
      if gone
      then returns (do_release env r.user_id key.id (est_of r) m) (record {
        sent = nothing;
        entry =
            finish (failure r 499 client_disconnected) (pos 0) key.id (route_type r.user_id key);
      })
      else next (record l { machine = m; exclude = insert key.id true l.exclude })

  -- An attempt that an upstream answered.
  unfoldable pub on_response : Response → UpstreamKey → Loop → Next
  unfolding do_release_key drain
  on_response resp key l =
      let m : Machine = do_release_key env key.id (est_of r) l.machine in
      let kept : Loop = record l { machine = m; last = some (key, drain resp) } in
      if resp.status == 400 && r.inject_usage && r.stream && not l.stripped
      then next (record l { machine = m; request_body = stripped_options; stripped = true })
      else if leb 200 resp.status && ltb resp.status 300
      then stop (record l { used = some (key, resp) })
      else if resp.status == 429 || leb 500 resp.status
      then next (record kept { exclude = insert key.id true l.exclude })
      else stop kept

  unfoldable pub on_outcome : Outcome → UpstreamKey → Loop → Next
  unfolding on_unreachable on_response
  on_outcome (unreachable gone) key l = on_unreachable gone key l
  on_outcome (responds resp) key l = on_response resp key l

  -- The call of an upstream, with the key reserved.
  unfoldable pub dial : UpstreamKey → Loop → Next
  unfolding on_outcome
  dial key l =
      on_outcome (env.upstream l.machine.dials key l.request_body) key
        (record l { machine = record l.machine { dials = l.machine.dials + 1 } })

  -- The limit that the handler passes to `ReserveKey`.
  unfoldable pub key_limit : UpstreamKey → ℤ
  key_limit key =
      if ltb_ℤ (pos 0) key.hourly_limit then key.hourly_limit else e.quota.default_hourly_tokens

  -- A key that cannot be reserved is excluded, and the attempt is not counted.
  unfoldable pub on_reserved : UpstreamKey → Loop → Result (Unit {0}) × Machine → Next
  unfolding dial
  on_reserved key l (err x, m) =
      again (record l { machine = m; exclude = insert key.id true l.exclude })
  on_reserved key l (ok u, m) = dial key (record l { machine = m })

  unfoldable pub try_key : UpstreamKey → Loop → Next
  unfolding on_reserved key_limit do_reserve_key
  try_key key l =
      on_reserved key l
        (do_reserve_key env key.id (est_of r) (key_limit key) (is_working_hour e r.now) l.machine)

  unfoldable pub no_key_left : Error → Machine → Next
  unfolding do_release select_failure refuse
  no_key_left x m =
      let (status, msg) = select_failure e r.now x in
      returns (do_release env r.user_id [] (est_of r) m) (refuse r status msg)

  unfoldable pub on_selected : Loop → Result UpstreamKey × Machine → Next
  unfolding try_key no_key_left
  on_selected l (err x, m) = no_key_left x m
  on_selected l (ok key, m) = try_key key (record l { machine = m })

  -- One round of the loop.
  unfoldable pub attempt : Loop → Next
  unfolding on_selected do_select
  attempt l = on_selected l (
      do_select env r.user_id r.model_name (is_working_hour e r.now) e.quota.default_hourly_tokens
        l.exclude l.machine)

-- How the loop ends: with its variables, or with a reply; `exhausted` is the end of the fuel.
pub data Ended : Type 0 where
  exhausted : Ended
  left : Loop → Ended
  replied : Machine → Reply → Ended

module _ (env : Env) (e : Engine) (r : Request) where
  -- The loop, with the number of attempts that are left.
  unfoldable pub run_loop : (fuel attempts : ℕ) → Loop → Ended
  unfolding attempt
  run_loop fuel zero l = left l
  run_loop zero (suc n) l = exhausted
  run_loop (suc fuel) (suc n) l = elim (attempt env e r l) [
    | again l' ↦ run_loop fuel (suc n) l'
    | next l' ↦ run_loop fuel n l'
    | stop l' ↦ left l'
    | returns m reply ↦ replied m reply
  ]

  -- The tokens that the answer costs.
  unfoldable pub actual_tokens : Response → ℤ
  unfolding stream_loop proxy_json
  actual_tokens resp =
      if r.stream
      then stream_loop env.unmarshal env.write_ok r.prompt_tokens 0 none 0 resp.lines
      else proxy_json env.unmarshal resp.read_ok resp.body r.prompt_tokens r.est_completion

  -- After the loop, with a key whose upstream answered.
  unfoldable pub deliver : UpstreamKey → Response → Machine → Machine × Reply
  unfolding actual_tokens do_settle finish route_type
  deliver key resp m = (
    do_settle env r.user_id key.id (est_of r) (actual_tokens resp) m,
    record {
      sent = answers resp;
      entry =
          finish
            (record (failure r 200 no_message) {
              prompt_tokens = r.prompt_tokens;
              completion_tokens = r.est_completion;
              total_tokens = est_of r;
            })
            (actual_tokens resp) key.id (route_type r.user_id key);
    },
  )

  -- After the loop, with no answer: the last failure is passed through, if there is one.
  unfoldable pub give_up : Option (UpstreamKey × Response) → Machine → Machine × Reply
  unfolding do_release finish route_type refuse
  give_up (some (key, resp)) m = (
    do_release env r.user_id [] (est_of r) m,
    record {
      sent = passes resp;
      entry =
          finish (failure r resp.status upstream_error) (pos 0) key.id (route_type r.user_id key);
    },
  )
  give_up none m = (do_release env r.user_id [] (est_of r) m, refuse r 502 upstream_failed)

  unfoldable pub answer_or_give_up :
      (used last : Option (UpstreamKey × Response)) → Machine → Machine × Reply
  unfolding deliver give_up
  answer_or_give_up (some (key, resp)) last m = deliver key resp m
  answer_or_give_up none last m = give_up last m

  unfoldable pub after_loop : Loop → Machine × Reply
  unfolding answer_or_give_up
  after_loop l = answer_or_give_up l.used l.last l.machine

  -- The variables before the loop.
  unfoldable pub start_loop : Machine → Loop
  start_loop m = record {
    machine = m;
    exclude = [];
    request_body = if r.inject_usage && r.stream then injected else original;
    stripped = false;
    used = none;
    last = none;
  }

-- How a request ends. `unfinished` is the end of the fuel, `panicked` is the panic of the rate limiter with a limit of zero.
pub data Final : Type 0 where
  unfinished panicked : Final
  served : Machine → Reply → Final

module _ (env : Env) (e : Engine) (r : Request) where
  unfoldable pub conclude : Ended → Final
  unfolding after_loop
  conclude exhausted = unfinished
  conclude (left l) = let (m, reply) = after_loop env e r l in served m reply
  conclude (replied m reply) = served m reply

  -- What follows `CheckAndReserve`.
  unfoldable pub on_checked : (fuel : ℕ) → Result (Unit {0}) × Machine → Final
  unfolding conclude run_loop start_loop quota_message refuse
  on_checked fuel (err x, m) = served m (refuse r 429 (quota_message e r.now x))
  on_checked fuel (ok u, m) = conclude (run_loop env e r fuel 2 (start_loop env e r m))

  -- `proxy` behind the rate limiter.
  unfoldable pub admitted : (fuel : ℕ) → Machine → Final
  unfolding on_checked do_reserve_user
  admitted fuel m = on_checked fuel (do_reserve_user env e r.user_id (est_of r) r.now m)

  -- `int64(math.Ceil(retry.Seconds()))`
  unfoldable pub whole_seconds : ℕ → ℕ
  whole_seconds d = (d + (second - 1)) / second

  unfoldable pub limited : (retry : ℕ) → Reply
  unfolding whole_seconds finish
  limited retry = record {
    sent = error_object 429 (rate_limit_retry (whole_seconds retry)) (some (whole_seconds retry));
    entry = finish (failure r 429 rate_limit_exceeded) (pos 0) [] [];
  }

  unfoldable pub on_verdict : (fuel : ℕ) → Verdict → Machine → Final
  unfolding admitted limited
  on_verdict fuel allowed m = admitted fuel m
  on_verdict fuel (denied retry) m = served m (limited retry)
  on_verdict fuel panics m = panicked

  unfoldable pub proxy : (fuel : ℕ) → Limiter → Machine → Final × Limiter
  unfolding on_verdict
  proxy fuel l m =
      let (v, l') = Ratelimit.allow l r.user_id r.now.instant in (on_verdict fuel v m, l')
