-- ===== src/Relay/Reply.antt =====
-- What `proxy` of internal/api/relay.go answers and logs, and how often it calls an upstream.
mod Matching
pub use Matching.{
  is_success, Matches, Drained, Succeeded, refuse_429, refuse_502, select_failure-Matches,
}
use code_agent_router.Prelude.{
  ℕ, zero, suc, ◌+◌, ◌≤◌, ◌≡◌, refl, ◌⊎◌, inl, inr, Bool, true, false, Option, none, some, [],
  Bool-cases, not, ◌&&◌, ◌||◌, ltb, leb, ◌==◌, arith,
}
use code_agent_router.Text.{Bytes}
use code_agent_router.Model.{UpstreamKey}
use code_agent_router.Result.{
  Result, Error, ok, err, hourly_exhausted, daily_quota, hourly_quota, user_not_found,
  username_taken, access_key_not_found, upstream_key_missing, no_key, io_failure,
  invalid_ciphertext, decrypt_failure,
}
use code_agent_router.Store.State.{Store}
use code_agent_router.Ratelimit.{Limiter, Verdict, allowed, denied, panics, allow}
use code_agent_router.Quota.{Engine}
use code_agent_router.Relay.Machine.{
  Env, Machine, Response, Outcome, unreachable, responds, note_key, note_user, do_select,
  do_reserve_user, do_reserve_key, do_release_key, do_release, do_settle,
}
use code_agent_router.Relay.Proxy.{
  Request, est_of, Reply, Sent, nothing, error_object, passes, answers, Entry, Message, no_message,
  upstream_error, Loop, on_unreachable, on_response, on_outcome, dial, on_reserved, on_selected,
  try_key, no_key_left, attempt, Ended, exhausted, left, replied, answer_or_give_up, deliver,
  give_up, after_loop, start_loop, Final, unfinished, panicked, served, on_checked, on_verdict,
  conclude, admitted, limited, proxy, drain, finish, refuse, select_failure, quota_message,
}
use code_agent_router.Relay.Rule.{Keeps, Ends, run_loop-Ends}

module _ (env : Env) (e : Engine) (r : Request) where
  module _ (most : ℕ) where
    -- Before a round with `n` attempts left.
    record Round (n : ℕ) (l : Loop) : Type 0 where
      few : l.machine.dials + n ≤ most
      drained : Drained l.last
      succeeded : Succeeded l.used

    record Stopped (l : Loop) : Type 0 where
      few : l.machine.dials ≤ most
      drained : Drained l.last
      succeeded : Succeeded l.used

    pub record Replied (m : Machine) (reply : Reply) : Type 0 where
      pub few : m.dials ≤ most
      pub matches : Matches reply.sent reply.entry

    response-Keeps :
        (n : ℕ) (resp : Response) (key : UpstreamKey) (l : Loop)
        → Round n l
        → Keeps Round Stopped Replied n (on_response env e r resp key l)
    unfolding on_response do_release_key drain
    response-Keeps n resp key l d =
        elim (Bool-cases (resp.status == 400 && r.inject_usage && r.stream && not l.stripped)) [
          | inl a ↦ rw a (record { few = d.few; drained = d.drained; succeeded = d.succeeded })
          | inr a ↦ rw a (elim (Bool-cases (is_success resp)) [
            | inl b ↦
                rw b (record { few = omega (arith, d.few); drained = d.drained; succeeded = b })
            | inr b ↦ rw b (elim (Bool-cases (resp.status == 429 || leb 500 resp.status)) [
              | inl c ↦ rw c (record { few = d.few; drained = (refl, b); succeeded = d.succeeded })
              | inr c ↦ rw c (record {
                few = omega (arith, d.few);
                drained = (refl, b);
                succeeded = d.succeeded;
              })
            ])
          ])
        ]

    outcome-Keeps :
        (n : ℕ) (o : Outcome) (key : UpstreamKey) (l : Loop)
        → Round n l
        → Keeps Round Stopped Replied n (on_outcome env e r o key l)
    unfolding on_outcome on_unreachable do_release_key do_release finish
    outcome-Keeps n (unreachable true) key l d = record {
      few = omega (arith, d.few);
      matches = refl;
    }
    outcome-Keeps n (unreachable false) key l d = record {
      few = d.few;
      drained = d.drained;
      succeeded = d.succeeded;
    }
    outcome-Keeps n (responds resp) key l d = response-Keeps n resp key l d

    dial-Keeps :
        (n : ℕ) (key : UpstreamKey) (l : Loop)
        → Round (suc n) l
        → Keeps Round Stopped Replied n (dial env e r key l)
    unfolding dial
    dial-Keeps n key l d =
        outcome-Keeps n (env.upstream l.machine.dials key l.request_body) key
          (record l { machine = record l.machine { dials = l.machine.dials + 1 } })
          (record { few = omega (arith, d.few); drained = d.drained; succeeded = d.succeeded })

    reserved-Keeps :
        (n : ℕ) (key : UpstreamKey) (l : Loop) (x : Result (Unit {0}) × Store)
        → Round (suc n) l
        → Keeps Round Stopped Replied n
            (on_reserved env e r key l (note_key env key.id (est_of r) l.machine x))
    unfolding on_reserved note_key
    reserved-Keeps n key l (ok u, s) d =
        dial-Keeps n key _ (record { few = d.few; drained = d.drained; succeeded = d.succeeded })
    reserved-Keeps n key l (err x, s) d = record {
      few = d.few;
      drained = d.drained;
      succeeded = d.succeeded;
    }

    no_key_left-Replied :
        (x : Error) (m : Machine)
        → m.dials ≤ most
        → Keeps Round Stopped Replied zero (no_key_left env e r x m)
    unfolding no_key_left do_release select_failure
    no_key_left-Replied x m h = record { few = h; matches = select_failure-Matches e r.now r x }

    selected-Keeps :
        (n : ℕ) (l : Loop) (x : Result UpstreamKey) (m : Machine)
        → Round (suc n) l
        → m.dials ≡ l.machine.dials
        → Keeps Round Stopped Replied n (on_selected env e r l (x, m))
    unfolding on_selected try_key do_reserve_key
    selected-Keeps n l (err x) m d h = no_key_left-Replied x m (omega (arith, d.few))
    selected-Keeps n l (ok key) m d h =
        reserved-Keeps n key (record l { machine = m }) _
          (record { few = omega (arith, d.few); drained = d.drained; succeeded = d.succeeded })

    attempt-Keeps :
        (n : ℕ) (l : Loop) → Round (suc n) l → Keeps Round Stopped Replied n (attempt env e r l)
    unfolding attempt do_select
    attempt-Keeps n l d = selected-Keeps n l _ _ d refl

    give_up-Replied :
        (last : Option (UpstreamKey × Response)) (m : Machine)
        → m.dials ≤ most
        → Drained last
        → let (m', reply) = give_up env e r last m in Replied m' reply
    unfolding give_up do_release finish
    give_up-Replied none m h d = record { few = h; matches = refuse_502 r _ }
    give_up-Replied (some (key, resp)) m h (empty, failed) = record {
      few = h;
      matches = (empty, failed, rw failed refl, refl);
    }

    answer-Replied :
        (used last : Option (UpstreamKey × Response)) (m : Machine)
        → m.dials ≤ most
        → Drained last
        → Succeeded used
        → let (m', reply) = answer_or_give_up env e r used last m in Replied m' reply
    unfolding answer_or_give_up deliver do_settle finish
    answer-Replied (some (key, resp)) last m h d s = record { few = h; matches = (s, refl, refl) }
    answer-Replied none last m h d s = give_up-Replied last m h d

    -- How a request ends: with a reply, or with none for want of fuel or by a panic.
    abbrev pub EndsReplied : Final → Type 0
    EndsReplied unfinished = Unit
    EndsReplied panicked = Unit
    EndsReplied (served m reply) = Replied m reply

    concluded-Replied :
        (x : Ended) → Ends Round Stopped Replied x → EndsReplied (conclude env e r x)
    unfolding conclude after_loop
    concluded-Replied exhausted h = tt
    concluded-Replied (left l) h =
        answer-Replied l.used l.last l.machine h.few h.drained h.succeeded
    concluded-Replied (replied m reply) h = h

  checked-Replied :
      (fuel : ℕ) (m : Machine) (x : Result (Unit {0}) × Store)
      → EndsReplied (m.dials + 2) (on_checked env e r fuel (note_user env (est_of r) m x))
  unfolding on_checked note_user start_loop
  checked-Replied fuel m (err y, s) = record { few = omega arith; matches = refuse_429 r _ }
  checked-Replied fuel m (ok u, s) = concluded-Replied (m.dials + 2) _ (
      run_loop-Ends (Round (m.dials + 2)) (Stopped (m.dials + 2)) (Replied (m.dials + 2)) env e r
        (attempt-Keeps (m.dials + 2))
        (λ l d. record { few = omega (arith, d.few); drained = d.drained; succeeded = d.succeeded })
        fuel 2 _ (record { few = omega arith; drained = tt; succeeded = tt }))

  verdict-Replied :
      (fuel : ℕ) (v : Verdict) (m : Machine)
      → EndsReplied (m.dials + 2) (on_verdict env e r fuel v m)
  unfolding on_verdict admitted do_reserve_user limited finish
  verdict-Replied fuel allowed m = checked-Replied fuel m _
  verdict-Replied fuel (denied retry) m = record {
    few = omega arith;
    matches = (refl, (refl, refl), inl refl);
  }
  verdict-Replied fuel panics m = tt

  -- A request that is replied to has called upstreams at most twice, and the log agrees with what the
  -- client gets: nothing, logged as 499; an error object of status 429 or 502, logged with its status
  -- and text, but that the wait, which the rate limit's text and Retry-After give the client, is not in
  -- the log; an upstream's failure, logged with its status, which is not a success, and of whose body
  -- nothing is left; or an answer of an upstream that succeeded, logged as 200 with no error.
  pub proxy_replies :
      (fuel : ℕ) (l : Limiter) (m : Machine) → EndsReplied (m.dials + 2) (proxy env e r fuel l m).0
  unfolding proxy
  proxy_replies fuel l m = verdict-Replied fuel (allow l r.user_id r.now.instant).0 m
