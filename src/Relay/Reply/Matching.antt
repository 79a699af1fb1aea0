-- ===== src/Relay/Reply/Matching.antt =====
-- When the log entry of internal/api/relay.go agrees with what the client gets.
use code_agent_router.Prelude.{
  ℕ, ◌≡◌, refl, ◌⊎◌, inl, inr, Bool, true, false, Option, none, some, [], ◌&&◌, ltb, leb, arith,
}
use code_agent_router.Model.{UpstreamKey}
use code_agent_router.Result.{
  Error, hourly_exhausted, daily_quota, hourly_quota, user_not_found, username_taken,
  access_key_not_found, upstream_key_missing, no_key, io_failure, invalid_ciphertext,
  decrypt_failure,
}
use code_agent_router.Relay.Machine.{Response}
use code_agent_router.Relay.Proxy.{
  Request, Sent, nothing, error_object, passes, answers, Entry, Message, no_message,
  rate_limit_exceeded, rate_limit_retry, upstream_error, finish, refuse, select_failure,
}
use code_agent_router.Quota.{Engine}
use code_agent_router.Clock.{Time}

abbrev pub is_success : Response → Bool
is_success resp = leb 200 resp.status && ltb resp.status 300

-- The text of an error and what is logged of it. The rate limit's answer has the wait in its text and
-- in its Retry-After, and the log does not have the wait.
abbrev pub IsLogged : (retry_after : Option ℕ) → (text logged : Message) → Type 0
IsLogged none text logged = logged ≡ text
IsLogged (some secs) text logged = (text ≡ rate_limit_retry secs) × (logged ≡ rate_limit_exceeded)

-- What is logged for what the client gets.
abbrev pub Matches : Sent → Entry → Type 0
Matches nothing en = en.status ≡ 499
Matches (error_object status msg retry) en =
    (en.status ≡ status) × IsLogged retry msg en.error × ((status ≡ 429) ⊎ (status ≡ 502))
Matches (passes resp) en =
    (resp.body ≡ [])
    × (is_success resp ≡ false)
    × (en.status ≡ resp.status)
    × (en.error ≡ upstream_error)
Matches (answers resp) en = (is_success resp ≡ true) × (en.status ≡ 200) × (en.error ≡ no_message)

-- A failure that is kept for the client has been drained.
abbrev pub Drained : Option (UpstreamKey × Response) → Type 0
Drained none = Unit
Drained (some (key, resp)) = (resp.body ≡ []) × (is_success resp ≡ false)

abbrev pub Succeeded : Option (UpstreamKey × Response) → Type 0
Succeeded none = Unit
Succeeded (some (key, resp)) = is_success resp ≡ true

pub refuse_429 :
    (r : Request) (msg : Message) → Matches (error_object 429 msg none) (refuse r 429 msg).entry
unfolding refuse finish
refuse_429 r msg = (ground arith, refl, inl refl)

pub refuse_502 :
    (r : Request) (msg : Message) → Matches (error_object 502 msg none) (refuse r 502 msg).entry
unfolding refuse finish
refuse_502 r msg = (ground arith, refl, inr refl)

-- What `SelectKey` fails with is answered with 429 or 502.
pub select_failure-Matches :
    (eng : Engine) (now : Time) (r : Request) (x : Error)
    → let (status, msg) = select_failure eng now x in
      Matches (refuse r status msg).sent (refuse r status msg).entry
unfolding select_failure refuse
select_failure-Matches eng now r hourly_exhausted = refuse_429 r _
select_failure-Matches eng now r daily_quota = refuse_502 r _
select_failure-Matches eng now r hourly_quota = refuse_502 r _
select_failure-Matches eng now r user_not_found = refuse_502 r _
select_failure-Matches eng now r username_taken = refuse_502 r _
select_failure-Matches eng now r access_key_not_found = refuse_502 r _
select_failure-Matches eng now r upstream_key_missing = refuse_502 r _
select_failure-Matches eng now r no_key = refuse_502 r _
select_failure-Matches eng now r io_failure = refuse_502 r _
select_failure-Matches eng now r invalid_ciphertext = refuse_502 r _
select_failure-Matches eng now r decrypt_failure = refuse_502 r _
