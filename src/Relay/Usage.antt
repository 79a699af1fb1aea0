-- ===== src/Relay/Usage.antt =====
-- What the handlers of internal/api/relay.go read of an upstream's answer: the tokens that it
-- reports, and the characters of a stream that reports none. The parser of encoding/json is the
-- argument `unmarshal`.
use code_agent_router.Prelude.{
  ℕ, ◌+◌, ◌*◌, ◌/◌, Bool, true, false, not, ◌&&◌, ◌||◌, Option, none, some, List, [], ◌∷◌,
  if◌then◌else◌, length, ◌==◌, drop,
}
use code_agent_router.Prelude.Int.{ℤ, pos, ltb_ℤ}
use code_agent_router.Prelude.Int64.{add64}
use code_agent_router.Text.{Bytes, codes, str_eq, is_empty, trim_space}
use code_agent_router.Json.{Value, Fields, num, str, arr, obj, cons, get}

-- `numInt64`
unfoldable pub num_int64 : Value → ℤ
num_int64 (num x) = x
num_int64 v = pos 0

pub record UsagePayload : Type 0 where
  pub prompt_tokens : ℤ
  pub completion_tokens : ℤ
  pub total_tokens : ℤ

unfoldable pub usage_of : Value → Option UsagePayload
unfolding num_int64
usage_of (obj u) = some (record {
  prompt_tokens = num_int64 (get (codes "prompt_tokens") u);
  completion_tokens = num_int64 (get (codes "completion_tokens") u);
  total_tokens = num_int64 (get (codes "total_tokens") u);
})
usage_of v = none

-- The tokens of a report, if it has any: the total, else the sum of the two parts.
unfoldable pub reported : Option UsagePayload → (fallback : ℤ) → ℤ
reported none fallback = fallback
reported (some u) fallback =
    if ltb_ℤ (pos 0) u.total_tokens
    then u.total_tokens
    else if ltb_ℤ (pos 0) u.prompt_tokens || ltb_ℤ (pos 0) u.completion_tokens
    then add64 u.prompt_tokens u.completion_tokens
    else fallback

-- `completionEstimate`: 0.35 tokens a character, rounded up.
unfoldable pub completion_estimate : ℕ → ℕ
completion_estimate chars = (35 * chars + 99) / 100

-- `strings.HasPrefix`
unfoldable pub has_prefix : (prefix s : Bytes) → Bool
has_prefix [] s = true
has_prefix (p ∷ ps) [] = false
has_prefix (p ∷ ps) (c ∷ cs) = p == c && has_prefix ps cs

unfoldable pub rune_count : Value → ℕ
rune_count (str s) = length s
rune_count v = 0

unfoldable pub content_of : Value → ℕ
unfolding rune_count
content_of (obj d) = rune_count (get (codes "content") d)
content_of v = 0

-- The characters of the first choice of an event: its delta's content, and its text.
unfoldable pub choice_chars : Value → ℕ
unfolding content_of rune_count
choice_chars (obj ch) = content_of (get (codes "delta") ch) + rune_count (get (codes "text") ch)
choice_chars v = 0

unfoldable pub choices_chars : Value → ℕ
unfolding choice_chars
choices_chars (arr (cons ch rest)) = choice_chars ch
choices_chars v = 0

abbrev event_of : Option Fields → Option UsagePayload × ℕ
event_of none = (none, 0)
event_of (some o) = (usage_of (get (codes "usage") o), choices_chars (get (codes "choices") o))

module _ (unmarshal : Bytes → Option Fields) where
  -- `parseSSELine`
  unfoldable pub parse_sse_line : Bytes → Option UsagePayload × ℕ
  unfolding has_prefix usage_of choices_chars
  parse_sse_line line =
      let s : Bytes = trim_space line in
      let payload : Bytes = trim_space (drop 5 s) in
      if not (has_prefix (codes "data:") s)
      then (none, 0)
      else if is_empty payload || str_eq payload (codes "[DONE]")
      then (none, 0)
      else event_of (unmarshal payload)

  -- A later report replaces an earlier one.
  abbrev latest : Option UsagePayload → Option UsagePayload → Option UsagePayload
  latest none old = old
  latest (some u) old = some u

  -- The loop of `proxyStream` over the lines of the answer; `write_ok n` tells whether the n-th write
  -- to the client succeeds. The result is the tokens to settle.
  unfoldable pub stream_loop :
      (write_ok : ℕ → Bool)
      → (prompt : ℤ) → (n : ℕ) → Option UsagePayload
      → (chars : ℕ) → List Bytes
      → ℤ
  unfolding parse_sse_line reported completion_estimate
  stream_loop write_ok prompt n usage chars [] =
      reported usage (add64 prompt (pos (completion_estimate chars)))
  stream_loop write_ok prompt n usage chars (line ∷ lines) =
      let (u, delta) = parse_sse_line line in
      let rest : ℤ = stream_loop write_ok prompt (n + 1) (latest u usage) (chars + delta) lines in
      if not (write_ok n) then add64 prompt (pos (completion_estimate (chars + delta))) else rest

  -- `proxyJSON`; `read_ok` tells whether the whole answer could be read.
  unfoldable pub proxy_json : (read_ok : Bool) → (body : Bytes) → (prompt completion : ℤ) → ℤ
  unfolding usage_of reported
  proxy_json read_ok body prompt completion =
      if not read_ok then add64 prompt completion else elim (unmarshal body) [
        | none ↦ add64 prompt completion
        | some o ↦ reported (usage_of (get (codes "usage") o)) (add64 prompt completion)
      ]
