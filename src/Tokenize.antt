-- ===== src/Tokenize.antt =====
-- internal/tokenize/tokenize.go: the estimates of a request's tokens. The prompt's estimate is at
-- most a small multiple of the body's size, which is limited, so it is a natural number; the
-- completion's is a product of numbers that the client sends, an int64.
pub mod Bounds
mod Tests
use code_agent_router.Prelude.{
  ℕ, ◌+◌, ◌*◌, ◌/◌, Bool, true, false, List, [], ◌∷◌, if◌then◌else◌, length,
}
use code_agent_router.Prelude.Int.{ℤ, pos, ltb_ℤ}
use code_agent_router.Prelude.Int64.{mul64}
use code_agent_router.Text.{codes}
use code_agent_router.Json.{Value, Items, Fields, null, bool, num, str, arr, obj, nil, cons, get}

abbrev pub max_completion_estimate : ℕ
max_completion_estimate = 16384

-- `isCJK` asks the tables of the package unicode.
module _ (is_cjk : ℕ → Bool) where
  -- The sum of `EstimateText`, in quarters of a token: the float64 holds such sums exactly.
  unfoldable pub quarters : List ℕ → ℕ
  quarters [] = 0
  quarters (r ∷ rs) = (if is_cjk r then 4 else 1) + quarters rs

  -- `EstimateText`; `math.Ceil` of a number of quarters.
  unfoldable pub estimate_text : List ℕ → ℕ
  unfolding quarters
  estimate_text text = (quarters text + 3) / 4

  -- `if s, ok := v.(string); ok { total += EstimateText(s) }`
  unfoldable pub estimate_string : Value → ℕ
  unfolding estimate_text
  estimate_string (str s) = estimate_text s
  estimate_string v = 0

  unfoldable pub estimate_part : Value → ℕ
  unfolding estimate_string
  estimate_part (obj fs) = estimate_string (get (codes "text") fs)
  estimate_part v = 0

  unfoldable pub estimate_parts : Items → ℕ
  unfolding estimate_part
  estimate_parts nil = 0
  estimate_parts (cons v vs) = estimate_part v + estimate_parts vs

  -- The switch of `EstimateChatPrompt` on a message's content.
  unfoldable pub estimate_content : Value → ℕ
  unfolding estimate_text estimate_parts
  estimate_content (str s) = estimate_text s
  estimate_content (arr vs) = estimate_parts vs
  estimate_content v = 0

  -- `EstimateChatPrompt`, on the items of `messages` that are objects.
  unfoldable pub estimate_chat_prompt : Items → ℕ
  unfolding estimate_content
  estimate_chat_prompt nil = 0
  estimate_chat_prompt (cons (obj m) ms) =
      4 + estimate_content (get (codes "content") m) + estimate_chat_prompt ms
  estimate_chat_prompt (cons v ms) = estimate_chat_prompt ms

  unfoldable pub estimate_strings : Items → ℕ
  unfolding estimate_string
  estimate_strings nil = 0
  estimate_strings (cons v vs) = estimate_string v + estimate_strings vs

  -- `EstimatePromptFromAny`
  unfoldable pub estimate_prompt_from_any : Value → ℕ
  unfolding estimate_text estimate_strings
  estimate_prompt_from_any (str s) = estimate_text s
  estimate_prompt_from_any (arr vs) = estimate_strings vs
  estimate_prompt_from_any v = 0

-- `EstimateCompletionTokens`
unfoldable pub estimate_completion_tokens : (max_tokens n : ℤ) → ℤ
unfolding mul64
estimate_completion_tokens max_tokens n =
    let max' : ℤ = if ltb_ℤ (pos 0) max_tokens then max_tokens else pos 4096 in
    let n' : ℤ = if ltb_ℤ (pos 0) n then n else pos 1 in
    let total : ℤ = mul64 max' n' in
    if ltb_ℤ (pos max_completion_estimate) total then pos max_completion_estimate else total

-- `intNumber`
unfoldable pub int_number : Value → ℤ
int_number (num x) = x
int_number v = pos 0

abbrev items_of : Value → Items
items_of (arr vs) = vs
items_of v = nil

-- The completion part of the two payload estimates.
unfoldable pub estimate_completion : Fields → ℤ
unfolding estimate_completion_tokens int_number
estimate_completion payload =
    estimate_completion_tokens (int_number (get (codes "max_tokens") payload))
      (int_number (get (codes "n") payload))

module _ (is_cjk : ℕ → Bool) where
  -- `EstimateChatPayload`
  unfoldable pub estimate_chat_payload : Fields → ℕ × ℤ
  unfolding estimate_chat_prompt estimate_completion
  estimate_chat_payload payload = (
    estimate_chat_prompt is_cjk (items_of (get (codes "messages") payload)),
    estimate_completion payload,
  )

  -- `EstimateCompletionPayload`
  unfoldable pub estimate_completion_payload : Fields → ℕ × ℤ
  unfolding estimate_prompt_from_any estimate_completion
  estimate_completion_payload payload =
      (estimate_prompt_from_any is_cjk (get (codes "prompt") payload), estimate_completion payload)

  -- `EstimateEmbeddingPayload`
  unfoldable pub estimate_embedding_payload : Fields → ℕ
  unfolding estimate_prompt_from_any
  estimate_embedding_payload payload = estimate_prompt_from_any is_cjk (get (codes "input") payload)
