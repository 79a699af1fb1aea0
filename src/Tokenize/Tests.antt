-- ===== src/Tokenize/Tests.antt =====
-- The estimates of internal/tokenize/tokenize.go on concrete texts and numbers.
use code_agent_router.Prelude.{
  ℕ, ◌+◌, ◌*◌, ◌^◌, ◌≤◌, ◌<◌, ◌≡◌, refl, Bool, List, ◌∷◌, ◌++◌, length, leb, arith,
}
use Prim.Native.Nat.{min}
use code_agent_router.Prelude.Int.{pos, ◌≤ℤ◌, ◌<ℤ◌, ◌*ℤ◌}
use code_agent_router.Text.{codes, str_eq}
use code_agent_router.Json.{Fields, num, str, arr, obj, nil, cons, done, field, get}
use code_agent_router.Tokenize.{
  max_completion_estimate, estimate_text, estimate_completion_tokens, estimate_chat_payload,
}
use code_agent_router.Tokenize.Bounds.{
  or_default, estimate_text_bounds, estimate_completion_capped, estimate_completion_wraps,
}

-- The block of the common Han characters.
abbrev han : ℕ → Bool
han r = leb 0x4e00 r

abbrev greeting : List ℕ
greeting = 0x4f60 ∷ 0x597d ∷ codes ", relay"

estimate_text_test : estimate_text han greeting ≡ 4
unfolding estimate_text
estimate_text_test = refl

estimate_text_bounds_example :
    (length greeting ≤ 4 * estimate_text han greeting)
    × (estimate_text han greeting ≤ length greeting)
    × (estimate_text han (greeting ++ greeting)
        ≤ estimate_text han greeting + estimate_text han greeting)
    × (estimate_text han greeting + estimate_text han greeting
        ≤ estimate_text han (greeting ++ greeting) + 1)
estimate_text_bounds_example = estimate_text_bounds han greeting greeting

estimate_completion_capped_example :
    (estimate_completion_tokens (pos 0) (pos 3) ≤ℤ pos max_completion_estimate)
    × (or_default 4096 0 * or_default 1 3 < 2 ^ 63
        → estimate_completion_tokens (pos 0) (pos 3)
          ≡ pos (min (or_default 4096 0 * or_default 1 3) max_completion_estimate))
estimate_completion_capped_example = estimate_completion_capped 0 3

estimate_completion_wraps_example : estimate_completion_tokens (pos (2 ^ 62)) (pos 2) <ℤ pos 0
estimate_completion_wraps_example = estimate_completion_wraps (2 ^ 62) 2 (omega arith) (omega arith)

message : Fields
message = field (codes "content") (str (codes "eight by")) done

payload : Fields
unfolding message
payload =
    field (codes "messages") (arr (cons (obj message) nil))
      (field (codes "max_tokens") (num (pos 100)) (field (codes "n") (num (pos 2)) done))

estimate_chat_payload_test : estimate_chat_payload han payload ≡ (6, pos 200)
unfolding estimate_chat_payload payload get str_eq ◌*ℤ◌
estimate_chat_payload_test = refl
