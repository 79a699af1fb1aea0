-- ===== src/Tokenize/Bounds.antt =====
-- What the estimates of internal/tokenize/tokenize.go are worth: bounds for the text, and for the
-- completion the cap, the exact value where the product is an int64, and its sign where it is not.
use Prim.Native.Nat.{zero, suc, min}
use code_agent_router.Prelude.{
  ℕ, ap, ◌+◌, ◌*◌, ◌^◌, ◌≤◌, ◌<◌, ◌≡◌, refl, Bool, List, [], ◌∷◌, ◌++◌, length, if◌then◌else◌,
  arith,
}
use code_agent_router.Prelude.Int.{ℤ, pos, ltb_ℤ, ◌≤ℤ◌, ◌<ℤ◌}
use code_agent_router.Prelude.Int64.{mul64, wrap64, wrap64_id, wrap64_high, *ℤ_pos}
use code_agent_router.Tokenize.{
  max_completion_estimate, quarters, estimate_text, estimate_completion_tokens,
}

module _ (is_cjk : ℕ → Bool) where
  quarters_bounds :
      (s : List ℕ) → (length s ≤ quarters is_cjk s) × (quarters is_cjk s ≤ 4 * length s)
  unfolding quarters
  quarters_bounds [] = omega arith
  quarters_bounds (r ∷ rs) = ground (arith, quarters_bounds rs)

  quarters-append :
      (s t : List ℕ) → quarters is_cjk (s ++ t) ≡ quarters is_cjk s + quarters is_cjk t
  unfolding quarters
  quarters-append [] t = omega arith
  quarters-append (r ∷ rs) t = omega (arith, quarters-append rs t)

  -- The estimate of a text is at least a quarter of its length and at most its length, and an
  -- estimate of two parts adds at most one token to that of the whole.
  pub estimate_text_bounds :
      (s t : List ℕ)
      → (length s ≤ 4 * estimate_text is_cjk s)
        × (estimate_text is_cjk s ≤ length s)
        × (estimate_text is_cjk (s ++ t) ≤ estimate_text is_cjk s + estimate_text is_cjk t)
        × (estimate_text is_cjk s + estimate_text is_cjk t ≤ estimate_text is_cjk (s ++ t) + 1)
  unfolding estimate_text
  estimate_text_bounds s t =
      let (a, b) = quarters_bounds s in let e = quarters-append s t in omega arith

-- The defaults that stand in for a missing or non-positive number.
abbrev pub or_default : ℕ → ℕ → ℕ
or_default d zero = d
or_default d (suc n) = suc n

default_lem : (d m : ℕ) → (if ltb_ℤ (pos 0) (pos m) then pos m else pos d) ≡ pos (or_default d m)
default_lem d zero = refl
default_lem d (suc m) = ground arith

-- `min` with the cap, on an int64.
abbrev capped : ℤ → ℤ
capped z = if ltb_ℤ (pos max_completion_estimate) z then pos max_completion_estimate else z

estimate_lem :
    (m n : ℕ)
    → estimate_completion_tokens (pos m) (pos n)
      ≡ capped (wrap64 (pos (or_default 4096 m * or_default 1 n)))
unfolding estimate_completion_tokens mul64
estimate_lem m n =
    rw (default_lem 4096 m, default_lem 1 n)
      (ap (λ z. capped (wrap64 z)) (*ℤ_pos (or_default 4096 m) (or_default 1 n)))

capped_le : (z : ℤ) → capped z ≤ℤ pos max_completion_estimate
capped_le z = ground arith

capped_pos : (p : ℕ) → capped (pos p) ≡ pos (min p max_completion_estimate)
capped_pos p = ground arith

-- The reservation for a completion is never above the cap. Where the client's numbers are not
-- negative and their product, with the defaults put in, is an int64, it is that product or the cap,
-- whichever is less.
pub estimate_completion_capped :
    (m n : ℕ)
    → (estimate_completion_tokens (pos m) (pos n) ≤ℤ pos max_completion_estimate)
      × (or_default 4096 m * or_default 1 n < 2 ^ 63
          → estimate_completion_tokens (pos m) (pos n)
            ≡ pos (min (or_default 4096 m * or_default 1 n) max_completion_estimate))
estimate_completion_capped m n = (
  rw (estimate_lem m n) (capped_le (wrap64 (pos (or_default 4096 m * or_default 1 n)))),
  λ h.
      rw (estimate_lem m n, wrap64_id (pos (or_default 4096 m * or_default 1 n)) (h, omega arith))
        (capped_pos _),
)

no_default : (d m : ℕ) → 0 < m → or_default d m ≡ m
no_default d zero h = absurd (omega arith)
no_default d (suc m) h = refl

factors_pos : (m n : ℕ) → 0 < m * n → (0 < m) × (0 < n)
factors_pos zero n h = absurd (omega arith)
factors_pos (suc m) zero h = absurd (omega arith)
factors_pos (suc m) (suc n) h = omega arith

-- Where the product of the client's numbers is in the upper half of the 64-bit words, the estimate is
-- negative: the product has wrapped around below the cap.
pub estimate_completion_wraps :
    (m n : ℕ)
    → 2 ^ 63 ≤ m * n
    → m * n < 2 ^ 64
    → estimate_completion_tokens (pos m) (pos n) <ℤ pos 0
estimate_completion_wraps m n lo hi =
    let (pm, pn) = factors_pos m n (omega arith) in
    rw (estimate_lem m n, no_default 4096 m pm, no_default 1 n pn, wrap64_high (m * n) lo hi)
      (ground arith)
