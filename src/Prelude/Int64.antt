-- ===== src/Prelude/Int64.antt =====
-- Go's int64 (and int, on a 64-bit target): an integer, with the wrap-around of `+`, `-` and `*`
-- written out. A sum, a difference or a product is reduced modulo 2^64 into [-2^63, 2^63).
use Prim.Native.Nat.{ℕ, ◌-◌, ◌%◌, ◌^◌, ◌≤◌, ◌<◌, ◌*◌}
use mathlib.Core.Path.{◌≡◌, ◌∙◌, ap, sym}
use native.Mathlib.Omega.{arith}
use code_agent_router.Prelude.Tests.{ltb, if◌then◌else◌}
use code_agent_router.Prelude.Int.{
  ℤ, pos, negsuc, pos_part, neg_part, ◌+ℤ◌, ◌-ℤ◌, ◌*ℤ◌, ◌≤ℤ◌, ltb_ℤ,
}
use code_agent_router.Prelude.{◌+◌, ap, List, ◌∷◌, [], sym, ◌++◌}

-- The bit pattern of an integer, below 2^64.
unfoldable pub to_word : ℤ → ℕ
to_word (pos n) = n % 2 ^ 64
to_word (negsuc n) = 2 ^ 64 - 1 - n % 2 ^ 64

-- The integer that a bit pattern stands for.
unfoldable pub of_word : ℕ → ℤ
of_word w = if ltb w (2 ^ 63) then pos w else negsuc (2 ^ 64 - 1 - w)

unfoldable pub wrap64 : ℤ → ℤ
unfolding to_word of_word
wrap64 z = of_word (to_word z)

unfoldable pub add64 : ℤ → ℤ → ℤ
unfolding wrap64
add64 a b = wrap64 (a +ℤ b)

unfoldable pub sub64 : ℤ → ℤ → ℤ
unfolding wrap64
sub64 a b = wrap64 (a -ℤ b)

unfoldable pub mul64 : ℤ → ℤ → ℤ
unfolding wrap64
mul64 a b = wrap64 (a *ℤ b)

-- `max64` of internal/store/state.go and internal/report/report.go.
unfoldable pub max64 : ℤ → ℤ → ℤ
max64 a b = if ltb_ℤ b a then a else b

-- The value is representable.
abbrev pub Fits64 : ℤ → Type 0
Fits64 z = (pos_part z < 2 ^ 63) × (neg_part z ≤ 2 ^ 63)

pub wrap64_id : (z : ℤ) → Fits64 z → wrap64 z ≡ z
unfolding wrap64
wrap64_id (pos n) h = ground arith
wrap64_id (negsuc n) h = ground arith

pub wrap64-Fits64 : (z : ℤ) → Fits64 (wrap64 z)
unfolding wrap64
wrap64-Fits64 (pos n) = ground arith
wrap64-Fits64 (negsuc n) = ground arith

pub add64_exact : (a b : ℤ) → Fits64 (a +ℤ b) → add64 a b ≡ a +ℤ b
unfolding add64
add64_exact a b h = wrap64_id (a +ℤ b) h

pub sub64_exact : (a b : ℤ) → Fits64 (a -ℤ b) → sub64 a b ≡ a -ℤ b
unfolding sub64
sub64_exact a b h = wrap64_id (a -ℤ b) h

pub max64_nonneg : (z : ℤ) → pos 0 ≤ℤ max64 (pos 0) z
unfolding max64
max64_nonneg z = ground arith

pub max64_of_nonneg : (z : ℤ) → pos 0 ≤ℤ z → max64 (pos 0) z ≡ z
unfolding max64
max64_of_nonneg z h = ground arith

-- Taking back what was added gives the value again, even if the sum has wrapped around.
pub sub64-add64 : (a b : ℤ) → Fits64 a → sub64 (add64 a b) b ≡ a
unfolding sub64 add64 ◌+ℤ◌ ◌-ℤ◌
sub64-add64 a b h = ground arith

pub *ℤ_pos : (a b : ℕ) → pos a *ℤ pos b ≡ pos (a * b)
unfolding ◌*ℤ◌
*ℤ_pos a b = ground arith

-- A natural number in the upper half of the words stands for a negative number.
pub wrap64_high : (n : ℕ) → 2 ^ 63 ≤ n → n < 2 ^ 64 → wrap64 (pos n) ≡ negsuc (2 ^ 64 - 1 - n)
unfolding wrap64
wrap64_high n lo hi = ground arith

to_word-add : (a b : ℤ) → to_word (a +ℤ b) ≡ (to_word a + to_word b) % 2 ^ 64
unfolding to_word ◌+ℤ◌
to_word-add a b = ground arith

to_word-wrap64 : (z : ℤ) → to_word (wrap64 z) ≡ to_word z
unfolding to_word wrap64 of_word
to_word-wrap64 z = ground arith

pub add64_assoc : (a b c : ℤ) → add64 (add64 a b) c ≡ add64 a (add64 b c)
unfolding add64 wrap64
add64_assoc a b c = ap of_word (
    omega (
      arith,
      to_word-add (wrap64 (a +ℤ b)) c,
      to_word-wrap64 (a +ℤ b),
      to_word-add a b,
      to_word-add a (wrap64 (b +ℤ c)),
      to_word-wrap64 (b +ℤ c),
      to_word-add b c,
    ))

pub add64_comm : (a b : ℤ) → add64 a b ≡ add64 b a
unfolding add64 wrap64
add64_comm a b = ap of_word (omega (arith, to_word-add a b, to_word-add b a))

-- The sum of a list, as a loop of `+=` gives it.
abbrev pub sum64 : List ℤ → ℤ
sum64 [] = pos 0
sum64 (x ∷ xs) = add64 x (sum64 xs)

zero-+ℤ : (z : ℤ) → pos 0 +ℤ z ≡ z
unfolding ◌+ℤ◌
zero-+ℤ z = ground arith

pub zero-add64 : (z : ℤ) → Fits64 z → add64 (pos 0) z ≡ z
unfolding add64
zero-add64 z h = ap wrap64 (zero-+ℤ z) ∙ wrap64_id z h

pub add64-zero : (z : ℤ) → Fits64 z → add64 z (pos 0) ≡ z
add64-zero z h = add64_comm z (pos 0) ∙ zero-add64 z h

pub add64-Fits64 : (a b : ℤ) → Fits64 (add64 a b)
unfolding add64
add64-Fits64 a b = wrap64-Fits64 (a +ℤ b)

pub sum64-Fits64 : (xs : List ℤ) → Fits64 (sum64 xs)
sum64-Fits64 [] = (omega arith, omega arith)
sum64-Fits64 (x ∷ xs) = add64-Fits64 x (sum64 xs)

-- Two terms change places.
pub add64_swap : (a b c : ℤ) → add64 a (add64 b c) ≡ add64 b (add64 a c)
add64_swap a b c =
    sym (add64_assoc a b c) ∙ ap (λ x. add64 x c) (add64_comm a b) ∙ add64_assoc b a c

pub sum64-append : (xs ys : List ℤ) → sum64 (xs ++ ys) ≡ add64 (sum64 xs) (sum64 ys)
sum64-append [] ys = sym (zero-add64 (sum64 ys) (sum64-Fits64 ys))
sum64-append (x ∷ xs) ys =
    ap (add64 x) (sum64-append xs ys) ∙ sym (add64_assoc x (sum64 xs) (sum64 ys))
