-- ===== src/Text.antt =====
-- Go strings and byte slices, with the parts of the packages strings and encoding/hex that the
-- relay calls. A text is its list of bytes; the letter case and the white space of strings.ToLower,
-- strings.EqualFold and strings.TrimSpace are those of ASCII.
use Prim.Native.Char.{code}
use Prim.Native.String.{String}
use mathlib.Core.List.{reverse}
use code_agent_router.Prelude.{
  ℕ, ◌+◌, ◌/◌, ◌%◌, ◌≡◌, ◌↔◌, refl, Bool, true, false, ◌&&◌, ◌||◌, List, [], ◌∷◌, map, arith, ltb,
  leb, ◌==◌, if◌then◌else◌,
}

abbrev pub Bytes : Type 0
Bytes = List ℕ

-- The code points of a literal, which are its bytes if it is ASCII.
abbrev pub codes : String → Bytes
codes String.[] = []
codes (String.◌∷◌ c s) = code c ∷ codes s

-- `a == b` on strings.
unfoldable pub str_eq : Bytes → Bytes → Bool
str_eq [] [] = true
str_eq [] (y ∷ ys) = false
str_eq (x ∷ xs) [] = false
str_eq (x ∷ xs) (y ∷ ys) = x == y && str_eq xs ys

pub str_eq_iff : (a b : Bytes) → (str_eq a b ≡ true) ↔ (a ≡ b)
unfolding str_eq
str_eq_iff [] [] = ((λ _. refl), (λ _. refl))
str_eq_iff [] (y ∷ ys) = ((λ h. cc), (λ h. cc))
str_eq_iff (x ∷ xs) [] = ((λ h. cc), (λ h. cc))
str_eq_iff (x ∷ xs) (y ∷ ys) =
    ((λ h. ground (arith, str_eq_iff xs ys)), (λ h. ground (arith, str_eq_iff xs ys)))

pub str_eq_refl : (a : Bytes) → str_eq a a ≡ true
str_eq_refl a = (str_eq_iff a a).1 refl

-- `a < b` on strings: bytewise lexicographic order.
unfoldable pub str_lt : Bytes → Bytes → Bool
str_lt [] [] = false
str_lt [] (y ∷ ys) = true
str_lt (x ∷ xs) [] = false
str_lt (x ∷ xs) (y ∷ ys) = ltb x y || x == y && str_lt xs ys

unfoldable pub is_empty : Bytes → Bool
is_empty [] = true
is_empty (x ∷ xs) = false

-- unicode.IsSpace on ASCII: \t \n \v \f \r and the space.
unfoldable pub is_space : ℕ → Bool
is_space c = leb 9 c && leb c 13 || c == 32

unfoldable pub trim_left : Bytes → Bytes
unfolding is_space
trim_left [] = []
trim_left (c ∷ s) = if is_space c then trim_left s else c ∷ s

unfoldable pub trim_space : Bytes → Bytes
unfolding trim_left
trim_space s = reverse (trim_left (reverse (trim_left s)))

lower_code : ℕ → ℕ
lower_code c = if leb b'A' c && leb c b'Z' then c + 32 else c

unfoldable pub to_lower : Bytes → Bytes
unfolding lower_code
to_lower = map lower_code

unfoldable pub equal_fold : Bytes → Bytes → Bool
unfolding to_lower str_eq
equal_fold a b = str_eq (to_lower a) (to_lower b)

unfoldable pub hex_digit : ℕ → ℕ
hex_digit d = if ltb d 10 then d + 48 else d + 87

-- hex.EncodeToString.
unfoldable pub hex_encode : Bytes → Bytes
unfolding hex_digit
hex_encode [] = []
hex_encode (b ∷ bs) = hex_digit (b / 16) ∷ hex_digit (b % 16) ∷ hex_encode bs

trim_lower_test : to_lower (trim_space (codes " GPT-4 \n")) ≡ codes "gpt-4"
unfolding to_lower trim_space
trim_lower_test = refl

hex_encode_test : hex_encode (0 ∷ 171 ∷ []) ≡ codes "00ab"
unfolding hex_encode
hex_encode_test = refl
