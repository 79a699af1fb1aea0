-- ===== src/Auth/Password.antt =====
-- The password hashes of internal/auth/auth.go. `hmac` is HMAC-SHA256 of crypto/hmac, with the parts
-- of its data put together.
use code_agent_router.Prelude.{
  ℕ, zero, suc, ◌+◌, ◌-◌, ◌*◌, ◌^◌, Bool, true, false, not, ◌&&◌, ◌||◌, Option, none, some, List,
  [], ◌∷◌, ◌++◌, if◌then◌else◌, ltb, leb, ◌==◌, length, take,
}
use Prim.Native.Nat.{bit_xor}
use code_agent_router.Prelude.Int.{ℤ, pos, ◌-ℤ◌}
use code_agent_router.Text.{Bytes, codes, str_eq, hex_encode}

-- `strings.Split` at a separator of one byte.
unfoldable pub extend : ℕ → List Bytes → List Bytes
extend b [] = (b ∷ []) ∷ []
extend b (w ∷ ws) = (b ∷ w) ∷ ws

unfoldable pub split_at : ℕ → Bytes → List Bytes
unfolding extend
split_at c [] = [] ∷ []
split_at c (b ∷ bs) =
    let rest : List Bytes = split_at c bs in if b == c then [] ∷ rest else extend b rest

-- The value of decimal digits, after those of `acc`.
unfoldable pub digits : (acc : ℕ) → Bytes → Option ℕ
digits acc [] = some acc
digits acc (b ∷ bs) =
    let rest : Option ℕ = digits (acc * 10 + (b - 48)) bs in
    if leb 48 b && leb b 57 then rest else none

unfoldable pub unsigned : Bytes → Option ℕ
unfolding digits
unsigned [] = none
unsigned (b ∷ bs) = digits 0 (b ∷ bs)

-- The integer, if it fits an int64.
unfoldable pub signed : (negative : Bool) → Option ℕ → Option ℤ
signed negative none = none
signed false (some n) = if ltb n (2 ^ 63) then some (pos n) else none
signed true (some n) = if leb n (2 ^ 63) then some (pos 0 -ℤ pos n) else none

-- `strconv.Atoi`
unfoldable pub atoi : Bytes → Option ℤ
unfolding unsigned signed
atoi [] = none
atoi (b ∷ bs) =
    if b == 43
    then signed false (unsigned bs)
    else if b == 45
    then signed true (unsigned bs)
    else signed false (unsigned (b ∷ bs))

unfoldable pub hex_value : ℕ → Option ℕ
hex_value b =
    if leb 48 b && leb b 57
    then some (b - 48)
    else if leb 97 b && leb b 102
    then some (b - 87)
    else if leb 65 b && leb b 70
    then some (b - 55)
    else none

unfoldable pub hex_pair : Option ℕ → Option ℕ → Option Bytes → Option Bytes
hex_pair (some h) (some l) (some bs) = some ((h * 16 + l) ∷ bs)
hex_pair none l bs = none
hex_pair (some h) none bs = none
hex_pair (some h) (some l) none = none

-- `hex.DecodeString`
unfoldable pub hex_decode : Bytes → Option Bytes
unfolding hex_value hex_pair
hex_decode [] = some []
hex_decode (h ∷ []) = none
hex_decode (h ∷ l ∷ bs) = hex_pair (hex_value h) (hex_value l) (hex_decode bs)

-- `for j := range t { t[j] ^= u[j] }`; an HMAC always has the same length.
unfoldable pub xor_bytes : Bytes → Bytes → Bytes
xor_bytes [] us = []
xor_bytes (t ∷ ts) [] = t ∷ ts
xor_bytes (t ∷ ts) (u ∷ us) = bit_xor t u ∷ xor_bytes ts us

module _ (hmac : (key text : Bytes) → Bytes) where
  -- The loop of `pbkdf2SHA256`, with the number of rounds that are left.
  unfoldable pub rounds : (password : Bytes) → ℕ → (u t : Bytes) → Bytes
  unfolding xor_bytes
  rounds password zero u t = t
  rounds password (suc n) u t =
      let u' : Bytes = hmac password u in rounds password n u' (xor_bytes t u')

  -- `pbkdf2SHA256`; `none` is the panic of a slice beyond the 32 bytes that are there.
  unfoldable pub pbkdf2 : (password salt : Bytes) → (iter key_len : ℕ) → Option Bytes
  unfolding rounds
  pbkdf2 password salt iter key_len =
      let u : Bytes = hmac password (salt ++ 0 ∷ 0 ∷ 0 ∷ 1 ∷ []) in
      let t : Bytes = rounds password (iter - 1) u u in
      if ltb (length t) key_len then none else some (take key_len t)

  unfoldable pub same_key : Bytes → Option Bytes → Option Bool
  same_key expect none = none
  same_key expect (some got) = some (str_eq got expect)

  -- `VerifyPassword` from its decoded parts.
  unfoldable pub verify_parts :
      (iter : Option ℤ) → (salt expect : Option Bytes) → (password : Bytes) → Option Bool
  unfolding pbkdf2 same_key
  verify_parts none salt expect password = some false
  verify_parts (some iter) none expect password = some false
  verify_parts (some iter) (some salt) none password = some false
  verify_parts (some (ℤ.negsuc n)) (some salt) (some expect) password = some false
  verify_parts (some (pos n)) (some salt) (some expect) password =
      if n == 0 || length expect == 0
      then some false
      else same_key expect (pbkdf2 password salt n (length expect))

  unfoldable pub verify_split : List Bytes → (password : Bytes) → Option Bool
  unfolding verify_parts atoi hex_decode
  verify_split (scheme ∷ iter ∷ salt ∷ expect ∷ []) password =
      if not (str_eq scheme (codes "pbkdf2"))
      then some false
      else verify_parts (atoi iter) (hex_decode salt) (hex_decode expect) password
  verify_split parts password = some false

  -- `VerifyPassword`; `none` is a panic.
  unfoldable pub verify_password : (hash password : Bytes) → Option Bool
  unfolding verify_split split_at
  verify_password hash password = verify_split (split_at 36 hash) password

-- The number of rounds of `HashPassword`.
abbrev pub hash_rounds : ℕ
hash_rounds = 120_000

-- `HashPassword` around the derived key.
unfoldable pub hash_text : (salt : Bytes) → Option Bytes → Option Bytes
unfolding hex_encode
hash_text salt none = none
hash_text salt (some key) = some (codes "pbkdf2$120000$" ++ hex_encode salt ++ 36 ∷ hex_encode key)

-- `HashPassword`, with the 16 bytes of the random source.
unfoldable pub hash_password :
    (hmac : (key text : Bytes) → Bytes) → (password salt : Bytes) → Option Bytes
unfolding hash_text pbkdf2
hash_password hmac password salt = hash_text salt (pbkdf2 hmac password salt hash_rounds 32)
