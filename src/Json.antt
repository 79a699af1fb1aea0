-- ===== src/Json.antt =====
-- Decoded JSON, as encoding/json gives it in a map[string]any. A string is its list of code points.
-- A number is the integer that Go's conversion `int64(x)` of the float64 gives.
use code_agent_router.Prelude.{ℕ, Bool, List, if◌then◌else◌}
use code_agent_router.Prelude.Int.{ℤ}
use code_agent_router.Text.{Bytes, str_eq}

mutual
  pub data Value : Type 0 where
    null : Value
    bool : Bool → Value
    num : ℤ → Value
    str : List ℕ → Value
    arr : Items → Value
    obj : Fields → Value

  pub data Items : Type 0 where
    nil : Items
    cons : Value → Items → Items

  pub data Fields : Type 0 where
    done : Fields
    field : Bytes → Value → Fields → Fields

-- `m[key]`; a missing key reads as nil, which every type switch of the relay treats as null.
unfoldable pub get : Bytes → Fields → Value
get key done = null
get key (field k v fs) = if str_eq k key then v else get key fs
