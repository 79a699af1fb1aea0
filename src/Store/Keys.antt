-- ===== src/Store/Keys.antt =====
-- The methods of internal/store/state.go on upstream keys, and the encryption of their secrets.
use code_agent_router.Prelude.{
  ℕ, ◌≡◌, Bool, true, false, Option, none, some, List, [], ◌∷◌, ◌++◌, if◌then◌else◌, keep, length,
  ltb, take, drop,
}
use code_agent_router.Prelude.Int.{ℤ}
use code_agent_router.Text.{Bytes, codes, str_eq, str_lt, trim_space, to_lower, is_empty}
use code_agent_router.Map.{lookup, insert, erase, values}
use code_agent_router.Clock.{Time, before}
use code_agent_router.Model.{UpstreamKey}
use code_agent_router.Result.{
  Result, ok, err, user_not_found, upstream_key_missing, io_failure, invalid_ciphertext,
  decrypt_failure,
}
use code_agent_router.Router.{sort_stable}
use code_agent_router.Store.State.{Store, changed}
use code_agent_router.Store.Users.{random_id}

-- AES-GCM under the store's key, as crypto/cipher documents it: `Open` gives back what `Seal` was
-- given under the same nonce.
pub record Gcm : Type 0 where
  pub seal : (nonce plain : Bytes) → Bytes
  pub open_sealed : (nonce ciphertext : Bytes) → Option Bytes
  pub open-seal : (nonce plain : Bytes) → open_sealed nonce (seal nonce plain) ≡ some plain

-- `gcm.NonceSize()`
abbrev pub nonce_size : ℕ
nonce_size = 12

-- The list that `normalizeModels` builds; `seen` holds what is in it.
unfoldable pub member : Bytes → List Bytes → Bool
member m [] = false
member m (x ∷ xs) = if str_eq m x then true else member m xs

unfoldable pub collect : (seen models : List Bytes) → List Bytes
unfolding member
collect seen [] = []
collect seen (m ∷ ms) =
    let name : Bytes = to_lower (trim_space m) in
    let skipped : List Bytes = collect seen ms in
    let taken : List Bytes = collect (name ∷ seen) ms in
    if is_empty name then skipped else if member name seen then skipped else name ∷ taken

unfoldable pub normalize_models : List Bytes → List Bytes
unfolding collect sort_stable
normalize_models models = sort_stable str_lt (collect [] models)

module _ (gcm : Gcm) where
  open gcm use {seal, open_sealed}

  -- `Encrypt`; the random source gives the nonce, or fails.
  unfoldable pub encrypt : (nonce : Option Bytes) → Bytes → Result Bytes
  encrypt none plain = err io_failure
  encrypt (some nonce) plain = ok (nonce ++ seal nonce plain)

  -- The last part of `Decrypt`.
  unfoldable pub opened : Option Bytes → Result Bytes
  opened none = err decrypt_failure
  opened (some plain) = ok plain

  unfoldable pub decrypt : Bytes → Result Bytes
  unfolding opened
  decrypt sealed =
      if ltb (length sealed) nonce_size
      then err invalid_ciphertext
      else opened (open_sealed (take nonce_size sealed) (drop nonce_size sealed))

  unfoldable pub decrypt_api_key : UpstreamKey → Result Bytes
  unfolding decrypt
  decrypt_api_key k = decrypt k.api_key_enc

  unfoldable pub create_upstream_key :
      (user_id name base_url api_key : Bytes)
      → (models : List Bytes) → Bool
      → (hourly_limit : ℤ) → (nonce : Option Bytes) → (entropy : Bytes) → (now : Time) → Store
      → Result UpstreamKey × Store
  unfolding encrypt random_id normalize_models
  create_upstream_key user_id name base_url api_key models enabled hourly_limit nonce entropy now
        s =
      elim (encrypt nonce api_key) [
        | err e ↦ (err e, s)
        | ok enc ↦
            let k : UpstreamKey = record {
              id = random_id (codes "k_") entropy;
              user_id = user_id;
              name = name;
              base_url = base_url;
              api_key_enc = enc;
              models = normalize_models models;
              enabled = enabled;
              created_at = now;
              hourly_limit = hourly_limit;
            } in
            elim (lookup user_id s.users) [
              | none ↦ (err user_not_found, s)
              | some u ↦ (
                ok k,
                changed s (record s.state { upstream_keys = insert k.id k s.upstream_keys }),
              )
            ]
      ]

unfoldable pub get_upstream_key : Bytes → Store → Option UpstreamKey
get_upstream_key id s = lookup id s.upstream_keys

unfoldable pub list_upstream_keys : Bytes → Store → List UpstreamKey
unfolding sort_stable
list_upstream_keys user_id s =
    sort_stable (λ a b. before a.created_at b.created_at)
      (keep (λ k. str_eq k.user_id user_id) (values s.upstream_keys))

unfoldable pub all_upstream_keys : Store → List UpstreamKey
all_upstream_keys s = values s.upstream_keys

unfoldable pub replace_upstream_key : UpstreamKey → Store → Result (Unit {0}) × Store
unfolding normalize_models
replace_upstream_key k s = elim (lookup k.id s.upstream_keys) [
  | none ↦ (err upstream_key_missing, s)
  | some old ↦
      let k' : UpstreamKey = record k {
        user_id = old.user_id;
        created_at = old.created_at;
        models = normalize_models k.models;
      } in
      (ok tt, changed s (record s.state { upstream_keys = insert k.id k' s.upstream_keys }))
]

unfoldable pub delete_upstream_key : Bytes → Store → Result (Unit {0}) × Store
delete_upstream_key id s = elim (lookup id s.upstream_keys) [
  | none ↦ (err upstream_key_missing, s)
  | some k ↦ (
    ok tt,
    changed s (record s.state {
      upstream_keys = erase id s.upstream_keys;
      key_hours = erase id s.key_hours;
      in_flight = erase id s.in_flight;
    }),
  )
]
