-- ===== src/Router.antt =====
-- internal/router/router.go: the choice of an upstream key for a request.
pub mod Order
pub mod Choice
mod Tests
use code_agent_router.Prelude.{
  Bool, true, false, not, ◌&&◌, ◌||◌, List, [], ◌∷◌, keep, get_or, if◌then◌else◌,
}
use code_agent_router.Prelude.Int.{ℤ, pos, ltb_ℤ}
use code_agent_router.Text.{Bytes, str_eq, str_lt, trim_space, to_lower}
use code_agent_router.Map.{Map, lookup}
use code_agent_router.Model.{UpstreamKey}
use code_agent_router.Result.{Result, ok, err, no_key, hourly_exhausted}

-- The loop of `servesModel` over the key's models.
unfoldable pub serves_any : Bytes → List Bytes → Bool
serves_any model [] = false
serves_any model (m ∷ ms) =
    str_eq (to_lower (trim_space m)) (to_lower (trim_space model)) || serves_any model ms

unfoldable pub serves_model : UpstreamKey → Bytes → Bool
serves_model k model = elim k.models [ [] ↦ true | m ∷ ms ↦ serves_any model (m ∷ ms) ]

unfoldable pub hourly_limit : UpstreamKey → ℤ → ℤ
hourly_limit k fallback = if ltb_ℤ (pos 0) k.hourly_limit then k.hourly_limit else fallback

-- The order of `best`: usage, then requests in flight, then the identifier.
unfoldable pub less : (Bytes → ℤ) → (Bytes → ℤ) → UpstreamKey → UpstreamKey → Bool
less usage in_flight a b =
    if ltb_ℤ (usage a.id) (usage b.id)
    then true
    else if ltb_ℤ (usage b.id) (usage a.id)
    then false
    else if ltb_ℤ (in_flight a.id) (in_flight b.id)
    then true
    else if ltb_ℤ (in_flight b.id) (in_flight a.id)
    then false
    else str_lt a.id b.id

-- `sort.SliceStable`: an element goes before those that are not less than it.
unfoldable pub insert_stable {ℓ} : {A : Type ℓ} → (A → A → Bool) → A → List A → List A
insert_stable less x [] = x ∷ []
insert_stable less x (y ∷ ys) = if less y x then y ∷ insert_stable less x ys else x ∷ y ∷ ys

unfoldable pub sort_stable {ℓ} : {A : Type ℓ} → (A → A → Bool) → List A → List A
unfolding insert_stable
sort_stable less [] = []
sort_stable less (x ∷ xs) = insert_stable less x (sort_stable less xs)

module _ (usage : Bytes → ℤ) (in_flight : Bytes → ℤ) where
  -- `best`, on a list with a first element; `k` stands for `list[0]` of the empty list, which the
  -- callers exclude.
  unfoldable pub best : UpstreamKey → List UpstreamKey → UpstreamKey
  unfolding sort_stable less
  best k ks = elim (sort_stable (less usage in_flight) (k ∷ ks)) [ [] ↦ k | b ∷ bs ↦ b ]

-- The arguments of `Select` besides the keys.
pub record Query : Type 0 where
  pub user_id : Bytes
  pub model_name : Bytes
  pub working : Bool
  pub default_hourly : ℤ
  pub exclude : Map Bool
  pub usage : Bytes → ℤ
  pub in_flight : Bytes → ℤ

-- The guards of the loop, with the model name in lower case.
unfoldable pub usable : Query → UpstreamKey → Bool
usable q k =
    k.enabled
    && not (get_or false (lookup k.id q.exclude))
    && serves_model k (to_lower (trim_space q.model_name))

unfoldable pub is_own : Query → UpstreamKey → Bool
is_own q k = str_eq k.user_id q.user_id

-- The two lists that the loop fills.
unfoldable pub own_keys : Query → List UpstreamKey → List UpstreamKey
own_keys q = keep (λ k. usable q k && is_own q k)

unfoldable pub pool_keys : Query → List UpstreamKey → List UpstreamKey
pool_keys q = keep (λ k. usable q k && not (is_own q k))

unfoldable pub has_room : Query → UpstreamKey → Bool
has_room q k = ltb_ℤ (q.usage k.id) (hourly_limit k q.default_hourly)

unfoldable pub qualified : Query → List UpstreamKey → List UpstreamKey
qualified q list = if not q.working then list else keep (has_room q) list

-- The errors of the last lines of `Select`.
unfoldable pub refuse : List UpstreamKey → List UpstreamKey → Result UpstreamKey
refuse [] [] = err no_key
refuse [] (k ∷ ks) = err hourly_exhausted
refuse (k ∷ ks) pool = err hourly_exhausted

-- `Select` from the lists of the keys that qualify, and of all.
unfoldable pub choose : Query → (own pool all_own all_pool : List UpstreamKey) → Result UpstreamKey
unfolding refuse
choose q (k ∷ ks) pool all_own all_pool = ok (best q.usage q.in_flight k ks)
choose q [] (k ∷ ks) all_own all_pool = ok (best q.usage q.in_flight k ks)
choose q [] [] all_own all_pool = refuse all_own all_pool

unfoldable pub select : Query → List UpstreamKey → Result UpstreamKey
select q keys =
    choose q (qualified q (own_keys q keys)) (qualified q (pool_keys q keys)) (own_keys q keys)
      (pool_keys q keys)
