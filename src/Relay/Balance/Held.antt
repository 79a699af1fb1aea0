-- ===== src/Relay/Balance/Held.antt =====
-- What one request holds after a list of calls of internal/store/state.go, and the names of keys.
use code_agent_router.Prelude.{◌≡◌, subst, Bool, false, Option, none, some, List, [], ◌∷◌, In}
use code_agent_router.Prelude.Int.{ℤ}
use code_agent_router.Text.{Bytes, is_empty}
use code_agent_router.Router.{Query, select}
use code_agent_router.Map.{Map, values}
use code_agent_router.Clock.{Time}
use code_agent_router.Router.Choice.{Meets, IsChoice, select-Meets}
use code_agent_router.Store.Counters.{select_key}
use code_agent_router.Model.{UpstreamKey}
use code_agent_router.Result.{ok}
use code_agent_router.Store.State.{Store}
use code_agent_router.Store.Frame.{SameEntities}
use code_agent_router.Relay.Machine.{
  Call, reserved_user, released_user, settled_user, reserved_key, released_key, settled_key,
}

-- What is held after the calls of a list, newest first: the reservation of the user, and that of one
-- key. A call that does not fit what is held has no rule.
pub data Holds : List Call → Option ℤ → Option (Bytes × ℤ) → Type 0 where
  start : Holds [] none none
  takes_user :
      {cs : List Call} {x : ℤ} → Holds cs none none → Holds (reserved_user x ∷ cs) (some x) none
  frees_user :
      {cs : List Call} {x : ℤ} {k : Option (Bytes × ℤ)}
      → Holds cs (some x) k
      → Holds (released_user x ∷ cs) none k
  settles_user :
      {cs : List Call} {x a : ℤ} {k : Option (Bytes × ℤ)}
      → Holds cs (some x) k
      → Holds (settled_user x a ∷ cs) none k
  takes_key :
      {cs : List Call} {x y : ℤ} {id : Bytes}
      → Holds cs (some x) none
      → Holds (reserved_key id y ∷ cs) (some x) (some (id, y))
  frees_key :
      {cs : List Call} {y : ℤ} {id : Bytes} {u : Option ℤ}
      → Holds cs u (some (id, y))
      → Holds (released_key id y ∷ cs) u none
  settles_key :
      {cs : List Call} {y a : ℤ} {id : Bytes} {u : Option ℤ}
      → Holds cs u (some (id, y))
      → Holds (settled_key id y a ∷ cs) u none

-- No upstream key has an empty identifier.
abbrev pub Named : Store → Type 0
Named s = (k : UpstreamKey) → In k (values s.upstream_keys) → is_empty k.id ≡ false

pub keeps_Named : {s t : Store} → SameEntities s t → Named s → Named t
keeps_Named f n k i = n k (subst (λ m. In k (values m)) f.same_upstream_keys i)

select-listed :
    (q : Query) (keys : List UpstreamKey) {k : UpstreamKey} → select q keys ≡ ok k → In k keys
select-listed q keys {k} h =
    let c : IsChoice q keys k = subst (Meets q keys) h (select-Meets q keys) in c.candidate.listed

-- A key that `SelectKey` returns is in the store.
pub select_key-listed :
    (user_id model_name : Bytes) (working : Bool) (default_hourly : ℤ) (exclude : Map Bool)
    (now : Time) (s : Store) {k : UpstreamKey}
    → select_key user_id model_name working default_hourly exclude now s ≡ ok k
    → In k (values s.upstream_keys)
unfolding select_key
select_key-listed user_id model_name working default_hourly exclude now s h =
    select-listed _ (values s.upstream_keys) h
