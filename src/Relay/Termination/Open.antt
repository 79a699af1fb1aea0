-- ===== src/Relay/Termination/Open.antt =====
-- How many upstream keys the loop of `proxy` in internal/api/relay.go has not yet excluded.
use code_agent_router.Prelude.{
  ℕ, ◌≤◌, ◌<◌, ◌≡◌, refl, ap, subst, Bool, true, false, List, In, not, arith, keep, length,
  length-keep_mono, length-keep-lt, get_or,
}
use code_agent_router.Prelude.Int.{ℤ}
use code_agent_router.Text.{Bytes, str_eq_refl}
use code_agent_router.Clock.{Time}
use code_agent_router.Map.{Map, lookup, insert, lookup-insert, values}
use code_agent_router.Model.{UpstreamKey}
use code_agent_router.Result.{ok}
use code_agent_router.Router.{Query, select}
use code_agent_router.Router.Choice.{Meets, IsChoice, select-Meets}
use code_agent_router.Store.State.{Store}
use code_agent_router.Store.Counters.{select_key}
use code_agent_router.Store.Frame.{SameEntities}

-- The identifiers of the upstream keys are among those of a list.
abbrev pub KeysAmong : List Bytes → Store → Type 0
KeysAmong ids s = (k : UpstreamKey) → In k (values s.upstream_keys) → In k.id ids

abbrev pub is_open : Map Bool → Bytes → Bool
is_open exclude id = not (get_or false (lookup id exclude))

-- How many identifiers of a list are not excluded.
unfoldable pub open_keys : List Bytes → Map Bool → ℕ
open_keys ids exclude = length (keep (is_open exclude) ids)

still_open :
    (id : Bytes) (exclude : Map Bool) (x : Bytes)
    → is_open (insert id true exclude) x ≡ true
    → is_open exclude x ≡ true
still_open id exclude x h = ground (arith, lookup-insert x id true exclude)

pub open_keys-insert_le :
    (ids : List Bytes) (id : Bytes) (exclude : Map Bool)
    → open_keys ids (insert id true exclude) ≤ open_keys ids exclude
unfolding open_keys
open_keys-insert_le ids id exclude =
    length-keep_mono (is_open (insert id true exclude)) (is_open exclude) (still_open id exclude)
      ids

pub open_keys-insert_lt :
    (ids : List Bytes) (id : Bytes) (exclude : Map Bool)
    → In id ids
    → get_or false (lookup id exclude) ≡ false
    → open_keys ids (insert id true exclude) < open_keys ids exclude
unfolding open_keys
open_keys-insert_lt ids id exclude i h =
    length-keep-lt (is_open (insert id true exclude)) (is_open exclude) (still_open id exclude) id
      ids i (ap not h) (rw (lookup-insert id id true exclude, str_eq_refl id) refl)

pub keys_same :
    (ids : List Bytes) {s t : Store} → SameEntities s t → KeysAmong ids s → KeysAmong ids t
keys_same ids f n k i = n k (subst (λ m. In k (values m)) f.same_upstream_keys i)

-- What the router guarantees of a key that it returns.
select-open :
    (q : Query) (keys : List UpstreamKey) {k : UpstreamKey}
    → select q keys ≡ ok k
    → In k keys × (get_or false (lookup k.id q.exclude) ≡ false)
select-open q keys {k} h =
    let c : IsChoice q keys k = subst (Meets q keys) h (select-Meets q keys) in
    (c.candidate.listed, c.candidate.not_excluded)

pub select_key-open :
    (user_id model_name : Bytes) (working : Bool) (default_hourly : ℤ) (exclude : Map Bool)
    (now : Time) (s : Store) {k : UpstreamKey}
    → select_key user_id model_name working default_hourly exclude now s ≡ ok k
    → In k (values s.upstream_keys) × (get_or false (lookup k.id exclude) ≡ false)
unfolding select_key
select_key-open user_id model_name working default_hourly exclude now s h =
    select-open _ (values s.upstream_keys) h
