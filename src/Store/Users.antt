-- ===== src/Store/Users.antt =====
-- The methods of internal/store/state.go on users, access keys and sessions.
use code_agent_router.Prelude.{
  Bool, not, Option, none, some, List, [], ◌∷◌, ◌++◌, if◌then◌else◌, get_or,
}
use code_agent_router.Prelude.Int.{ℤ, pos}
use code_agent_router.Text.{Bytes, codes, str_eq, str_lt, equal_fold, hex_encode}
use code_agent_router.Map.{lookup, insert, erase, erase_where, erase_all, keys_where, values}
use code_agent_router.Clock.{Time, before}
use code_agent_router.Model.{User, Session}
use code_agent_router.Result.{Result, ok, err, user_not_found, username_taken, access_key_not_found}
use code_agent_router.Router.{sort_stable}
use code_agent_router.Store.State.{State, Store, changed}

-- `randomID`, on the bytes that the random source gives.
unfoldable pub random_id : Bytes → Bytes → Bytes
unfolding hex_encode
random_id prefix entropy = prefix ++ hex_encode entropy

-- `GetUserByUsername`, on the users.
unfoldable pub find_username : Bytes → List User → Option User
find_username name [] = none
find_username name (u ∷ us) = if equal_fold u.username name then some u else find_username name us

unfoldable pub create_user :
    (username display_name password_hash : Bytes)
    → Bool
    → (entropy : Bytes) → (now : Time) → Store
    → Result User × Store
unfolding find_username random_id
create_user username display_name password_hash enabled entropy now s =
    elim (find_username username (values s.users)) [
      | some u ↦ (err username_taken, s)
      | none ↦
          let u : User = record {
            id = random_id (codes "u_") entropy;
            username = username;
            password_hash = password_hash;
            display_name = display_name;
            created_at = now;
            enabled = enabled;
            hourly_tokens = pos 0;
            daily_tokens = pos 0;
          } in
          (ok u, changed s (record s.state { users = insert u.id u s.users }))
    ]

unfoldable pub get_user : Bytes → Store → Option User
get_user id s = lookup id s.users

unfoldable pub get_user_by_username : Bytes → Store → Option User
unfolding find_username
get_user_by_username name s = find_username name (values s.users)

unfoldable pub list_users : Store → List User
unfolding sort_stable
list_users s = sort_stable (λ a b. before a.created_at b.created_at) (values s.users)

-- A method that changes one user in place, or fails.
unfoldable pub edit_user : Bytes → (User → User) → Store → Result (Unit {0}) × Store
edit_user id f s = elim (lookup id s.users) [
  | none ↦ (err user_not_found, s)
  | some u ↦ (ok tt, changed s (record s.state { users = insert id (f u) s.users }))
]

unfoldable pub update_user_quota : Bytes → (hourly daily : ℤ) → Store → Result (Unit {0}) × Store
unfolding edit_user
update_user_quota id hourly daily =
    edit_user id (λ u. record u { hourly_tokens = hourly; daily_tokens = daily })

unfoldable pub update_user_password : Bytes → Bytes → Store → Result (Unit {0}) × Store
unfolding edit_user
update_user_password id hash = edit_user id (λ u. record u { password_hash = hash })

unfoldable pub set_user_enabled : Bytes → Bool → Store → Result (Unit {0}) × Store
unfolding edit_user
set_user_enabled id enabled = edit_user id (λ u. record u { enabled = enabled })

-- The state without a user: its access keys, its upstream keys with their counters, its counters.
unfoldable pub without_user : Bytes → State → State
without_user id st =
    let kids : List Bytes = keys_where (λ k. str_eq k.user_id id) st.upstream_keys in
    record st {
      users = erase id st.users;
      access_keys = erase_where (λ uid. str_eq uid id) st.access_keys;
      upstream_keys = erase_where (λ k. str_eq k.user_id id) st.upstream_keys;
      key_hours = erase_all kids st.key_hours;
      in_flight = erase_all kids st.in_flight;
      counters = erase id st.counters;
    }

unfoldable pub delete_user : Bytes → Store → Result (Unit {0}) × Store
unfolding without_user
delete_user id s = elim (lookup id s.users) [
  | none ↦ (err user_not_found, s)
  | some u ↦ (ok tt, changed s (without_user id s.state))
]

unfoldable pub add_access_key : Bytes → (entropy : Bytes) → Store → Result Bytes × Store
unfolding random_id
add_access_key user_id entropy s = elim (lookup user_id s.users) [
  | none ↦ (err user_not_found, s)
  | some u ↦
      let key : Bytes = random_id (codes "sk-relay-") entropy in
      (ok key, changed s (record s.state { access_keys = insert key user_id s.access_keys }))
]

-- A key that is not there reads as the empty user id.
unfoldable pub remove_access_key : (user_id key : Bytes) → Store → Result (Unit {0}) × Store
remove_access_key user_id key s =
    if not (str_eq (get_or [] (lookup key s.access_keys)) user_id)
    then (err access_key_not_found, s)
    else (ok tt, changed s (record s.state { access_keys = erase key s.access_keys }))

unfoldable pub user_by_access_key : Bytes → Store → Option Bytes
user_by_access_key key s = lookup key s.access_keys

unfoldable pub get_session : Bytes → Store → Option Session
get_session token s = lookup token s.sessions

unfoldable pub put_session : Bytes → Session → Store → Store
put_session token sess s = changed s (record s.state { sessions = insert token sess s.sessions })

unfoldable pub delete_session : Bytes → Store → Store
delete_session token s = elim (lookup token s.sessions) [
  | none ↦ s
  | some sess ↦ changed s (record s.state { sessions = erase token s.sessions })
]

-- The keys of a user, sorted; `AccessKey` carries nothing else that is set.
unfoldable pub list_access_keys : Bytes → Store → List Bytes
unfolding sort_stable str_lt
list_access_keys user_id s =
    sort_stable str_lt (keys_where (λ uid. str_eq uid user_id) s.access_keys)
