-- ===== src/Api/Routes.antt =====
-- The patterns that `NewServer` of internal/api/server.go gives to the mux of net/http. Paths are clean
-- and hold no escapes: others are redirected or matched by no pattern but the last.

use mathlib.Core.Option
use code_agent_router.Prelude.{
  refl, some, none, true, false, [], ◌∷◌, List, Bool, Option, if◌then◌else◌, ◌++◌, ◌≡◌,
}
use code_agent_router.Text.{Bytes, codes, str_eq, is_empty}
use Prim.Native.String.{String}
use code_agent_router.Auth.Password.{split_at}

pub data Method : Type 0 where
  get head post put delete other_method : Method

-- A segment of a pattern: a word, or a wildcard, which stands for one segment that is not empty.
pub data Segment : Type 0 where
  word : Bytes → Segment
  wildcard : Segment

pub data RelayCall : Type 0 where
  chat_completions completions embeddings models : RelayCall

pub data AdminCall : Type 0 where
  to_login to_list_users to_create_user : AdminCall
  to_delete_user to_update_quota to_set_enabled to_reset_password : (id : Bytes) → AdminCall
  to_create_access_key : (id : Bytes) → AdminCall
  to_delete_access_key : (id key : Bytes) → AdminCall
  to_key_pool : AdminCall
  to_list_user_keys to_create_key : (user_id : Bytes) → AdminCall
  to_update_key to_delete_key : (user_id key_id : Bytes) → AdminCall
  to_user_usage : (id : Bytes) → AdminCall
  to_monthly_report : AdminCall
  to_user_report : (id : Bytes) → AdminCall

pub data UserCall : Type 0 where
  user_login user_me user_list_keys user_create_key : UserCall
  user_update_key user_delete_key : (key_id : Bytes) → UserCall
  user_usage_of user_monthly_report : UserCall

pub data Route : Type 0 where
  relay_route : RelayCall → Route
  admin_route : AdminCall → Route
  user_route : UserCall → Route
  web : Route

-- `target` takes the values of the wildcards.
pub record Pattern : Type 0 where
  pub method : Method
  pub segments : List Segment
  pub target : List Bytes → Route

unfoldable pub first_value : List Bytes → Bytes
first_value [] = []
first_value (v ∷ vs) = v

unfoldable pub second_value : List Bytes → Bytes
unfolding first_value
second_value [] = []
second_value (v ∷ vs) = first_value vs

abbrev at : Method → List Segment → (List Bytes → Route) → Pattern
at method segments target = record { method = method; segments = segments; target = target }

abbrev w : String → Segment
w s = word (codes s)

abbrev pub relay_patterns : List Pattern
relay_patterns =
    at post (w "v1" ∷ w "chat" ∷ w "completions" ∷ []) (λ vs. relay_route chat_completions)
    ∷ at post (w "v1" ∷ w "completions" ∷ []) (λ vs. relay_route completions)
    ∷ at post (w "v1" ∷ w "embeddings" ∷ []) (λ vs. relay_route embeddings)
    ∷ at get (w "v1" ∷ w "models" ∷ []) (λ vs. relay_route models)
    ∷ []

abbrev admin_at : Method → List Segment → (List Bytes → AdminCall) → Pattern
admin_at method segments target = at method (w "admin" ∷ segments) (λ vs. admin_route (target vs))

abbrev pub admin_patterns : List Pattern
admin_patterns =
    admin_at post (w "login" ∷ []) (λ vs. to_login)
    ∷ admin_at get (w "users" ∷ []) (λ vs. to_list_users)
    ∷ admin_at post (w "users" ∷ []) (λ vs. to_create_user)
    ∷ admin_at delete (w "users" ∷ wildcard ∷ []) (λ vs. to_delete_user (first_value vs))
    ∷ admin_at put (w "users" ∷ wildcard ∷ w "quota" ∷ []) (λ vs. to_update_quota (first_value vs))
    ∷ admin_at put (w "users" ∷ wildcard ∷ w "enabled" ∷ []) (λ vs. to_set_enabled (first_value vs))
    ∷ admin_at post (w "users" ∷ wildcard ∷ w "password" ∷ [])
        (λ vs. to_reset_password (first_value vs))
    ∷ admin_at post (w "users" ∷ wildcard ∷ w "access-keys" ∷ [])
        (λ vs. to_create_access_key (first_value vs))
    ∷ admin_at delete (w "users" ∷ wildcard ∷ w "access-keys" ∷ wildcard ∷ [])
        (λ vs. to_delete_access_key (first_value vs) (second_value vs))
    ∷ admin_at get (w "keys" ∷ []) (λ vs. to_key_pool)
    ∷ admin_at get (w "keys" ∷ wildcard ∷ []) (λ vs. to_list_user_keys (first_value vs))
    ∷ admin_at post (w "keys" ∷ wildcard ∷ []) (λ vs. to_create_key (first_value vs))
    ∷ admin_at put (w "keys" ∷ wildcard ∷ wildcard ∷ [])
        (λ vs. to_update_key (first_value vs) (second_value vs))
    ∷ admin_at delete (w "keys" ∷ wildcard ∷ wildcard ∷ [])
        (λ vs. to_delete_key (first_value vs) (second_value vs))
    ∷ admin_at get (w "usage" ∷ w "user" ∷ wildcard ∷ []) (λ vs. to_user_usage (first_value vs))
    ∷ admin_at get (w "reports" ∷ w "monthly" ∷ []) (λ vs. to_monthly_report)
    ∷ admin_at get (w "reports" ∷ w "user" ∷ wildcard ∷ []) (λ vs. to_user_report (first_value vs))
    ∷ []

abbrev user_at : Method → List Segment → (List Bytes → UserCall) → Pattern
user_at method segments target = at method (w "user" ∷ segments) (λ vs. user_route (target vs))

abbrev pub user_patterns : List Pattern
user_patterns =
    user_at post (w "login" ∷ []) (λ vs. user_login)
    ∷ user_at get (w "me" ∷ []) (λ vs. user_me)
    ∷ user_at get (w "keys" ∷ []) (λ vs. user_list_keys)
    ∷ user_at post (w "keys" ∷ []) (λ vs. user_create_key)
    ∷ user_at put (w "keys" ∷ wildcard ∷ []) (λ vs. user_update_key (first_value vs))
    ∷ user_at delete (w "keys" ∷ wildcard ∷ []) (λ vs. user_delete_key (first_value vs))
    ∷ user_at get (w "usage" ∷ []) (λ vs. user_usage_of)
    ∷ user_at get (w "reports" ∷ []) (λ vs. user_monthly_report)
    ∷ []

-- A pattern of GET is one of HEAD as well.
unfoldable pub same_method : Method → Method → Bool
same_method get get = true
same_method get head = true
same_method post post = true
same_method put put = true
same_method delete delete = true
same_method m n = false

-- The values of the wildcards of segments that match a path's.
unfoldable pub match_segments : List Segment → List Bytes → Option (List Bytes)
match_segments [] [] = some []
match_segments [] (p ∷ ps) = none
match_segments (s ∷ ss) [] = none
match_segments (word x ∷ ss) (p ∷ ps) = if str_eq x p then match_segments ss ps else none
match_segments (wildcard ∷ ss) (p ∷ ps) =
    if is_empty p then none else Option.map (◌∷◌ p) (match_segments ss ps)

-- The patterns other than the last do not overlap, so that the first that matches is the only one.
unfoldable pub match_patterns : List Pattern → Method → List Bytes → Route
unfolding match_segments same_method
match_patterns [] method path = web
match_patterns (p ∷ ps) method path =
    let rest : Route = match_patterns ps method path in
    elim (match_segments p.segments path) [
      | none ↦ rest
      | some values ↦ if same_method p.method method then p.target values else rest
    ]

-- The segments of a path, which begins with a slash.
unfoldable pub path_segments : List Bytes → List Bytes
unfolding is_empty
path_segments [] = []
path_segments (start ∷ segments) = if is_empty start then segments else []

unfoldable pub route : Method → (path : Bytes) → Route
unfolding match_patterns path_segments split_at
route method path =
    match_patterns (relay_patterns ++ (admin_patterns ++ user_patterns)) method
      (path_segments (split_at 47 path))

route_test :
    route put (codes "/admin/keys/u/k") ≡ admin_route (to_update_key (codes "u") (codes "k"))
unfolding route str_eq is_empty first_value second_value
route_test = refl

slash_test : route delete (codes "/user/keys/") ≡ web
unfolding route str_eq is_empty
slash_test = refl
