-- ===== src/Api/Tests.antt =====
-- The API of internal/api on concrete requests.
use code_agent_router.Prelude.{
  refl, some, none, true, false, [], ◌∷◌, Option, ◌*◌, ◌≡◌, ◌++◌, arith, ap, sym,
}
use code_agent_router.Api.Views.{Decoder}
use code_agent_router.Store.Keys.{Gcm}
use code_agent_router.Clock.{hour, Time}
use code_agent_router.Api.Shared.{Env, text}
use code_agent_router.Text.{Bytes, codes, str_eq, str_eq_iff, is_empty}
use code_agent_router.Store.State.{Store, fresh_state, changed}
use code_agent_router.Api.Action.{World, ◌>>◌, call, read, found_or, or_reject, deref, call_twice}
use code_agent_router.Api.Server.{serve, HttpRequest, bearer_token, fails}
use code_agent_router.Api.Routes.{route, put, first_value}
use code_agent_router.Model.{Session, UpstreamKey, User}
use code_agent_router.Map.{lookup, insert}
use code_agent_router.Auth.{require_admin, require_user, granted, Answer, refused}
use code_agent_router.Prelude.Int.{pos}
use code_agent_router.Api.Refused.{IsRefused, admin_check, user_check, admin_refused, user_refused}
use code_agent_router.Store.Users.{get_session, random_id}
use code_agent_router.Store.Counters.{put_key_hour}
use code_agent_router.Api.Isolation.{Holds}
use code_agent_router.Api.Strangers.{strangers_keep}

abbrev no_decoder : Decoder
no_decoder = record {
  login_body = λ b. none;
  user_body = λ b. none;
  quota_body = λ b. none;
  enabled_body = λ b. none;
  password_body = λ b. none;
  key_body = λ b. none;
  key_patch = λ b. some (record {
    name = some b;
    base_url = none;
    api_key = none;
    models = none;
    enabled = some false;
    hourly_limit = none;
  });
}

abbrev plain_gcm : Gcm
plain_gcm = record { seal = λ n p. p; open_sealed = λ n c. some c; open-seal = λ n p. refl }

abbrev noon : Time
noon = record { instant = 12 * hour; offset = 0 }

abbrev env : Env
env = record {
  others = record { others = λ n s. s; others_reporting = λ n r. r };
  clock = λ n. noon;
  today = λ n. codes "2026-07-02";
  id_bytes = λ n. n ∷ [];
  random = λ n. some (n ∷ []);
  gcm = plain_gcm;
  hmac = λ k t. t;
  decode = no_decoder;
  codec = record { marshal = λ e. []; unmarshal = λ s. none };
  tenths = λ sum count. sum;
  manager = record { admin_user = codes "root"; admin_pass = codes "secret" };
  engine = record {
    working_hours = [];
    quota = record {
      default_hourly_tokens = pos 100;
      default_daily_tokens = pos 100;
      per_minute_requests = pos 10;
    };
    loc = 0;
  };
}

abbrev session_of : Bytes → Session
session_of id = record {
  role = codes "user";
  user_id = id;
  expiry = record { instant = 20 * hour; offset = 0 };
}

abbrev key_of_user : (id user_id : Bytes) → UpstreamKey
key_of_user id user_id = record {
  id = id;
  user_id = user_id;
  name = codes "old";
  base_url = codes "http://x";
  api_key_enc = 1 ∷ [];
  models = [];
  enabled = true;
  created_at = noon;
  hourly_limit = pos 0;
}

abbrev user_named : Bytes → User
user_named id = record {
  id = id;
  username = id;
  password_hash = [];
  display_name = [];
  created_at = noon;
  enabled = true;
  hourly_tokens = pos 0;
  daily_tokens = pos 0;
}

-- Two users with a key each, and a session of the first.
abbrev two_users : Store
two_users = record {
  state = record fresh_state {
    users = (codes "u1", user_named (codes "u1")) ∷ (codes "u2", user_named (codes "u2")) ∷ [];
    upstream_keys =
        (codes "k1", key_of_user (codes "k1") (codes "u1"))
        ∷ (codes "k2", key_of_user (codes "k2") (codes "u2"))
        ∷ [];
    sessions = (codes "t1", session_of (codes "u1")) ∷ [];
  };
  dirty = false;
  timer = false;
  file = none;
}

abbrev world : World
world = record {
  store = two_users;
  reporting = record { logger = record { open_day = none; files = [] }; cache = [] };
  locks = 0;
}

abbrev put_request : (path token body : Bytes) → HttpRequest
put_request path token body = record {
  method = put;
  path = path;
  authorization = codes "Bearer " ++ token;
  x_request_id = codes "r";
  remote_addr = codes "10.0.0.1:9";
  query = record { month = []; csv = false };
  body = body;
}

renamed : Option UpstreamKey → Bytes
renamed none = []
renamed (some k) = k.name

-- The owner renames a key; the key of the other user is not to be found.
own_key_test :
    renamed (
      lookup
        (codes "k1")
        (serve env
          (put_request (codes "/user/keys/k1") (codes "t1") (codes "new"))
          world).1.store.upstream_keys)
    ≡ codes "new"
unfolding serve renamed lookup get_session first_value changed insert put_key_hour call read
    found_or ◌>>◌ or_reject deref call_twice
own_key_test = refl

other_key_test :
    (serve env (put_request (codes "/user/keys/k2") (codes "t1") (codes "new")) world).0
    ≡ (codes "r", fails 404 (text "upstream key not found"))
unfolding serve get_session lookup first_value call read found_or call_twice
other_key_test = refl

-- The session of a user opens no page of administrators.
admin_refused_example :
    IsRefused env
      (put_request (codes "/admin/keys/u1/k1") (codes "t1") (codes "new"))
      world
      (text "admin authentication required")
      (admin_check env (put_request (codes "/admin/keys/u1/k1") (codes "t1") (codes "new")) world).1
unfolding route require_admin bearer_token str_eq get_session lookup
admin_refused_example =
    admin_refused env (put_request (codes "/admin/keys/u1/k1") (codes "t1") (codes "new")) world
      refl refl

user_refused_example :
    IsRefused env
      (put_request (codes "/user/keys/k1") (codes "t9") (codes "new"))
      world
      (text "user authentication required")
      (user_check env (put_request (codes "/user/keys/k1") (codes "t9") (codes "new")) world).1
unfolding route require_user bearer_token str_eq get_session lookup
user_refused_example =
    user_refused env (put_request (codes "/user/keys/k1") (codes "t9") (codes "new")) world refl
      refl

abbrev other_key : UpstreamKey
other_key = key_of_user (codes "k2") (codes "u2")

abbrev steal : HttpRequest
steal = put_request (codes "/user/keys/k2") (codes "t1") (codes "new")

two_users-Holds : Holds (codes "k2") other_key two_users
unfolding lookup str_eq
two_users-Holds = record {
  there = refl;
  filed = λ j k' e. ground (arith, str_eq_iff (codes "k1") j, str_eq_iff (codes "k2") j);
}

granted-user_id : {s t : Session} → granted s ≡ granted t → s.user_id ≡ t.user_id
granted-user_id {s} e = ap (λ a. user_of a) e
  where
    user_of : Answer Session → Bytes
    user_of (granted session) = session.user_id
    user_of (refused failure) = []

first_user :
    (session : Session)
    → (user_check env steal world).0 ≡ granted session
    → str_eq other_key.user_id session.user_id ≡ false
unfolding require_user bearer_token str_eq is_empty get_session lookup
first_user session e = granted_user e
  where
    granted_user :
        granted (session_of (codes "u1")) ≡ granted session
        → str_eq other_key.user_id session.user_id ≡ false
    granted_user e = ap (λ id. str_eq (codes "u2") id) (sym (granted-user_id e))

strangers_keep_example : Holds (codes "k2") other_key (serve env steal world).1.store
unfolding route random_id str_eq
strangers_keep_example =
    strangers_keep env (codes "k2") other_key (λ n. refl) (λ n s h. h) steal world refl first_user
      two_users-Holds
