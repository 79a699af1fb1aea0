-- ===== src/Auth/Tests.antt =====
-- Logins of internal/auth/auth.go on concrete users.
use code_agent_router.Prelude.{true, false, none, ◌≡◌, refl, some, [], ◌∷◌}
use code_agent_router.Prelude.Int.{pos}
use code_agent_router.Text.{Bytes, codes, str_eq, is_empty, equal_fold, to_lower, hex_encode}
use code_agent_router.Auth.Password.{
  split_at, atoi, hex_decode, xor_bytes, extend, digits, unsigned, signed, hex_pair, hex_value,
  verify_password, verify_split, verify_parts, same_key, pbkdf2, rounds,
}
use code_agent_router.Map.{values}
use code_agent_router.Clock.{Time, zero_time}
use code_agent_router.Model.{User}
use code_agent_router.Store.State.{Store, fresh_state}
use code_agent_router.Store.Users.{get_user_by_username, find_username}
use code_agent_router.Auth.{granted, login_user, login_found, login_verified, new_session}
use code_agent_router.Auth.Sessions.{IsLogin, login_user-IsLogin}

split_test : split_at 36 (codes "a$bc$") ≡ codes "a" ∷ codes "bc" ∷ [] ∷ []
unfolding split_at
split_test = refl

atoi_test : atoi (codes "120000") ≡ some (pos 120_000)
unfolding atoi
atoi_test = refl

hex_test : hex_decode (codes "0aFf") ≡ some (10 ∷ 255 ∷ [])
unfolding hex_decode
hex_test = refl

xor_test : xor_bytes (5 ∷ 255 ∷ []) (3 ∷ 255 ∷ []) ≡ 6 ∷ 0 ∷ []
unfolding xor_bytes
xor_test = refl

-- A keyed function of bytes that ignores its text.
abbrev key_only : (key text : Bytes) → Bytes
key_only key text = key

abbrev alice : User
alice = record {
  id = codes "u_1";
  username = codes "alice";
  password_hash = codes "pbkdf2$1$00$7077";
  display_name = [];
  created_at = zero_time;
  enabled = true;
  hourly_tokens = pos 0;
  daily_tokens = pos 0;
}

abbrev store : Store
store = record {
  state = record fresh_state { users = (codes "u_1", alice) ∷ [] };
  dirty = false;
  timer = false;
  file = none;
}

abbrev now : Time
now = record { instant = 1000; offset = 0 }

-- While the password is checked, an administrator deletes the user.
abbrev disables : Store → Store
disables s = record s { state = record s.state { users = [] } }

logged_in : Store
logged_in = (login_user key_only (codes "ALICE") (codes "pw") (some (1 ∷ [])) now disables store).1

login_granted :
    login_user key_only (codes "ALICE") (codes "pw") (some (1 ∷ [])) now disables store
    ≡ (granted (codes "01"), logged_in)
unfolding logged_in login_user login_found login_verified verify_password verify_split verify_parts
    same_key pbkdf2 rounds split_at extend atoi unsigned digits signed hex_decode hex_pair hex_value
    str_eq is_empty get_user_by_username find_username equal_fold to_lower values new_session
    hex_encode
login_granted = refl

login_user-IsLogin_example :
    IsLogin key_only (codes "ALICE") (codes "pw") now store (codes "01") logged_in
login_user-IsLogin_example =
    login_user-IsLogin key_only (codes "ALICE") (codes "pw") 1 [] now disables store login_granted
