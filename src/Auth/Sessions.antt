-- ===== src/Auth/Sessions.antt =====
-- What a login in internal/auth/auth.go is good for, and for how long.
use code_agent_router.Prelude.{
  ℕ, ◌≡◌, refl, subst, inl, inr, Bool, true, false, not, ◌||◌, Option, none, some, ◌∷◌,
  Option-cases, Bool-cases, arith,
}
use code_agent_router.Text.{Bytes, codes, str_eq, str_eq_refl, is_empty, hex_encode}
use code_agent_router.Map.{lookup, lookup-insert, lookup-erase}
use code_agent_router.Clock.{Time, before}
use code_agent_router.Model.{User, Session}
use code_agent_router.Store.State.{Store, changed}
use code_agent_router.Store.Users.{get_session, put_session, delete_session, get_user_by_username}
use code_agent_router.Auth.{
  Answer, granted, refused, unauthorized, expiry_of, new_session, login_verified, login_found,
  login_user, check_found, check, with_role, no_session, require_admin, require_user,
}
use code_agent_router.Auth.Password.{verify_password}

-- A token that is good for the pages of users, with the identifier of one, until its expiry, and for
-- no page of administrators; at its expiry a check removes it.
pub record IsUserToken (token user_id : Bytes) (expiry : Time) (s : Store) : Type 0 where
  pub user_pages :
      (now : Time) (between : Store → Store)
      → before now expiry ≡ true
      → require_user token now between s
        ≡ (granted (record { role = codes "user"; user_id = user_id; expiry = expiry }), s)
  pub admin_pages :
      (now : Time) (between : Store → Store)
      → (require_admin token now between s).0 ≡ refused unauthorized
  pub expired :
      (now : Time) (between : Store → Store)
      → before now expiry ≡ false
      → ((require_user token now between s).0 ≡ refused unauthorized)
        × (get_session token (require_user token now between s).1 ≡ none)

module _ (token user_id : Bytes) (expiry : Time) (s : Store) where
  abbrev session : Session
  session = record { role = codes "user"; user_id = user_id; expiry = expiry }

  check-stored :
      (now : Time) (between : Store → Store)
      → is_empty token ≡ false
      → get_session token s ≡ some session
      → check token now between s ≡ check_found token now between (some session) s
  unfolding check
  check-stored now between n h = rw (check, n, h) refl

  deleted : (u : Store) → get_session token (delete_session token u) ≡ none
  unfolding get_session delete_session changed
  deleted u = elim (Option-cases (lookup token u.sessions)) [
    | inl e ↦ rw (delete_session, e) e
    | inr (x, e) ↦
        rw (delete_session, e, lookup-erase token token u.sessions, str_eq_refl token) refl
  ]

  stored-IsUserToken :
      is_empty token ≡ false
      → get_session token s ≡ some session
      → IsUserToken token user_id expiry s
  unfolding require_user require_admin check_found with_role no_session str_eq
  stored-IsUserToken n h = record {
    user_pages = λ now between b. rw (require_user, check-stored now between n h, b) refl;
    admin_pages = λ now between. elim (Bool-cases (before now expiry)) [
      | inl b ↦ rw (require_admin, check-stored now between n h, b) refl
      | inr b ↦ rw (require_admin, check-stored now between n h, b) refl
    ];
    expired = λ now between b.
        rw (require_user, check-stored now between n h, b) (refl, deleted (between s));
  }

-- What is said of the token of an answer.
abbrev Grants : (user_id : Bytes) (expiry : Time) → Answer Bytes × Store → Type 0
Grants user_id expiry (granted token, s) = IsUserToken token user_id expiry s
Grants user_id expiry (refused e, s) = Unit

new_session-Grants :
    (user_id : Bytes) (b : ℕ) (bytes : Bytes) (now : Time) (s : Store)
    → Grants user_id (expiry_of now) (new_session (codes "user") user_id (some (b ∷ bytes)) now s)
unfolding new_session put_session get_session changed hex_encode is_empty
new_session-Grants user_id b bytes now s =
    let token : Bytes = hex_encode (b ∷ bytes) in
    stored-IsUserToken token user_id (expiry_of now) _ refl (
      rw
        (
          lookup-insert token token (session token user_id (expiry_of now) s) s.sessions,
          str_eq_refl token,
        )
        refl)

-- What a login comes to with the outcome of the password's check.
verified-IsUserToken :
    (v : Option Bool) (u : User) (b : ℕ) (bytes : Bytes) (now : Time) (s : Store) {token : Bytes}
    {s' : Store}
    → login_verified v u (some (b ∷ bytes)) now s ≡ (granted token, s')
    → (v ≡ some true) × IsUserToken token u.id (expiry_of now) s'
unfolding login_verified new_session put_session get_session changed
verified-IsUserToken none u b bytes now s e = cc
verified-IsUserToken (some false) u b bytes now s e = cc
verified-IsUserToken (some true) u b bytes now s e =
    (refl, subst (Grants u.id (expiry_of now)) e (new_session-Grants u.id b bytes now s))

-- Who has logged in: a user who is there and enabled, whose password it was.
pub record IsLogin (hmac : (key text : Bytes) → Bytes) (username password : Bytes) (now : Time)
    (s : Store) (token : Bytes) (s' : Store) : Type 0 where
  pub user : User
  pub is_there : get_user_by_username username s ≡ some user
  pub is_enabled : user.enabled ≡ true
  pub verified : verify_password hmac user.password_hash password ≡ some true
  pub good_for : IsUserToken token user.id (expiry_of now) s'

module _ (hmac : (key text : Bytes) → Bytes) where
  found-IsLogin :
      (o : Option User) (username password : Bytes) (b : ℕ) (bytes : Bytes) (now : Time)
      (s u : Store) {token : Bytes} {s' : Store}
      → get_user_by_username username s ≡ o
      → login_found hmac o password (some (b ∷ bytes)) now u ≡ (granted token, s')
      → IsLogin hmac username password now s token s'
  unfolding login_found
  found-IsLogin none username password b bytes now s t f e = cc
  found-IsLogin (some u) username password b bytes now s t f e =
      elim (Bool-cases (not u.enabled || is_empty u.password_hash)) [
        | inl g ↦ let e' = rw (login_found, g) at e in cc
        | inr g ↦
            let (v, good) =
              verified-IsUserToken (verify_password hmac u.password_hash password) u b bytes now t
                (rw (login_found, g) at e) in
            record {
              user = u;
              is_there = f;
              is_enabled = ground (arith, g);
              verified = v;
              good_for = good;
            }
      ]

  -- A login of a user that succeeds is that of a user who is there and enabled and whose password
  -- hash fits the password; its token opens the pages of users, under that user's identifier, for 24
  -- hours, never those of administrators, and is removed by the first check after its expiry; so it is
  -- whatever other requests do between the two locks of the login and of the check. The random source
  -- must have given at least one byte.
  pub login_user-IsLogin :
      (username password : Bytes) (b : ℕ) (bytes : Bytes) (now : Time) (between : Store → Store)
      (s : Store) {token : Bytes} {s' : Store}
      → login_user hmac username password (some (b ∷ bytes)) now between s ≡ (granted token, s')
      → IsLogin hmac username password now s token s'
  unfolding login_user
  login_user-IsLogin username password b bytes now between s e =
      found-IsLogin (get_user_by_username username s) username password b bytes now s (between s)
        refl e
