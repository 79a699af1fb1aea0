-- ===== src/Api/Isolation.antt =====
-- What the handlers of internal/api/user.go leave alone: the upstream keys of the other users.
use code_agent_router.Prelude.{
  refl, inl, inr, some, none, false, arith, ◌≡◌, ap, Option-cases, ◌∙◌, Option, Bool-cases, sym,
  List, Bool, ◌++◌, ◌⊎◌,
}
use code_agent_router.Text.{Bytes, str_eq, is_empty, str_eq_iff, codes}
use code_agent_router.Model.{UpstreamKey, User, Session}
use code_agent_router.Store.State.{Store, changed, mark_dirty_locked, schedule_save_locked}
use code_agent_router.Store.Keys.{
  create_upstream_key, replace_upstream_key, delete_upstream_key, normalize_models, Gcm,
}
use code_agent_router.Auth.{
  login_found, check_found, require_user, login_verified, check, new_session,
}
use code_agent_router.Map.{lookup, insert, lookup-erase, lookup-insert}
use code_agent_router.Store.Users.{delete_session, put_session, get_session, random_id}
use code_agent_router.Clock.{Time}
use code_agent_router.Prelude.Int.{ℤ}

-- The key `k` under the identifier `i`, and keys filed under their own identifiers.
pub record Holds (i : Bytes) (k : UpstreamKey) (s : Store) : Type 0 where
  pub there : lookup i s.upstream_keys ≡ some k
  pub filed : (j : Bytes) (k' : UpstreamKey) → lookup j s.upstream_keys ≡ some k' → k'.id ≡ j

module _ (i : Bytes) (k : UpstreamKey) where
  pub same_keys-Holds :
      (s t : Store) → t.upstream_keys ≡ s.upstream_keys → Holds i k s → Holds i k t
  same_keys-Holds s t e h = record {
    there = ap (lookup i) e ∙ h.there;
    filed = λ j k' p. h.filed j k' (sym (ap (lookup j) e) ∙ p);
  }

  -- A key is put in under its identifier, which is another.
  put-Holds :
      (s t : Store) (k' : UpstreamKey)
      → str_eq k'.id i ≡ false
      → t.upstream_keys ≡ insert k'.id k' s.upstream_keys
      → Holds i k s
      → Holds i k t
  put-Holds s t k' e q h = record {
    there = ap (lookup i) q ∙ lookup-insert i k'.id k' s.upstream_keys ∙ rw e h.there;
    filed = λ j k'' p. elim (Bool-cases (str_eq k'.id j)) [
      | inl z ↦
          ground
            (arith, str_eq_iff k'.id j, lookup-insert j k'.id k' s.upstream_keys, ap (lookup j) q)
      | inr z ↦
          h.filed j k''
            (sym (ap (lookup j) q ∙ lookup-insert j k'.id k' s.upstream_keys ∙ rw z refl) ∙ p)
    ];
  }

  pub create-Holds :
      (gcm : Gcm) (user_id name base_url api_key : Bytes) (models : List Bytes) (enabled : Bool)
      (hourly_limit : ℤ) (nonce : Option Bytes) (entropy : Bytes) (now : Time) (s : Store)
      → str_eq (random_id (codes "k_") entropy) i ≡ false
      → Holds i k s
      → Holds i k
          (create_upstream_key gcm user_id name base_url api_key models enabled hourly_limit nonce
            entropy now s).1
  unfolding create_upstream_key changed mark_dirty_locked schedule_save_locked
  create-Holds gcm user_id name base_url api_key models enabled hourly_limit none entropy now s e
        h =
      h
  create-Holds gcm user_id name base_url api_key models enabled hourly_limit (some nonce) entropy
        now s e h =
      elim (Option-cases (lookup user_id s.users)) [
        | inl q ↦ rw (create_upstream_key, q) h
        | inr (u, q) ↦
            rw (create_upstream_key, q)
              (put-Holds s _
                (record {
                  id = random_id (codes "k_") entropy;
                  user_id = user_id;
                  name = name;
                  base_url = base_url;
                  api_key_enc = nonce ++ gcm.seal nonce api_key;
                  models = normalize_models models;
                  enabled = enabled;
                  created_at = now;
                  hourly_limit = hourly_limit;
                })
                e refl h)
      ]

  pub replace-Holds :
      (k' : UpstreamKey) (s : Store)
      → str_eq k'.id i ≡ false
      → Holds i k s
      → Holds i k (replace_upstream_key k' s).1
  unfolding replace_upstream_key changed
  replace-Holds k' s e h = elim (Option-cases (lookup k'.id s.upstream_keys)) [
    | inl q ↦ rw (replace_upstream_key, q) h
    | inr (old, q) ↦
        rw (replace_upstream_key, q)
          (put-Holds s _
            (record k' {
              user_id = old.user_id;
              created_at = old.created_at;
              models = normalize_models k'.models;
            })
            e refl h)
  ]

  pub delete-Holds :
      (id : Bytes) (s : Store)
      → str_eq id i ≡ false
      → Holds i k s
      → Holds i k (delete_upstream_key id s).1
  unfolding delete_upstream_key changed
  delete-Holds id s e h = elim (Option-cases (lookup id s.upstream_keys)) [
    | inl q ↦ rw (delete_upstream_key, q) h
    | inr (old, q) ↦
        rw (delete_upstream_key, q)
          (record {
            there = lookup-erase i id s.upstream_keys ∙ rw e h.there;
            filed = λ j k' p. elim (Bool-cases (str_eq id j)) [
              | inl z ↦ absurd (ground (arith, lookup-erase j id s.upstream_keys))
              | inr z ↦ h.filed j k' (sym (lookup-erase j id s.upstream_keys ∙ rw z refl) ∙ p)
            ];
          })
  ]

  pub login_found_keys :
      (hmac : (key text : Bytes) → Bytes) (o : Option User) (password : Bytes)
      (entropy : Option Bytes) (now : Time) (s : Store)
      → (login_found hmac o password entropy now s).1.upstream_keys ≡ s.upstream_keys
  unfolding login_found login_verified new_session put_session changed
  login_found_keys hmac o password entropy now s = ground arith

  check_found_keys :
      (token : Bytes) (now : Time) (between : Store → Store) (o : Option Session) (s : Store)
      → ((check_found token now between o s).1.upstream_keys ≡ s.upstream_keys)
        ⊎ ((check_found token now between o s).1.upstream_keys ≡ (between s).upstream_keys)
  unfolding check_found delete_session changed
  check_found_keys token now between o s = ground arith

  pub require_user-Holds :
      (token : Bytes) (now : Time) (between : Store → Store) (s : Store)
      → ((t : Store) → Holds i k t → Holds i k (between t))
      → Holds i k s
      → Holds i k (require_user token now between s).1
  unfolding require_user check
  require_user-Holds token now between s g h = elim (Bool-cases (is_empty token)) [
    | inl e ↦ rw (check, e) h
    | inr e ↦
        rw (check, e)
          (elim (check_found_keys token now between (get_session token s) s) [
            | inl same ↦ same_keys-Holds s _ same h
            | inr same ↦ same_keys-Holds (between s) _ same (g s h)
          ])
  ]
