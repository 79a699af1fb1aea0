-- ===== src/Api/Owners.antt =====
-- The handlers of internal/api/user.go, one by one: none changes an upstream key of another user. The
-- identifiers that the random source makes are new, and the other requests leave the key as it is.
use code_agent_router.Api.Action.{Action, read, call, call_twice}
use code_agent_router.Prelude.{refl, false, ℕ, ◌≡◌, List, some, none, Option, ap, ◌∙◌}
use code_agent_router.Api.Shared.{
  Env, counters, key_view, keys_reply, usage_reply, month_report, key_request, make_key, seal_key,
  update_found, patch_key, trim_slashes,
}
use code_agent_router.Text.{Bytes, str_eq, codes}
use code_agent_router.Model.{UpstreamKey, User}
use code_agent_router.Store.Users.{random_id}
use code_agent_router.Store.State.{Store}
use code_agent_router.Api.Isolation.{Holds, same_keys-Holds, create-Holds, replace-Holds}
use code_agent_router.Api.Kept.{
  Does, read-Does, call-Does, Any, bind-Does, each-Does, pure-Does, draw-Does, found_or-Does,
  call_reports-Does, then-Does, or_reject-Does, reject_if-Does, deref-Does, call_twice-Does,
}
use code_agent_router.Store.Counters.{counters_locked, key_hour_locked, put_counters, put_key_hour}
use code_agent_router.Api.Views.{KeyBody}
use code_agent_router.Store.Keys.{encrypt}

module _ (env : Env) (i : Bytes) (k : UpstreamKey)
    (fresh : (n : ℕ) → str_eq (random_id (codes "k_") (env.id_bytes n)) i ≡ false)
    (keeps : (n : ℕ) (s : Store) → Holds i k s → Holds i k (env.others.others n s)) where
  abbrev pub Keeps : {A : Type 0} → Action A → Type 0
  Keeps act = Does (Holds i k) act (Any (Holds i k))

  pub seen : {A : Type 0} (f : Store → A) → Keeps (read env.others f)
  seen f = read-Does (Holds i k) env.others keeps f (λ s h. tt)

  pub called :
      {A : Type 0} (op : ℕ → Store → A × Store)
      → ((n : ℕ) (s : Store) → Holds i k s → Holds i k (op n s).1)
      → Keeps (call env.others op)
  called op d = call-Does (Holds i k) env.others keeps op (λ n s h. (d n s h, tt))

  pub called_twice :
      {A : Type 0} (op : ℕ → (Store → Store) → Store → A × Store)
      → ((n : ℕ) (between : Store → Store) (s : Store)
          → ((t : Store) → Holds i k t → Holds i k (between t))
          → Holds i k s
          → Holds i k (op n between s).1)
      → Keeps (call_twice env.others op)
  called_twice op d =
      call_twice-Does (Holds i k) env.others keeps op (λ n between s g h. (d n between s g h, tt))

  pub counters-Keeps : (id : Bytes) → Keeps (counters env id)
  unfolding counters counters_locked put_counters
  counters-Keeps id = called _ (λ n s h. same_keys-Holds i k s _ refl h)

  pub key_view-Keeps : (key : UpstreamKey) → Keeps (key_view env key)
  unfolding key_view key_hour_locked put_key_hour
  key_view-Keeps key =
      bind-Does _ _ _ (called _ (λ n s h. same_keys-Holds i k s _ refl h))
        (λ used _. bind-Does _ _ _ (seen _) (λ flying _. pure-Does _ _ tt))

  pub keys_reply-Keeps : (keys : List UpstreamKey) → Keeps (keys_reply env keys)
  unfolding keys_reply
  keys_reply-Keeps keys =
      bind-Does _ _ _ (each-Does _ _ keys key_view-Keeps) (λ out _. pure-Does _ _ tt)

  pub usage_reply-Keeps : (id : Bytes) (u : User) → Keeps (usage_reply env id u)
  unfolding usage_reply
  usage_reply-Keeps id u =
      bind-Does _ _ _ (counters-Keeps id)
        (λ c _. bind-Does _ _ _ (draw-Does _ _) (λ now _. pure-Does _ _ tt))

  pub month_report-Keeps : (month : Bytes) → Keeps (month_report env month)
  unfolding month_report
  month_report-Keeps month = bind-Does _ _ _ (draw-Does _ _) (λ today _.
      bind-Does _ _ _ (call_reports-Does _ env.others keeps _)
        (λ answer _. bind-Does _ _ _ (found_or-Does _ answer _ _) (λ report _. pure-Does _ _ tt)))

  pub key_request-Keeps : (body : Bytes) → Keeps (key_request env body)
  unfolding key_request
  key_request-Keeps body =
      bind-Does _ _ _ (found_or-Does _ (env.decode.key_body body) _ _)
        (λ req _. then-Does _ _ _ (reject_if-Does _ _ _ _) (pure-Does _ _ tt))

  pub make_key-Keeps : (user_id : Bytes) (req : KeyBody) → Keeps (make_key env user_id req)
  unfolding make_key
  make_key-Keeps user_id req = called _ (λ n s h.
      create-Holds i k env.gcm user_id req.name (trim_slashes req.base_url) req.api_key req.models
        req.enabled req.hourly_limit (env.random n) (env.id_bytes n) (env.clock n) s (fresh n) h)

  -- The API key is encrypted into the key that was found.
  seal_key-Does :
      (plain : Option Bytes) (key : UpstreamKey)
      → Does (Holds i k) (seal_key env plain key) (λ key'. key'.id ≡ key.id)
  unfolding seal_key
  seal_key-Does none key = pure-Does _ _ refl
  seal_key-Does (some plain) key = bind-Does _ _ _ (draw-Does _ _) (λ nonce _.
      bind-Does _ _ _ (or_reject-Does _ (encrypt env.gcm nonce plain) _)
        (λ enc _. pure-Does _ _ refl))

  pub update_found-Keeps :
      (key_id body : Bytes) (key : UpstreamKey)
      → str_eq key.id i ≡ false
      → Keeps (update_found env key_id body key)
  unfolding update_found patch_key
  update_found-Keeps key_id body key e =
      bind-Does _ _ _ (found_or-Does _ (env.decode.key_patch body) _ _) (λ req _.
        bind-Does _ _ _ (seal_key-Does req.api_key (patch_key req key)) (λ updated same.
          bind-Does _ _ _
            (called _ (λ n s h. replace-Holds i k updated s (ap (λ id. str_eq id i) same ∙ e) h))
            (λ replaced _. then-Does _ _ _ (or_reject-Does _ replaced _) (
              bind-Does _ _ _ (seen _) (λ after _.
                bind-Does _ _ _ (deref-Does _ after)
                  (λ k' _. bind-Does _ _ _ (key_view-Keeps k') (λ view _. pure-Does _ _ tt)))))))
