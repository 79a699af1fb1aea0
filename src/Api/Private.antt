-- ===== src/Api/Private.antt =====
-- A user's upstream keys against the requests of other users, through internal/api/server.go and
-- user.go.
use code_agent_router.Api.Action.{read}
use code_agent_router.Api.User
use code_agent_router.Prelude.{
  inl, inr, some, none, true, false, [], arith, Option, ◌≡◌, ℕ, Bool-cases, subst, ap, ◌∙◌, Bool,
  sym,
}
use code_agent_router.Model.{Session, UpstreamKey}
use code_agent_router.Api.Shared.{Env, report_reply, ReportQuery}
use code_agent_router.Text.{Bytes, str_eq, codes, str_eq_iff}
use code_agent_router.Store.Users.{random_id, get_user_by_username}
use code_agent_router.Store.State.{Store}
use code_agent_router.Api.Isolation.{Holds, delete-Holds, same_keys-Holds, login_found_keys}
use code_agent_router.Auth.{
  login_user, Answer, granted, refused, unauthorized, invalid_credentials, no_entropy, panicked,
}
use code_agent_router.Store.Keys.{get_upstream_key}
use code_agent_router.Api.Kept.{
  bind-Does, Does, found_or-Does, read-Does, pure-Does, or_reject-Does, then-Does, reject-Does,
  panic-Does,
}
use code_agent_router.Api.Admin.{logged_in}
use code_agent_router.Api.Owners.{
  Keeps, seen, key_request-Keeps, month_report-Keeps, counters-Keeps, keys_reply-Keeps,
  make_key-Keeps, update_found-Keeps, called, usage_reply-Keeps, key_view-Keeps, called_twice,
}
use code_agent_router.Report.Rows.{Report}
use code_agent_router.Map.{lookup}

owned-some :
    (session : Session) (o : Option UpstreamKey) (key : UpstreamKey)
    → User.owned session o ≡ some key
    → (o ≡ some key) × (str_eq key.user_id session.user_id ≡ true)
unfolding User.owned
owned-some session none key h = absurd (ground arith)
owned-some session (some k') key h = elim (Bool-cases (str_eq k'.user_id session.user_id)) [
  | inl e ↦
      let p : some k' ≡ some key = rw (User.owned, e) at h in
      (p, subst (λ o. str_eq (user_of o) session.user_id ≡ true) p e)
  | inr e ↦ let p = rw (User.owned, e) at h in absurd (ground arith)
]
  where
    user_of : Option UpstreamKey → Bytes
    user_of none = []
    user_of (some x) = x.user_id

module _ (env : Env) (i : Bytes) (k : UpstreamKey)
    (fresh : (n : ℕ) → str_eq (random_id (codes "k_") (env.id_bytes n)) i ≡ false)
    (keeps : (n : ℕ) (s : Store) → Holds i k s → Holds i k (env.others.others n s)) where
  pub login-Keeps : (body : Bytes) → Keeps env i k fresh keeps (User.login env body)
  unfolding User.login login_user
  login-Keeps body = bind-Does _ _ _ (found_or-Does _ (env.decode.login_body body) _ _) (λ req _.
      bind-Does _ _ _
        (called_twice env i k fresh keeps _ (λ n between s g h.
          same_keys-Holds i k (between s) _
            (login_found_keys i k env.hmac (get_user_by_username req.username s) req.password
              (env.random n) (env.clock n) (between s))
            (g s h)))
        (λ answer _. logged_in-Keeps answer))
    where
      logged_in-Keeps : (answer : Answer Bytes) → Keeps env i k fresh keeps (logged_in env answer)
      logged_in-Keeps (granted token) = pure-Does _ _ tt
      logged_in-Keeps (refused unauthorized) = reject-Does _ _ _
      logged_in-Keeps (refused invalid_credentials) = reject-Does _ _ _
      logged_in-Keeps (refused no_entropy) = reject-Does _ _ _
      logged_in-Keeps (refused panicked) = panic-Does _

  pub me-Keeps : (session : Session) → Keeps env i k fresh keeps (User.me env session)
  unfolding User.me
  me-Keeps session = bind-Does _ _ _ (seen env i k fresh keeps _) (λ found _.
      bind-Does _ _ _ (found_or-Does _ found _ _) (λ u _.
        bind-Does _ _ _ (seen env i k fresh keeps _) (λ keys _.
          bind-Does _ _ _ (counters-Keeps env i k fresh keeps u.id) (λ c _. pure-Does _ _ tt))))

  pub list_keys-Keeps : (session : Session) → Keeps env i k fresh keeps (User.list_keys env session)
  unfolding User.list_keys
  list_keys-Keeps session =
      bind-Does _ _ _ (seen env i k fresh keeps _)
        (λ keys _. keys_reply-Keeps env i k fresh keeps keys)

  pub create_key-Keeps :
      (session : Session) (body : Bytes)
      → Keeps env i k fresh keeps (User.create_key env session body)
  unfolding User.create_key
  create_key-Keeps session body =
      bind-Does _ _ _ (key_request-Keeps env i k fresh keeps body) (λ req _.
        bind-Does _ _ _ (make_key-Keeps env i k fresh keeps session.user_id req) (λ made _.
          bind-Does _ _ _ (or_reject-Does _ made _) (λ key _.
            bind-Does _ _ _ (key_view-Keeps env i k fresh keeps key) (λ view _. pure-Does _ _ tt))))

  -- What is found under an identifier is filed there.
  abbrev IsFound : (key_id : Bytes) → Option UpstreamKey → Type 0
  IsFound key_id found =
      (key : UpstreamKey)
      → found ≡ some key
      → (key.id ≡ key_id) × (str_eq key_id i ≡ true → key ≡ k)

  find-Does :
      (key_id : Bytes)
      → Does (Holds i k) (read env.others (get_upstream_key key_id)) (IsFound key_id)
  unfolding get_upstream_key
  find-Does key_id = read-Does (Holds i k) env.others keeps _ (λ s h key e. (
    h.filed key_id key e,
    λ z.
        some_inj (sym e ∙ ap (λ j. lookup j s.upstream_keys) ((str_eq_iff key_id i).0 z) ∙ h.there),
  ))
    where
      some_inj : {a b : UpstreamKey} → some a ≡ some b → a ≡ b
      some_inj h = cc

  module _ (session : Session) (stranger : str_eq k.user_id session.user_id ≡ false) where
    -- A key of the session's user is another.
    own_key_differs :
        (key_id : Bytes) (found : Option UpstreamKey) (key : UpstreamKey)
        → IsFound key_id found
        → User.owned session found ≡ some key
        → (str_eq key.id i ≡ false) × (str_eq key_id i ≡ false)
    own_key_differs key_id found key f e =
        let (p, q) = owned-some session found key e in
        let (filed, same) = f key p in
        elim (Bool-cases (str_eq key_id i)) [
          | inr z ↦ (ap (λ id. str_eq id i) filed ∙ z, z)
          | inl z ↦
              absurd (
                ground (arith, ap (λ (x : UpstreamKey). str_eq x.user_id session.user_id) (same z)))
        ]

    pub update_key-Keeps :
        (key_id body : Bytes) → Keeps env i k fresh keeps (User.update_key env session key_id body)
    unfolding User.update_key
    update_key-Keeps key_id body = bind-Does _ _ _ (find-Does key_id) (λ found f.
        bind-Does _ _ _ (found_or-Does _ (User.owned session found) _ _) (λ key e.
          update_found-Keeps env i k fresh keeps key_id body key
            (own_key_differs key_id found key f e).0))

    pub delete_key-Keeps :
        (key_id : Bytes) → Keeps env i k fresh keeps (User.delete_key env session key_id)
    unfolding User.delete_key
    delete_key-Keeps key_id = bind-Does _ _ _ (find-Does key_id) (λ found f.
        bind-Does _ _ _ (found_or-Does _ (User.owned session found) _ _) (λ key e.
          bind-Does _ _ _
            (called env i k fresh keeps _
              (λ n s h. delete-Holds i k key_id s (own_key_differs key_id found key f e).1 h))
            (λ gone _. then-Does _ _ _ (or_reject-Does _ gone _) (pure-Does _ _ tt))))

    pub usage-Keeps : Keeps env i k fresh keeps (User.usage env session)
    unfolding User.usage
    usage-Keeps = bind-Does _ _ _ (seen env i k fresh keeps _) (λ found _.
        bind-Does _ _ _ (found_or-Does _ found _ _)
          (λ u _. usage_reply-Keeps env i k fresh keeps u.id u))

    report_reply-Keeps :
        (csv : Bool) (file : Bytes) (report : Report)
        → Keeps env i k fresh keeps (report_reply csv file report)
    unfolding report_reply
    report_reply-Keeps true file report = pure-Does _ _ tt
    report_reply-Keeps false file report = pure-Does _ _ tt

    pub monthly_report-Keeps :
        (q : ReportQuery) → Keeps env i k fresh keeps (User.monthly_report env session q)
    unfolding User.monthly_report
    monthly_report-Keeps q =
        bind-Does _ _ _ (month_report-Keeps env i k fresh keeps q.month)
          (λ answer _. report_reply-Keeps q.csv _ _)
