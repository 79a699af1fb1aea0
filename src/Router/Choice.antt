-- ===== src/Router/Choice.antt =====
-- What internal/router/router.go promises of the key that `Select` returns, and of its errors.
mod Lists
pub use Lists.{In-room, IsLeast, choose-ok, choose-err, not_less}
use code_agent_router.Prelude.{
  ◌≡◌, refl, subst, ◌⊎◌, inl, inr, ◌↔◌, Bool, true, false, not, List, [], ◌∷◌, keep, In, In-keep,
  keep-In, arith, get_or, if◌then◌else◌, ◌∙◌, Bool-cases,
}
use code_agent_router.Prelude.Int.{ℤ, ◌≤ℤ◌}
use code_agent_router.Text.{Bytes, to_lower, trim_space}
use code_agent_router.Map.{lookup}
use code_agent_router.Model.{UpstreamKey}
use code_agent_router.Result.{ok, Error, Result, err, no_key, hourly_exhausted}
use code_agent_router.Router.{
  serves_model, less, best, Query, usable, is_own, own_keys, pool_keys, has_room, qualified, choose,
  select, str_lt,
}
use code_agent_router.Router.Order.{less-IsOrder, HeadLeast, sort-HeadLeast}

module _ (q : Query) (keys : List UpstreamKey) where
  -- An enabled key that is not excluded and serves the model, below its hourly limit in working
  -- hours.
  pub record IsCandidate (k : UpstreamKey) : Type 0 where
    pub listed : In k keys
    pub is_enabled : k.enabled ≡ true
    pub not_excluded : get_or false (lookup k.id q.exclude) ≡ false
    pub serves : serves_model k (to_lower (trim_space q.model_name)) ≡ true
    pub room : q.working ≡ true → has_room q k ≡ true

  -- A usable key, whatever has been spent on it.
  pub record IsServer (k : UpstreamKey) : Type 0 where
    pub listed : In k keys
    pub is_enabled : k.enabled ≡ true
    pub not_excluded : get_or false (lookup k.id q.exclude) ≡ false
    pub serves : serves_model k (to_lower (trim_space q.model_name)) ≡ true

  own-IsServer : (k : UpstreamKey) → In k (own_keys q keys) ↔ (IsServer k × (is_own q k ≡ true))
  unfolding own_keys usable
  own-IsServer k = (
    (λ i. let (j, e) = In-keep _ k keys i in ground arith),
    (λ h. keep-In _ k keys h.0.listed (ground arith)),
  )

  pool-IsServer : (k : UpstreamKey) → In k (pool_keys q keys) ↔ (IsServer k × (is_own q k ≡ false))
  unfolding pool_keys usable
  pool-IsServer k = (
    (λ i. let (j, e) = In-keep _ k keys i in ground arith),
    (λ h. keep-In _ k keys h.0.listed (ground arith)),
  )

  own-IsCandidate :
      (k : UpstreamKey)
      → In k (qualified q (own_keys q keys)) ↔ (IsCandidate k × (is_own q k ≡ true))
  unfolding qualified
  own-IsCandidate k = (
    (λ i.
        let (j, r) = (In-room q.working (has_room q) k (own_keys q keys)).0 i in
        let s = (own-IsServer k).0 j in ground arith),
    (λ h.
        (In-room q.working (has_room q) k (own_keys q keys)).1
          ((own-IsServer k).1 (ground arith), h.0.room)),
  )

  pool-IsCandidate :
      (k : UpstreamKey)
      → In k (qualified q (pool_keys q keys)) ↔ (IsCandidate k × (is_own q k ≡ false))
  unfolding qualified
  pool-IsCandidate k = (
    (λ i.
        let (j, r) = (In-room q.working (has_room q) k (pool_keys q keys)).0 i in
        let s = (pool-IsServer k).0 j in ground arith),
    (λ h.
        (In-room q.working (has_room q) k (pool_keys q keys)).1
          ((pool-IsServer k).1 (ground arith), h.0.room)),
  )

  -- The key that the documentation asks for: one of the user's own keys if any will do, and among
  -- the keys of that kind one with the least usage, the fewest requests in flight, the least name.
  pub record IsChoice (k : UpstreamKey) : Type 0 where
    pub candidate : IsCandidate k
    pub own_first : (c : UpstreamKey) → IsCandidate c → is_own q c ≡ true → is_own q k ≡ true
    pub least :
        (c : UpstreamKey)
        → IsCandidate c
        → is_own q c ≡ is_own q k
        → (q.usage k.id ≤ℤ q.usage c.id)
          × (q.usage c.id ≡ q.usage k.id
              → (q.in_flight k.id ≤ℤ q.in_flight c.id)
                × (q.in_flight c.id ≡ q.in_flight k.id → str_lt c.id k.id ≡ false))

  abbrev pub Meets : Result UpstreamKey → Type 0
  Meets (ok k) = IsChoice k
  Meets (err no_key) = (k : UpstreamKey) → ¬ IsServer k
  Meets (err hourly_exhausted) =
      (q.working ≡ true) × ((k : UpstreamKey) × IsServer k) × ((k : UpstreamKey) → ¬ IsCandidate k)
  Meets (err _) = ⊥

  own-IsChoice : (k : UpstreamKey) → IsLeast q (qualified q (own_keys q keys)) k → IsChoice k
  own-IsChoice k (i, least) =
      let (c, own) = (own-IsCandidate k).0 i in
      record {
        candidate = c;
        own_first = λ a _ _. own;
        least = λ a ca e. not_less q a k (least a ((own-IsCandidate a).1 (ca, e ∙ own)));
      }

  pool-IsChoice :
      (k : UpstreamKey)
      → qualified q (own_keys q keys) ≡ []
      → IsLeast q (qualified q (pool_keys q keys)) k
      → IsChoice k
  pool-IsChoice k e (i, least) =
      let (c, other) = (pool-IsCandidate k).0 i in
      record {
        candidate = c;
        own_first = λ a ca oa. absurd (subst (In a) e ((own-IsCandidate a).1 (ca, oa)));
        least = λ a ca f. not_less q a k (least a ((pool-IsCandidate a).1 (ca, f ∙ other)));
      }

  no-IsCandidate :
      qualified q (own_keys q keys) ≡ []
      → qualified q (pool_keys q keys) ≡ []
      → (k : UpstreamKey) → ¬ IsCandidate k
  no-IsCandidate eo ep k c = elim (Bool-cases (is_own q k)) [
    | inl o ↦ subst (In k) eo ((own-IsCandidate k).1 (c, o))
    | inr o ↦ subst (In k) ep ((pool-IsCandidate k).1 (c, o))
  ]

  no-IsServer : own_keys q keys ≡ [] → pool_keys q keys ≡ [] → (k : UpstreamKey) → ¬ IsServer k
  no-IsServer eo ep k c = elim (Bool-cases (is_own q k)) [
    | inl o ↦ subst (In k) eo ((own-IsServer k).1 (c, o))
    | inr o ↦ subst (In k) ep ((pool-IsServer k).1 (c, o))
  ]

  server-IsCandidate : (k : UpstreamKey) → IsServer k → q.working ≡ false → IsCandidate k
  server-IsCandidate k s w = record {
    listed = s.listed;
    is_enabled = s.is_enabled;
    not_excluded = s.not_excluded;
    serves = s.serves;
    room = λ h. cc;
  }

  some-IsServer : (k : UpstreamKey) → In k (own_keys q keys) ⊎ In k (pool_keys q keys) → IsServer k
  some-IsServer k (inl i) = ((own-IsServer k).0 i).0
  some-IsServer k (inr i) = ((pool-IsServer k).0 i).0

  all_at_limit :
      (k : UpstreamKey) → IsServer k → ((c : UpstreamKey) → ¬ IsCandidate c) → q.working ≡ true
  all_at_limit k s none_fits = elim (Bool-cases q.working) [
    | inl w ↦ w
    | inr w ↦ absurd (none_fits k (server-IsCandidate k s w))
  ]

  failed-Meets : (e : Error) → select q keys ≡ err e → Meets (err e)
  unfolding select
  failed-Meets e h =
      let (eo, ep, why) = choose-err q _ _ _ _ h in
      elim why [
        | inl (f, ao, ap') ↦ rw f (no-IsServer ao ap')
        | inr (f, (k, i)) ↦
            let s = some-IsServer k i in
            let none_fits = no-IsCandidate eo ep in
            rw f (all_at_limit k s none_fits, (k, s), none_fits)
      ]

  chosen-Meets : (k : UpstreamKey) → select q keys ≡ ok k → IsChoice k
  unfolding select
  chosen-Meets k h = elim (choose-ok q _ _ _ _ h) [
    | inl l ↦ own-IsChoice k l
    | inr (e, l) ↦ pool-IsChoice k e l
  ]

  Meets-cases : (r : Result UpstreamKey) → select q keys ≡ r → Meets r
  Meets-cases (ok k) h = chosen-Meets k h
  Meets-cases (err e) h = failed-Meets e h

  -- `Select` returns the key that the routing rules ask for; it fails with ErrNoKey only when no
  -- enabled key that is not excluded serves the model, and with ErrHourlyExhausted only when there
  -- are such keys, it is a working hour, and all are at their limit. It fails in no other way.
  pub select-Meets : Meets (select q keys)
  select-Meets = Meets-cases (select q keys) refl
