-- ===== src/Ratelimit/Retry.antt =====
-- The wait that internal/ratelimit/ratelimit.go tells a refused request.
use code_agent_router.Prelude.{
  ℕ, ◌+◌, ◌-◌, ◌≤◌, ◌<◌, ◌≡◌, ap, subst, inl, inr, List, [], ◌∷◌, keep, length, length-append,
  length-keep-le, ltb, Bool-cases, get_or, arith, suc,
}
use code_agent_router.Text.{Bytes, str_eq, str_eq_iff, str_eq_refl}
use code_agent_router.Map.{lookup, lookup-insert}
use code_agent_router.Ratelimit.{
  Limiter, new, allow, Verdict, allowed, denied, is_recent, recent, retry_after, allow_hits,
}

-- The slice that is written back is within the limit if the one that was read is.
length-allow_hits :
    (limit window now : ℕ) (hits : List ℕ)
    → length hits ≤ limit
    → length (allow_hits limit window now hits).1 ≤ limit
unfolding allow_hits recent
length-allow_hits limit window now hits h =
    elim (Bool-cases (ltb (length (recent window now hits)) limit)) [
      | inl e ↦ rw e (rw (length-append (recent window now hits) (now ∷ [])) (ground arith))
      | inr e ↦ rw e (omega (arith, length-keep-le (is_recent window now) hits))
    ]

-- The first hit that is kept is recent, and the hits kept are at most all.
kept_head :
    (window now : ℕ) (hits : List ℕ) {t : ℕ} {ts : List ℕ}
    → recent window now hits ≡ t ∷ ts
    → (now < t + window) × (suc (length ts) ≤ length hits)
unfolding recent is_recent
kept_head window now [] e = cc
kept_head window now (x ∷ xs) e = elim (Bool-cases (is_recent window now x)) [
  | inl f ↦
      let le = length-keep-le (is_recent window now) xs in
      let g : x ∷ keep (is_recent window now) xs ≡ _ = rw f at e in ground arith
  | inr f ↦ let (p, q) = kept_head window now xs (rw f at e) in (p, omega arith)
]

-- When the oldest hit that was kept has gone, there is room.
room_later :
    (limit window now' t : ℕ) (ts : List ℕ)
    → suc (length ts) ≤ limit
    → t + window ≤ now'
    → (allow_hits limit window now' (t ∷ ts)).0 ≡ allowed
unfolding allow_hits recent is_recent
room_later limit window now' t ts h k = ground (arith, length-keep-le (is_recent window now') ts)

-- A refusal keeps the recent hits, and tells the time until the oldest of them goes.
refused_at :
    (limit window now : ℕ) (hits kept : List ℕ) {r : ℕ}
    → allow_hits limit window now hits ≡ (denied r, kept)
    → (recent window now hits ≡ kept) × (retry_after window now kept ≡ denied r)
unfolding allow_hits
refused_at limit window now hits kept {r} d =
    elim (Bool-cases (ltb (length (recent window now hits)) limit)) [
      | inl e ↦ cc (rw e at d)
      | inr e ↦
          let d' : ◌≡◌ {A = Verdict × List ℕ}
              (retry_after window now (recent window now hits), recent window now hits)
              (denied r, kept) =
            rw e at d in
          let k : recent window now hits ≡ kept = ap (λ p. p.1) d' in
          (k, subst (λ l. retry_after window now l ≡ denied r) k (ap (λ p. p.0) d'))
    ]

retry_bound :
    (window now : ℕ) (t : ℕ) (ts : List ℕ) {r : ℕ}
    → now < t + window
    → retry_after window now (t ∷ ts) ≡ denied r
    → r ≡ t + window - now
unfolding retry_after
retry_bound window now t ts h e = ground arith

refused_hits :
    (limit window now : ℕ) (hits kept : List ℕ) {r : ℕ}
    → length hits ≤ limit
    → allow_hits limit window now hits ≡ (denied r, kept)
    → (0 < r) × ((allow_hits limit window (now + r) kept).0 ≡ allowed)
unfolding retry_after
refused_hits limit window now hits [] h d = cc ((refused_at limit window now hits [] d).1)
refused_hits limit window now hits (t ∷ ts) {r} h d =
    let (k, e) = refused_at limit window now hits (t ∷ ts) d in
    let (p, q) = kept_head window now hits k in
    let b = retry_bound window now t ts p e in
    (omega arith, room_later limit window (now + r) t ts (omega arith) (omega arith))

abbrev hits_of : Bytes → Limiter → List ℕ
hits_of user l = get_or [] (lookup user l.windows)

-- The limiter after a history of calls.
unfoldable pub after : Limiter → List (Bytes × ℕ) → Limiter
after l [] = l
after l ((id, now) ∷ calls) = after (allow l id now).1 calls

module _ (user : Bytes) where
  allow-Capped :
      (l : Limiter) (id : Bytes) (now : ℕ)
      → length (hits_of user l) ≤ l.limit
      → length (hits_of user (allow l id now).1) ≤ l.limit
  unfolding allow
  allow-Capped l id now h = elim (Bool-cases (str_eq id user)) [
    | inl e ↦
        rw (lookup-insert, e, (str_eq_iff id user).0 e)
          (length-allow_hits l.limit l.window now (hits_of user l) h)
    | inr e ↦ rw (lookup-insert, e) h
  ]

  after-Capped :
      (l : Limiter) (calls : List (Bytes × ℕ))
      → length (hits_of user l) ≤ l.limit
      → length (hits_of user (after l calls)) ≤ (after l calls).limit
  unfolding after allow
  after-Capped l [] h = h
  after-Capped l ((id, now) ∷ calls) h =
      after-Capped (allow l id now).1 calls (allow-Capped l id now h)

  refused_user :
      (l : Limiter) (now : ℕ) {r : ℕ} {l' : Limiter}
      → length (hits_of user l) ≤ l.limit
      → allow l user now ≡ (denied r, l')
      → (0 < r) × ((allow l' user (now + r)).0 ≡ allowed)
  unfolding allow
  refused_user l now {r} {l'} h e =
      let a : Verdict × List ℕ = allow_hits l.limit l.window now (hits_of user l) in
      let d : a ≡ (denied r, a.1) = λ i. ((e i).0, a.1) in
      let (p, q) = refused_hits l.limit l.window now (hits_of user l) a.1 h d in
      (
        p,
        subst (λ (m : Limiter). (allow m user (now + r)).0 ≡ allowed) (ap (λ p. p.1) e)
            (rw (lookup-insert, str_eq_refl) q),
      )

  -- A request that is refused after any history is told a positive wait, and when it comes back
  -- after that wait, with no request of anybody in between, it is let through.
  pub retry_allowed :
      (limit window : ℕ) (calls : List (Bytes × ℕ)) (now : ℕ) {r : ℕ} {l' : Limiter}
      → allow (after (new limit window) calls) user now ≡ (denied r, l')
      → (0 < r) × ((allow l' user (now + r)).0 ≡ allowed)
  unfolding new lookup
  retry_allowed limit window calls now e =
      refused_user (after (new limit window) calls) now
        (after-Capped (new limit window) calls (omega arith)) e
