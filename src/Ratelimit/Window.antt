-- ===== src/Ratelimit/Window.antt =====
-- What internal/ratelimit/ratelimit.go promises: no user gets more than the limit through in any
-- window, whatever the calls, and a refused request may come back after the time that it was told.
use code_agent_router.Prelude.{
  ℕ, ◌+◌, ◌≤◌, ◌<◌, ◌≡◌, refl, sym, ◌∙◌, inl, inr, Bool, true, false, ◌&&◌, List, [], ◌∷◌, ◌++◌,
  keep, keep-append, keep-keep, length-keep_mono, length, length-append, ltb, leb, get_or,
  Bool-cases, arith,
}
use code_agent_router.Text.{Bytes, str_eq, str_eq_iff, str_eq_refl}
use code_agent_router.Map.{lookup, lookup-insert}
use code_agent_router.Ratelimit.{
  Limiter, Verdict, allowed, denied, panics, is_recent, recent, retry_after, allow_hits, allow, new,
}

le_trans_lt : {a b c : ℕ} → a ≤ b → b < c → a < c
le_trans_lt h k = omega arith

-- The instants from `a` on, for the length of the window.
abbrev pub in_span : (window a t : ℕ) → Bool
in_span window a t = leb a t && ltb t (a + window)

-- The instants of the requests let through, with the one at `now` if it was and is the user's.
abbrev pub logged : Verdict → (mine : Bool) → (now : ℕ) → (log : List ℕ) → List ℕ
logged allowed true now log = log ++ now ∷ []
logged allowed false now log = log
logged (denied r) mine now log = log
logged panics mine now log = log

-- The requests of one user that a history of calls lets through, after those of `log`.
unfoldable pub let_through : Bytes → Limiter → List (Bytes × ℕ) → (log : List ℕ) → List ℕ
let_through user l [] log = log
let_through user l ((id, now) ∷ calls) log =
    let (v, l') = allow l id now in let_through user l' calls (logged v (str_eq id user) now log)

-- The calls come in the order of time, none before `last`.
abbrev pub InOrder : ℕ → List (Bytes × ℕ) → Type 0
InOrder last [] = Unit
InOrder last ((id, now) ∷ calls) = (last ≤ now) × InOrder now calls

abbrev hits_of : Bytes → Limiter → List ℕ
hits_of user l = get_or [] (lookup user l.windows)

module _ (limit window : ℕ) where
  -- The slice holds all that may still count, and no window holds more than the limit.
  record Inv (last : ℕ) (hits log : List ℕ) : Type 0 where
    same : (now : ℕ) → last ≤ now → recent window now log ≡ recent window now hits
    spans : (a : ℕ) → length (keep (in_span window a) log) ≤ limit

  recent-append :
      (now : ℕ) (xs : List ℕ) (t : ℕ)
      → recent window now (xs ++ t ∷ []) ≡ recent window now xs ++ recent window now (t ∷ [])
  unfolding recent
  recent-append now xs t = keep-append (is_recent window now) xs (t ∷ [])

  recent-recent :
      (now now' : ℕ) (hits : List ℕ)
      → now ≤ now'
      → recent window now' (recent window now hits) ≡ recent window now' hits
  unfolding recent is_recent
  recent-recent now now' hits h =
      keep-keep (is_recent window now') (is_recent window now) (λ t e. ground arith) hits

  spans-allowed :
      (now a : ℕ) (log : List ℕ)
      → length (keep (in_span window a) log) ≤ limit
      → length (recent window now log) < limit
      → length (keep (in_span window a) (log ++ now ∷ [])) ≤ limit
  unfolding recent is_recent
  spans-allowed now a log h k =
      let in_window : in_span window a now ≡ true → length (keep (in_span window a) log) < limit =
        λ e.
          le_trans_lt
            (length-keep_mono (in_span window a) (is_recent window now) (λ t f. ground arith) log)
            k in
      rw (keep-append (in_span window a) log (now ∷ [])) (
        rw (length-append (keep (in_span window a) log) _)
          (elim (Bool-cases (in_span window a now)) [
            | inl e ↦ rw e (omega (arith, in_window e))
            | inr e ↦ rw e (omega arith)
          ]))

  allowed-Inv :
      (last now : ℕ) (hits log : List ℕ)
      → last ≤ now
      → Inv last hits log
      → length (recent window now hits) < limit
      → Inv now (recent window now hits ++ now ∷ []) (log ++ now ∷ [])
  allowed-Inv last now hits log le v h = record {
    same = λ n k. rw (
      recent-append n log,
      recent-append n (recent window now hits),
      recent-recent now n hits k,
      v.same n (omega arith),
    );
    spans = λ a. spans-allowed now a log (v.spans a) (rw (v.same now le) h);
  }

  kept-Inv :
      (last now : ℕ) (hits log : List ℕ)
      → last ≤ now
      → Inv last hits log
      → Inv now (recent window now hits) log
  kept-Inv last now hits log le v = record {
    same = λ n k. v.same n (omega arith) ∙ sym (recent-recent now n hits k);
    spans = v.spans;
  }

  later-Inv : (last now : ℕ) (hits log : List ℕ) → last ≤ now → Inv last hits log → Inv now hits log
  later-Inv last now hits log le v = record {
    same = λ n k. v.same n (omega arith);
    spans = v.spans;
  }

  refused_log :
      (now : ℕ) (kept : List ℕ) (log : List ℕ)
      → logged (retry_after window now kept) true now log ≡ log
  unfolding retry_after
  refused_log now [] log = refl
  refused_log now (t ∷ ts) log = refl

  allow_hits-Inv :
      (last now : ℕ) (hits log : List ℕ)
      → last ≤ now
      → Inv last hits log
      → let (v, hits') = allow_hits limit window now hits in Inv now hits' (logged v true now log)
  unfolding allow_hits
  allow_hits-Inv last now hits log le v =
      elim (Bool-cases (ltb (length (recent window now hits)) limit)) [
        | inl e ↦ rw e (allowed-Inv last now hits log le v (ground arith))
        | inr e ↦ rw (e, refused_log) (kept-Inv last now hits log le v)
      ]

logged_other : (v : Verdict) (now : ℕ) (log : List ℕ) → logged v false now log ≡ log
logged_other allowed now log = refl
logged_other (denied r) now log = refl
logged_other panics now log = refl

-- The history of all users, seen by one of them.
module _ (user : Bytes) where
  own-Inv :
      (l : Limiter) (last : ℕ) (now : ℕ) (log : List ℕ)
      → last ≤ now
      → Inv l.limit l.window last (hits_of user l) log
      → let (v, l') = allow l user now in
        Inv l.limit l.window now (hits_of user l') (logged v true now log)
  unfolding allow
  own-Inv l last now log le v =
      rw (lookup-insert, str_eq_refl)
        (allow_hits-Inv l.limit l.window last now (hits_of user l) log le v)

  other-Inv :
      (l : Limiter) (last : ℕ) (id : Bytes) (now : ℕ) (log : List ℕ)
      → str_eq id user ≡ false
      → last ≤ now
      → Inv l.limit l.window last (hits_of user l) log
      → let (v, l') = allow l id now in
        Inv l.limit l.window now (hits_of user l') (logged v false now log)
  unfolding allow
  other-Inv l last id now log e le v =
      rw (lookup-insert, e, logged_other)
        (later-Inv l.limit l.window last now (hits_of user l) log le v)

  allow-Inv :
      (l : Limiter) (last : ℕ) (id : Bytes) (now : ℕ) (log : List ℕ)
      → last ≤ now
      → Inv l.limit l.window last (hits_of user l) log
      → let (v, l') = allow l id now in
        Inv l.limit l.window now (hits_of user l') (logged v (str_eq id user) now log)
  allow-Inv l last id now log le v = elim (Bool-cases (str_eq id user)) [
    | inl e ↦ rw (e, (str_eq_iff id user).0 e) (own-Inv l last now log le v)
    | inr e ↦ rw e (other-Inv l last id now log e le v)
  ]

  let_through-Inv :
      (l : Limiter) (last : ℕ) (calls : List (Bytes × ℕ)) (log : List ℕ)
      → InOrder last calls
      → Inv l.limit l.window last (hits_of user l) log
      → (a : ℕ) → length (keep (in_span l.window a) (let_through user l calls log)) ≤ l.limit
  unfolding let_through allow
  let_through-Inv l last [] log o v a = v.spans a
  let_through-Inv l last ((id, now) ∷ calls) log o v a =
      let_through-Inv (allow l id now).1 now calls _ o.1 (allow-Inv l last id now log o.0 v) a

  -- In no time span of the length of the window are more requests of one user let through than the
  -- limit, if the calls of `Allow`, by whichever users, come in the order of time.
  pub window_limit :
      (limit window : ℕ) (calls : List (Bytes × ℕ)) (a : ℕ)
      → InOrder 0 calls
      → length (keep (in_span window a) (let_through user (new limit window) calls [])) ≤ limit
  unfolding new lookup
  window_limit limit window calls a o =
      let_through-Inv (new limit window) 0 calls [] o
        (record { same = λ n k. refl; spans = λ b. omega arith }) a
