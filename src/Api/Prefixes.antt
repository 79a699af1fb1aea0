-- ===== src/Api/Prefixes.antt =====
-- The patterns of internal/api/server.go against the prefixes that its middleware looks at.
use code_agent_router.Prelude.{
  inl, inr, some, true, false, [], ◌∷◌, arith, List, ◌≡◌, Bool, ◌++◌, Bool-cases, sym, ◌∙◌, ap, All,
  Option-cases,
}
use code_agent_router.Auth.Password.{split_at}
use code_agent_router.Api.Routes.{
  path_segments, Route, admin_route, user_route, web, Pattern, match_segments, match_patterns,
  Segment, Method, word, same_method,
}
use code_agent_router.Text.{Bytes, str_eq, str_eq_iff}
use code_agent_router.Joined.{join, join-split_at}

pub path_segments-prefix :
    (path a x : Bytes) (rest : List Bytes)
    → path_segments (split_at 47 path) ≡ a ∷ x ∷ rest
    → (tail : Bytes) × (path ≡ 47 ∷ (a ++ 47 ∷ tail))
unfolding path_segments join
path_segments-prefix path a x rest h = go (split_at 47 path) h (join-split_at 47 path)
  where
    go :
        (ws : List Bytes)
        → path_segments ws ≡ a ∷ x ∷ rest
        → join 47 ws ≡ path
        → (tail : Bytes) × (path ≡ 47 ∷ (a ++ 47 ∷ tail))
    go [] h e = absurd (ground arith)
    go ([] ∷ ws) h e = (join 47 (x ∷ rest), sym e ∙ ap (λ ws. join 47 ([] ∷ ws)) h)
    go ((b ∷ start) ∷ ws) h e = absurd (ground arith)

-- The handlers that stand behind a check: those of administrators and of users, but for the logins.
abbrev pub is_admin : Route → Bool
is_admin (admin_route c) = true
is_admin other = false

abbrev pub is_user : Route → Bool
is_user (user_route c) = true
is_user other = false

module _ (head : Bytes) (is_under : Route → Bool) where
  -- A pattern of these handlers begins with the word and goes on.
  abbrev pub Begins : Pattern → Type 0
  Begins p =
      (values : List Bytes)
      → is_under (p.target values) ≡ true
      → (s : Segment) × (ss : List Segment) × (p.segments ≡ word head ∷ s ∷ ss)

  match_segments-head :
      (s : Segment) (ss : List Segment) (path values : List Bytes)
      → match_segments (word head ∷ s ∷ ss) path ≡ some values
      → (x : Bytes) × (rest : List Bytes) × (path ≡ head ∷ x ∷ rest)
  unfolding match_segments
  match_segments-head s ss [] values h = absurd (ground arith)
  match_segments-head s ss (p ∷ []) values h = absurd (ground arith)
  match_segments-head s ss (p ∷ x ∷ rest) values h = elim (Bool-cases (str_eq head p)) [
    | inl e ↦ (x, rest, ap (λ q. q ∷ x ∷ rest) (sym ((str_eq_iff head p).0 e)))
    | inr e ↦ let h' = rw (match_segments, e) at h in absurd (ground arith)
  ]

  pub match_patterns-head :
      (ps : List Pattern) (method : Method) (path : List Bytes)
      → is_under web ≡ false
      → All Begins ps
      → is_under (match_patterns ps method path) ≡ true
      → (x : Bytes) × (rest : List Bytes) × (path ≡ head ∷ x ∷ rest)
  unfolding match_patterns
  match_patterns-head [] method path z b h = absurd (ground arith)
  match_patterns-head (p ∷ ps) method path z (q, b) h =
      elim (Option-cases (match_segments p.segments path)) [
        | inl e ↦ match_patterns-head ps method path z b (rw (match_patterns, e) at h)
        | inr (values, e) ↦ elim (Bool-cases (same_method p.method method)) [
          | inr k ↦ match_patterns-head ps method path z b (rw (match_patterns, e, k) at h)
          | inl k ↦
              let (s, ss, same) = q values (rw (match_patterns, e, k) at h) in
              match_segments-head s ss path values
                (ap (λ segments. match_segments segments path) (sym same) ∙ e)
        ]
      ]
