-- ===== src/Joined.antt =====
-- Texts joined by a separator, against `strings.Split`.
use code_agent_router.Prelude.{
  refl, inl, inr, [], ◌∷◌, arith, ℕ, List, ◌++◌, ◌≢◌, ◌≡◌, Bool-cases, ◌==◌, ◌∙◌, ap, sym,
}
use code_agent_router.Auth.Password.{extend, split_at}
use code_agent_router.Text.{Bytes}

unfoldable pub join : ℕ → List Bytes → Bytes
join c [] = []
join c (a ∷ []) = a
join c (a ∷ b ∷ rest) = a ++ c ∷ join c (b ∷ rest)

pub join-extend : (c b : ℕ) (ws : List Bytes) → ws ≢ [] → join c (extend b ws) ≡ b ∷ join c ws
unfolding join extend
join-extend c b [] h = absurd (h refl)
join-extend c b (a ∷ []) h = refl
join-extend c b (a ∷ x ∷ rest) h = refl

pub split_at-some : (c : ℕ) (s : Bytes) → split_at c s ≢ []
unfolding split_at extend
split_at-some c [] h = ground arith
split_at-some c (b ∷ s) h = ground arith

pub join-empty : (c : ℕ) (ws : List Bytes) → ws ≢ [] → join c ([] ∷ ws) ≡ c ∷ join c ws
unfolding join
join-empty c [] h = absurd (h refl)
join-empty c (a ∷ ws) h = refl

pub join-split_at : (c : ℕ) (s : Bytes) → join c (split_at c s) ≡ s
unfolding join split_at
join-split_at c [] = refl
join-split_at c (b ∷ s) = elim (Bool-cases (b == c)) [
  | inl e ↦
      let p : b ≡ c = ground arith in
      rw (split_at, e)
        (join-empty c (split_at c s) (split_at-some c s)
          ∙ ap (λ t. c ∷ t) (join-split_at c s)
          ∙ ap (λ x. x ∷ s) (sym p))
  | inr e ↦
      rw (split_at, e)
        (join-extend c b (split_at c s) (split_at-some c s) ∙ ap (◌∷◌ b) (join-split_at c s))
]
