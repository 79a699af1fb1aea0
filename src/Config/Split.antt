-- ===== src/Config/Split.antt =====
-- `splitTopLevel` of internal/config/yaml.go loses nothing.
use code_agent_router.Prelude.{
  refl, inl, inr, true, [], ◌∷◌, arith, ℕ, ◌≡◌, ◌≢◌, Bool-cases, ◌∙◌, ap, sym,
}
use code_agent_router.Config.Text.{split_from, split_top_level, Scan, cuts, scan_start, scan_step}
use code_agent_router.Joined.{join, join-empty, join-extend}
use code_agent_router.Auth.Password.{extend}
use code_agent_router.Text.{Bytes}

split_from-some : (sep : ℕ) (st : Scan) (s : Bytes) → split_from sep st s ≢ []
unfolding split_from extend
split_from-some sep st [] h = ground arith
split_from-some sep st (c ∷ s) h = ground arith

join-split_from : (sep : ℕ) (st : Scan) (s : Bytes) → join sep (split_from sep st s) ≡ s
unfolding join split_from
join-split_from sep st [] = refl
join-split_from sep st (c ∷ s) = elim (Bool-cases (cuts sep c st)) [
  | inl e ↦
      let p : c ≡ sep = cuts-eq sep c st e in
      rw (split_from, e)
        (join-empty sep (split_from sep st s) (split_from-some sep st s)
          ∙ ap (λ t. sep ∷ t) (join-split_from sep st s)
          ∙ ap (λ x. x ∷ s) (sym p))
  | inr e ↦
      rw (split_from, e)
        (join-extend sep c (split_from sep (scan_step c st) s)
            (split_from-some sep (scan_step c st) s)
          ∙ ap (◌∷◌ c) (join-split_from sep (scan_step c st) s))
]
  where
    cuts-eq : (sep c : ℕ) (st : Scan) → cuts sep c st ≡ true → c ≡ sep
    cuts-eq sep c st e = ground arith

-- The parts that a text is split into, joined by the separator, are the text, whatever quotes and
-- brackets it holds, balanced or not.
pub join-split_top_level : (s : Bytes) (sep : ℕ) → join sep (split_top_level s sep) ≡ s
unfolding split_top_level
join-split_top_level s sep = join-split_from sep scan_start s
