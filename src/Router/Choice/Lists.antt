-- ===== src/Router/Choice/Lists.antt =====
-- What the lists and the order of internal/router/router.go give, before the guards.
use code_agent_router.Prelude.{
  ◌≡◌, refl, subst, ◌⊎◌, inl, inr, ◌↔◌, Bool, true, false, not, List, [], ◌∷◌, keep, In, In-keep,
  keep-In, arith, if◌then◌else◌,
}
use code_agent_router.Prelude.Int.{ℤ, ◌≤ℤ◌}
use code_agent_router.Text.{Bytes}
use code_agent_router.Model.{UpstreamKey}
use code_agent_router.Result.{ok, Error, err, no_key, hourly_exhausted}
use code_agent_router.Router.{less, best, Query, choose, str_lt}
use code_agent_router.Router.Order.{less-IsOrder, HeadLeast, sort-HeadLeast}

module _ (usage in_flight : Bytes → ℤ) where
  head_of_sort :
      (k : UpstreamKey) (ks s : List UpstreamKey)
      → HeadLeast (less usage in_flight) (less-IsOrder usage in_flight) (k ∷ ks) s
      → let b = elim s as (λ _. UpstreamKey) [ [] ↦ k | b ∷ bs ↦ b ] in
        In b (k ∷ ks) × ((a : UpstreamKey) → In a (k ∷ ks) → less usage in_flight a b ≡ false)
  head_of_sort k ks [] h = absurd h
  head_of_sort k ks (b ∷ bs) h = h

  best-least :
      (k : UpstreamKey) (ks : List UpstreamKey)
      → In (best usage in_flight k ks) (k ∷ ks)
        × ((a : UpstreamKey)
            → In a (k ∷ ks)
            → less usage in_flight a (best usage in_flight k ks) ≡ false)
  unfolding best
  best-least k ks =
      head_of_sort k ks _
        (sort-HeadLeast (less usage in_flight) (less-IsOrder usage in_flight) k ks)

pub In-room :
    (w : Bool) (p : UpstreamKey → Bool) (k : UpstreamKey) (l : List UpstreamKey)
    → In k (if not w then l else keep p l) ↔ (In k l × (w ≡ true → p k ≡ true))
In-room true p k l =
    ((λ i. let (j, r) = In-keep p k l i in (j, λ _. r)), (λ h. keep-In p k l h.0 (h.1 refl)))
In-room false p k l = ((λ i. (i, λ e. cc)), (λ h. h.0))

-- An element of the list that none of the list is less than.
abbrev pub IsLeast : Query → List UpstreamKey → UpstreamKey → Type 0
IsLeast q l k = In k l × ((a : UpstreamKey) → In a l → less q.usage q.in_flight a k ≡ false)

-- Which list `choose` takes its key from.
pub choose-ok :
    (q : Query) (own pool all_own all_pool : List UpstreamKey) {k : UpstreamKey}
    → choose q own pool all_own all_pool ≡ ok k
    → IsLeast q own k ⊎ ((own ≡ []) × IsLeast q pool k)
unfolding choose
choose-ok q (x ∷ xs) pool all_own all_pool e =
    inl (subst (IsLeast q (x ∷ xs)) (cc) (best-least q.usage q.in_flight x xs))
choose-ok q [] (x ∷ xs) all_own all_pool e =
    inr (refl, subst (IsLeast q (x ∷ xs)) (cc) (best-least q.usage q.in_flight x xs))
choose-ok q [] [] [] [] e = cc
choose-ok q [] [] [] (x ∷ xs) e = cc
choose-ok q [] [] (x ∷ xs) all_pool e = cc

-- Which lists are empty when `choose` fails.
pub choose-err :
    (q : Query) (own pool all_own all_pool : List UpstreamKey) {e : Error}
    → choose q own pool all_own all_pool ≡ err e
    → (own ≡ [])
      × (pool ≡ [])
      × (((e ≡ no_key) × (all_own ≡ []) × (all_pool ≡ []))
          ⊎ ((e ≡ hourly_exhausted) × ((k : UpstreamKey) × (In k all_own ⊎ In k all_pool))))
unfolding choose
choose-err q (x ∷ xs) pool all_own all_pool h = cc
choose-err q [] (x ∷ xs) all_own all_pool h = cc
choose-err q [] [] [] [] h = (refl, refl, inl (cc, refl, refl))
choose-err q [] [] [] (x ∷ xs) h = (refl, refl, inr (cc, (x, inr (inl refl))))
choose-err q [] [] (x ∷ xs) all_pool h = (refl, refl, inr (cc, (x, inl (inl refl))))

-- What `less` does not put before `k` has no less usage, and so on down.
pub not_less :
    (q : Query) (c k : UpstreamKey)
    → less q.usage q.in_flight c k ≡ false
    → (q.usage k.id ≤ℤ q.usage c.id)
      × (q.usage c.id ≡ q.usage k.id
          → (q.in_flight k.id ≤ℤ q.in_flight c.id)
            × (q.in_flight c.id ≡ q.in_flight k.id → str_lt c.id k.id ≡ false))
unfolding less
not_less q c k h = (ground arith, λ e. (ground arith, λ f. ground arith))
