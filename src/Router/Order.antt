-- ===== src/Router/Order.antt =====
-- The order by which internal/router/router.go compares keys, and the head of a stable sort.
use code_agent_router.Prelude.{
  ◌≡◌, refl, inl, inr, Bool, true, false, List, [], ◌∷◌, In, arith, Bool-cases,
}
use code_agent_router.Prelude.Int.{ℤ}
use code_agent_router.Text.{Bytes, str_lt}
use code_agent_router.Router.{less, insert_stable, sort_stable}

-- A strict weak order, as a comparison that Go's sort asks for.
pub record IsOrder {A : Type 0} (lt : A → A → Bool) : Type 0 where
  pub asymm : (a b : A) → lt a b ≡ true → lt b a ≡ false
  pub negtrans : (a b c : A) → lt a b ≡ false → lt b c ≡ false → lt a c ≡ false

str_lt_asymm : (a b : Bytes) → str_lt a b ≡ true → str_lt b a ≡ false
unfolding str_lt
str_lt_asymm [] [] h = refl
str_lt_asymm [] (y ∷ ys) h = refl
str_lt_asymm (x ∷ xs) [] h = cc
str_lt_asymm (x ∷ xs) (y ∷ ys) h = ground (arith, str_lt_asymm xs ys)

str_lt_negtrans : (a b c : Bytes) → str_lt a b ≡ false → str_lt b c ≡ false → str_lt a c ≡ false
unfolding str_lt
str_lt_negtrans [] [] c h k = k
str_lt_negtrans [] (y ∷ ys) c h k = cc
str_lt_negtrans (x ∷ xs) b [] h k = refl
str_lt_negtrans (x ∷ xs) [] (z ∷ zs) h k = cc
str_lt_negtrans (x ∷ xs) (y ∷ ys) (z ∷ zs) h k = ground (arith, str_lt_negtrans xs ys zs)

module _ (usage in_flight : Bytes → ℤ) where
  pub less-IsOrder : IsOrder (less usage in_flight)
  unfolding less
  less-IsOrder = record {
    asymm = λ a b h. ground (arith, str_lt_asymm a.id b.id);
    negtrans = λ a b c h k. ground (arith, str_lt_negtrans a.id b.id c.id);
  }

module _ {A : Type 0} (lt : A → A → Bool) (o : IsOrder lt) where
  irrefl : (a : A) → lt a a ≡ false
  irrefl a = elim (Bool-cases (lt a a)) [ inl e ↦ o.asymm a a e | inr e ↦ e ]

  -- The first element is one of `xs`, and none of `xs` is less than it.
  abbrev pub HeadLeast : List A → List A → Type 0
  HeadLeast xs [] = ⊥
  HeadLeast xs (y ∷ ys) = In y xs × ((a : A) → In a xs → lt a y ≡ false)

  insert-HeadLeast :
      (x : A) (xs s : List A) → HeadLeast xs s → HeadLeast (x ∷ xs) (insert_stable lt x s)
  unfolding insert_stable
  insert-HeadLeast x xs [] h = absurd h
  insert-HeadLeast x xs (y ∷ ys) (m, least) = elim (Bool-cases (lt y x)) [
    | inl e ↦ rw e (inr m, λ a. elim [ inl p ↦ rw p (o.asymm y x e) | inr i ↦ least a i ])
    | inr e ↦
        rw e
          (inl refl, λ a. elim [ inl p ↦ rw p (irrefl x) | inr i ↦ o.negtrans a y x (least a i) e ])
  ]

  pub sort-HeadLeast : (x : A) (xs : List A) → HeadLeast (x ∷ xs) (sort_stable lt (x ∷ xs))
  unfolding sort_stable insert_stable
  sort-HeadLeast x [] = (inl refl, λ a. elim [ inl p ↦ rw p (irrefl x) | inr i ↦ absurd i ])
  sort-HeadLeast x (z ∷ zs) =
      insert-HeadLeast x (z ∷ zs) (sort_stable lt (z ∷ zs)) (sort-HeadLeast z zs)
