-- ===== src/Prelude/Lists.antt =====
-- Lists measured by native numbers, membership and universal statements by recursion.
use Prim.Native.Nat.{zero, ℕ, suc, ◌+◌, ◌≤◌, ◌<◌}
use mathlib.Core.Path.{◌≡◌, refl, sym, ap, ◌∙◌}
use mathlib.Core.Logic.{◌⊎◌, inl, inr}
use mathlib.Core.Bool.{Bool, true, false}
use mathlib.Core.List.{List, [], ◌∷◌, ◌++◌}
use native.Mathlib.Omega.{arith}
use code_agent_router.Prelude.Tests.{if◌then◌else◌, Bool-cases}

module _ {ℓ} {A : Type ℓ} where
  abbrev pub length : List A → ℕ
  length [] = 0
  length (x ∷ xs) = suc (length xs)

  pub length-append : (xs ys : List A) → length (xs ++ ys) ≡ length xs + length ys
  length-append [] ys = omega arith
  length-append (x ∷ xs) ys = omega (arith, length-append xs ys)

  -- The elements that pass a Boolean test, in order: the shape of Go's filtering loops.
  abbrev pub keep : (A → Bool) → List A → List A
  keep p [] = []
  keep p (x ∷ xs) = if p x then x ∷ keep p xs else keep p xs

  pub length-keep-le : (p : A → Bool) (xs : List A) → length (keep p xs) ≤ length xs
  length-keep-le p [] = omega arith
  length-keep-le p (x ∷ xs) = ground (arith, length-keep-le p xs)

  abbrev pub All {κ} : (A → Type κ) → List A → Type κ
  All P [] = Unit
  All P (x ∷ xs) = P x × All P xs

module _ {ℓ} {A : Type ℓ} where
  abbrev pub take : ℕ → List A → List A
  take zero xs = []
  take (suc n) [] = []
  take (suc n) (x ∷ xs) = x ∷ take n xs

  abbrev pub drop : ℕ → List A → List A
  drop zero xs = xs
  drop (suc n) [] = []
  drop (suc n) (x ∷ xs) = drop n xs

  pub take-append : (xs ys : List A) → take (length xs) (xs ++ ys) ≡ xs
  take-append [] ys = refl
  take-append (x ∷ xs) ys = ap (◌∷◌ x) (take-append xs ys)

  pub drop-append : (xs ys : List A) → drop (length xs) (xs ++ ys) ≡ ys
  drop-append [] ys = refl
  drop-append (x ∷ xs) ys = drop-append xs ys

-- Membership as a position, which the tactics take apart.
abbrev pub In : {A : Type 0} → A → List A → Type 0
In a [] = ⊥
In a (x ∷ xs) = (a ≡ x) ⊎ In a xs

In-keep_head :
    {A : Type 0} (p : A → Bool) (a x : A) (xs : List A)
    → p x ≡ true
    → (In a (keep p xs) → In a xs × (p a ≡ true))
    → (a ≡ x) ⊎ In a (keep p xs)
    → In a (x ∷ xs) × (p a ≡ true)
In-keep_head p a x xs e rest (inl i) = (inl i, ap p i ∙ e)
In-keep_head p a x xs e rest (inr i) = let (j, q) = rest i in (inr j, q)

-- The elements kept are those of the list that pass.
pub In-keep :
    {A : Type 0} (p : A → Bool) (a : A) (xs : List A) → In a (keep p xs) → In a xs × (p a ≡ true)
In-keep p a [] h = absurd h
In-keep p a (x ∷ xs) h = elim (Bool-cases (p x)) [
  | inl e ↦ In-keep_head p a x xs e (In-keep p a xs) (rw e at h)
  | inr e ↦ let (i, q) = In-keep p a xs (rw e at h) in (inr i, q)
]

pub keep-In :
    {A : Type 0} (p : A → Bool) (a : A) (xs : List A) → In a xs → p a ≡ true → In a (keep p xs)
keep-In p a [] h e = absurd h
keep-In p a (x ∷ xs) (inl i) e = rw (sym i, e) (inl refl)
keep-In p a (x ∷ xs) (inr i) e = elim (Bool-cases (p x)) [
  | inl q ↦ rw q (inr (keep-In p a xs i e))
  | inr q ↦ rw q (keep-In p a xs i e)
]

pub keep-append :
    {A : Type 0} (p : A → Bool) (xs ys : List A) → keep p (xs ++ ys) ≡ keep p xs ++ keep p ys
keep-append p [] ys = refl
keep-append p (x ∷ xs) ys = ground (arith, keep-append p xs ys)

module _ {A : Type 0} (p q : A → Bool) (implies : (x : A) → p x ≡ true → q x ≡ true) where
  -- A test that implies another may be applied alone.
  pub keep-keep : (xs : List A) → keep p (keep q xs) ≡ keep p xs
  keep-keep [] = refl
  keep-keep (x ∷ xs) = ground (arith, implies x, keep-keep xs)

  pub length-keep_mono : (xs : List A) → length (keep p xs) ≤ length (keep q xs)
  length-keep_mono [] = omega arith
  length-keep_mono (x ∷ xs) = ground (arith, implies x, length-keep_mono xs)

  pub length-keep-lt :
      (a : A) (xs : List A)
      → In a xs
      → q a ≡ true
      → p a ≡ false
      → length (keep p xs) < length (keep q xs)
  length-keep-lt a [] i e f = absurd i
  length-keep-lt a (x ∷ xs) (inl i) e f =
      let e' : q x ≡ true = rw (sym i) e in
      let f' : p x ≡ false = rw (sym i) f in rw (e', f') (omega (arith, length-keep_mono xs))
  length-keep-lt a (x ∷ xs) (inr i) e f = ground (arith, implies x, length-keep-lt a xs i e f)
