-- ===== src/Map.antt =====
-- Go maps with string keys, as association lists. `range` visits the entries in the list's order,
-- which stands for the order that Go leaves open; `IsMap` says that no key is listed twice.
use code_agent_router.Prelude.{
  ◌≡◌, refl, inl, inr, Bool, Option, none, some, List, [], ◌∷◌, arith, if◌then◌else◌, In,
  Bool-cases,
}
use code_agent_router.Text.{Bytes, str_eq, str_eq_iff}

abbrev pub Map {ℓ} : Type ℓ → Type ℓ
Map V = List (Bytes × V)

module _ {ℓ} {V : Type ℓ} where
  -- `v, ok := m[k]`
  unfoldable pub lookup : Bytes → Map V → Option V
  lookup k [] = none
  lookup k ((j, v) ∷ m) = if str_eq j k then some v else lookup k m

  -- `m[k] = v`
  unfoldable pub insert : Bytes → V → Map V → Map V
  insert k v [] = (k, v) ∷ []
  insert k v ((j, w) ∷ m) = if str_eq j k then (k, v) ∷ m else (j, w) ∷ insert k v m

  -- `delete(m, k)`
  unfoldable pub erase : Bytes → Map V → Map V
  erase k [] = []
  erase k ((j, w) ∷ m) = if str_eq j k then erase k m else (j, w) ∷ erase k m

  -- `for k, v := range m { if p(v) { delete(m, k) } }`
  unfoldable pub erase_where : (V → Bool) → Map V → Map V
  erase_where p [] = []
  erase_where p ((j, w) ∷ m) = if p w then erase_where p m else (j, w) ∷ erase_where p m

  -- `for _, k := range ks { delete(m, k) }`
  unfoldable pub erase_all : List Bytes → Map V → Map V
  unfolding erase
  erase_all [] m = m
  erase_all (k ∷ ks) m = erase_all ks (erase k m)

  -- The keys whose values pass a test.
  unfoldable pub keys_where : (V → Bool) → Map V → List Bytes
  keys_where p [] = []
  keys_where p ((j, w) ∷ m) = if p w then j ∷ keys_where p m else keys_where p m

  -- `for _, v := range m`
  unfoldable pub values : Map V → List V
  values [] = []
  values ((j, w) ∷ m) = w ∷ values m

  abbrev pub IsMap : Map V → Type ℓ
  IsMap [] = Unit
  IsMap ((j, w) ∷ m) = (lookup j m ≡ none) × IsMap m

  pub lookup-insert :
      (j k : Bytes) (v : V) (m : Map V)
      → lookup j (insert k v m) ≡ (if str_eq k j then some v else lookup j m)
  unfolding lookup insert
  lookup-insert j k v [] = refl
  lookup-insert j k v ((i, w) ∷ m) =
      ground (arith, str_eq_iff k j, str_eq_iff i k, str_eq_iff i j, lookup-insert j k v m)

  pub lookup-erase :
      (j k : Bytes) (m : Map V) → lookup j (erase k m) ≡ (if str_eq k j then none else lookup j m)
  unfolding lookup erase
  lookup-erase j k [] = ground arith
  lookup-erase j k ((i, w) ∷ m) =
      ground (arith, str_eq_iff k j, str_eq_iff i k, str_eq_iff i j, lookup-erase j k m)

  pub insert-IsMap : (k : Bytes) (v : V) (m : Map V) → IsMap m → IsMap (insert k v m)
  unfolding insert lookup
  insert-IsMap k v [] h = (refl, tt)
  insert-IsMap k v ((i, w) ∷ m) h =
      ground (arith, str_eq_iff i k, str_eq_iff k i, lookup-insert i k v m, insert-IsMap k v m h.1)

  pub erase-IsMap : (k : Bytes) (m : Map V) → IsMap m → IsMap (erase k m)
  unfolding erase lookup
  erase-IsMap k [] h = tt
  erase-IsMap k ((i, w) ∷ m) h =
      ground (arith, str_eq_iff i k, str_eq_iff k i, lookup-erase i k m, erase-IsMap k m h.1)

  -- A key that the loop leaves alone keeps its value, a key that it meets is gone.
  pub lookup-erase_where :
      (p : V → Bool) (j : Bytes) (m : Map V)
      → IsMap m
      → lookup j (erase_where p m)
        ≡ elim (lookup j m) [ none ↦ none | some v ↦ if p v then none else some v ]
  unfolding lookup erase_where
  lookup-erase_where p j [] h = refl
  lookup-erase_where p j ((i, w) ∷ m) h =
      ground (arith, str_eq_iff i j, lookup-erase_where p j m h.1)

  pub erase_where-IsMap : (p : V → Bool) (m : Map V) → IsMap m → IsMap (erase_where p m)
  unfolding erase_where
  erase_where-IsMap p [] h = tt
  erase_where-IsMap p ((i, w) ∷ m) h =
      ground (arith, lookup-erase_where p i m h.1, erase_where-IsMap p m h.1)

  pub erase_all-IsMap : (ks : List Bytes) (m : Map V) → IsMap m → IsMap (erase_all ks m)
  unfolding erase_all
  erase_all-IsMap [] m h = h
  erase_all-IsMap (k ∷ ks) m h = erase_all-IsMap ks (erase k m) (erase-IsMap k m h)

  -- What `erase_all` leaves was there before.
  pub lookup-erase_all-some :
      (j : Bytes) (ks : List Bytes) (m : Map V) {v : V}
      → lookup j (erase_all ks m) ≡ some v
      → lookup j m ≡ some v
  unfolding erase_all
  lookup-erase_all-some j [] m h = h
  lookup-erase_all-some j (k ∷ ks) m h =
      ground (arith, lookup-erase j k m, lookup-erase_all-some j ks (erase k m) h)

module _ {V : Type 0} where
  -- A value that is found is among those that `range` visits.
  pub lookup-In : (k : Bytes) (v : V) (m : Map V) → lookup k m ≡ some v → In v (values m)
  unfolding lookup values
  lookup-In k v [] h = cc
  lookup-In k v ((i, w) ∷ m) h = elim (Bool-cases (str_eq i k)) [
    | inl e ↦ inl (ground arith)
    | inr e ↦ inr (lookup-In k v m (ground arith))
  ]
