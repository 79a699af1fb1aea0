-- ===== src/Store/Links.antt =====
-- How the maps of the state in internal/store/state.go refer to each other, and what inserting into
-- them and deleting from them keeps.
use code_agent_router.Prelude.{
  ◌≡◌, ◌⊎◌, inl, inr, refl, subst, ap, sym, ◌∙◌, Bool, if◌then◌else◌, Bool-cases, [], false, Option,
  none, some, arith,
}
use code_agent_router.Text.{Bytes, str_eq, str_eq_iff, to_lower}
use code_agent_router.Map.{
  Map, IsMap, lookup, insert, erase, erase_where, lookup-insert, lookup-erase, lookup-erase_where,
  insert-IsMap, erase-IsMap, erase_where-IsMap,
}
use code_agent_router.Model.{User, UpstreamKey}

module _ {V : Type 0} where
  inserted :
      (j k : Bytes) (v w : V) (m : Map V)
      → lookup j (insert k v m) ≡ some w
      → ((k ≡ j) × (v ≡ w)) ⊎ (lookup j m ≡ some w)
  inserted j k v w m h = elim (Bool-cases (str_eq k j)) [
    | inl e ↦ inl ((str_eq_iff k j).0 e, ground (arith, lookup-insert j k v m))
    | inr e ↦ inr (ground (arith, lookup-insert j k v m))
  ]

  kept :
      (j k : Bytes) (w : V) (m : Map V)
      → lookup j (erase k m) ≡ some w
      → (str_eq k j ≡ false) × (lookup j m ≡ some w)
  kept j k w m h = ground (arith, lookup-erase j k m)

  passes_over :
      (p : V → Bool) (w : V) (o : Option V)
      → (elim o as (λ _. Option V) [ none ↦ none | some v ↦ if p v then none else some v ]) ≡ some w
      → (p w ≡ false) × (o ≡ some w)
  passes_over p w none h = cc
  passes_over p w (some v) h = elim (Bool-cases (p v)) [
    | inl e ↦ cc
    | inr e ↦ (ground arith, ground arith)
  ]

  kept_where :
      (p : V → Bool) (j : Bytes) (w : V) (m : Map V)
      → IsMap m
      → lookup j (erase_where p m) ≡ some w
      → (p w ≡ false) × (lookup j m ≡ some w)
  kept_where p j w m n h = passes_over p w (lookup j m) (sym (lookup-erase_where p j m n) ∙ h)

abbrev pub HasUser : Map User → Bytes → Type 0
HasUser users id = (u : User) × (lookup id users ≡ some u)

-- No key is listed twice, no two users have names that differ in case only, a user and an upstream key are filed under their own identifiers, and
-- access keys and upstream keys belong to users that are there.
pub record Links (users : Map User) (access_keys : Map Bytes) (keys : Map UpstreamKey)
    : Type 0 where
  pub users_map : IsMap users
  pub access_map : IsMap access_keys
  pub keys_map : IsMap keys
  pub distinct :
      (i j : Bytes) (u v : User)
      → lookup i users ≡ some u
      → lookup j users ≡ some v
      → to_lower u.username ≡ to_lower v.username
      → i ≡ j
  pub user_filed : (i : Bytes) (u : User) → lookup i users ≡ some u → u.id ≡ i
  pub key_filed : (i : Bytes) (k : UpstreamKey) → lookup i keys ≡ some k → k.id ≡ i
  pub access_owned : (a i : Bytes) → lookup a access_keys ≡ some i → HasUser users i
  pub key_owned : (i : Bytes) (k : UpstreamKey) → lookup i keys ≡ some k → HasUser users k.user_id

HasUser-insert :
    (users : Map User) (i : Bytes) (u : User) (j : Bytes)
    → HasUser users j
    → HasUser (insert i u users) j
HasUser-insert users i u j (v, h) = elim (Bool-cases (str_eq i j)) [
  | inl e ↦ (u, rw (lookup-insert j i u users, e) refl)
  | inr e ↦ (v, rw (lookup-insert j i u users, e) h)
]

HasUser-erase :
    (users : Map User) (i j : Bytes)
    → str_eq j i ≡ false
    → HasUser users j
    → HasUser (erase i users) j
HasUser-erase users i j e (v, h) =
    (v, ground (arith, str_eq_iff i j, str_eq_iff j i, lookup-erase j i users))

module _ (users : Map User) (access_keys : Map Bytes) (keys : Map UpstreamKey)
    (links : Links users access_keys keys) where
  -- A user whose name no other user has may be put in.
  pub user-Links :
      (u : User)
      → ((j : Bytes) (v : User)
          → lookup j users ≡ some v
          → to_lower v.username ≡ to_lower u.username
          → j ≡ u.id)
      → Links (insert u.id u users) access_keys keys
  user-Links u own_name = record {
    users_map = insert-IsMap u.id u users links.users_map;
    access_map = links.access_map;
    keys_map = links.keys_map;
    distinct = λ i j v w hi hj e. elim (inserted i u.id u v users hi) [
      | inl (p, q) ↦ elim (inserted j u.id u w users hj) [
        | inl (p', q') ↦ sym p ∙ p'
        | inr hj' ↦ sym p ∙ sym (own_name j w hj' (sym e ∙ ap (λ x. to_lower x.username) (sym q)))
      ]
      | inr hi' ↦ elim (inserted j u.id u w users hj) [
        | inl (p', q') ↦ own_name i v hi' (e ∙ ap (λ x. to_lower x.username) (sym q')) ∙ p'
        | inr hj' ↦ links.distinct i j v w hi' hj' e
      ]
    ];
    user_filed = λ i v h. elim (inserted i u.id u v users h) [
      | inl (p, q) ↦ ap (λ x. x.id) (sym q) ∙ p
      | inr h' ↦ links.user_filed i v h'
    ];
    key_filed = links.key_filed;
    access_owned = λ a i h. HasUser-insert users u.id u i (links.access_owned a i h);
    key_owned = λ i k h. HasUser-insert users u.id u k.user_id (links.key_owned i k h);
  }

  pub access-Links : (a id : Bytes) → HasUser users id → Links users (insert a id access_keys) keys
  access-Links a id has = record {
    users_map = links.users_map;
    access_map = insert-IsMap a id access_keys links.access_map;
    keys_map = links.keys_map;
    distinct = links.distinct;
    user_filed = links.user_filed;
    key_filed = links.key_filed;
    access_owned = λ b i h. elim (inserted b a id i access_keys h) [
      | inl (p, q) ↦ subst (HasUser users) q has
      | inr h' ↦ links.access_owned b i h'
    ];
    key_owned = links.key_owned;
  }

  pub erase_access-Links : (a : Bytes) → Links users (erase a access_keys) keys
  erase_access-Links a = record {
    users_map = links.users_map;
    access_map = erase-IsMap a access_keys links.access_map;
    keys_map = links.keys_map;
    distinct = links.distinct;
    user_filed = links.user_filed;
    key_filed = links.key_filed;
    access_owned = λ b i h. links.access_owned b i (kept b a i access_keys h).1;
    key_owned = links.key_owned;
  }

  pub key-Links :
      (k : UpstreamKey) → HasUser users k.user_id → Links users access_keys (insert k.id k keys)
  key-Links k has = record {
    users_map = links.users_map;
    access_map = links.access_map;
    keys_map = insert-IsMap k.id k keys links.keys_map;
    distinct = links.distinct;
    user_filed = links.user_filed;
    key_filed = λ i c h. elim (inserted i k.id k c keys h) [
      | inl (p, q) ↦ ap (λ x. x.id) (sym q) ∙ p
      | inr h' ↦ links.key_filed i c h'
    ];
    access_owned = links.access_owned;
    key_owned = λ i c h. elim (inserted i k.id k c keys h) [
      | inl (p, q) ↦ subst (λ x. HasUser users x.user_id) q has
      | inr h' ↦ links.key_owned i c h'
    ];
  }

  pub erase_key-Links : (id : Bytes) → Links users access_keys (erase id keys)
  erase_key-Links id = record {
    users_map = links.users_map;
    access_map = links.access_map;
    keys_map = erase-IsMap id keys links.keys_map;
    distinct = links.distinct;
    user_filed = links.user_filed;
    key_filed = λ i c h. links.key_filed i c (kept i id c keys h).1;
    access_owned = links.access_owned;
    key_owned = λ i c h. links.key_owned i c (kept i id c keys h).1;
  }

  -- A user goes with all that belongs to it.
  pub without-Links :
      (id : Bytes)
      → Links
          (erase id users)
          (erase_where (λ uid. str_eq uid id) access_keys)
          (erase_where (λ (k : UpstreamKey). str_eq k.user_id id) keys)
  without-Links id = record {
    users_map = erase-IsMap id users links.users_map;
    access_map = erase_where-IsMap _ access_keys links.access_map;
    keys_map = erase_where-IsMap _ keys links.keys_map;
    distinct = λ i j u v hi hj e.
        links.distinct i j u v (kept i id u users hi).1 (kept j id v users hj).1 e;
    user_filed = λ i u h. links.user_filed i u (kept i id u users h).1;
    key_filed = λ i k h. links.key_filed i k (kept_where _ i k keys links.keys_map h).1;
    access_owned = λ a i h.
        let (e, h') = kept_where _ a i access_keys links.access_map h in
        HasUser-erase users id i e (links.access_owned a i h');
    key_owned = λ i k h.
        let (e, h') = kept_where _ i k keys links.keys_map h in
        HasUser-erase users id k.user_id e (links.key_owned i k h');
  }

-- A state without users and keys.
pub fresh-Links : Links [] [] []
unfolding lookup
fresh-Links = record {
  users_map = tt;
  access_map = tt;
  keys_map = tt;
  distinct = λ i j u v h k e. cc;
  user_filed = λ i u h. cc;
  key_filed = λ i k h. cc;
  access_owned = λ a i h. cc;
  key_owned = λ i k h. cc;
}
