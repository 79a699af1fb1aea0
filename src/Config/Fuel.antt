-- ===== src/Config/Fuel.antt =====
-- The recursion of `parseScalar` of internal/config/yaml.go ends: each nested text is shorter.
use mathlib.Core.List.{reverse, reverse-cons}
use code_agent_router.Prelude.{
  refl, inl, inr, some, true, [], ◌∷◌, arith, ℕ, length, List, ◌≤◌, take, drop, All, suc,
  Bool-cases, ◌≡◌, zero, ◌-◌, ◌<◌, none, Option, subst, Option-cases, ◌≢◌, ap, if◌then◌else◌, ◌∙◌,
  length-append,
}
use code_agent_router.Text.{Bytes, trim_left, trim_space}
use code_agent_router.Config.Yaml.{
  is_between, inner, Heap, map_parts, list_parts, new_node, scalar_of, parse_scalar, Parsed, Node,
  out_of_fuel, parsed, map_node, list_node, malformed, scalar, is_quoted, alloc,
}
use code_agent_router.Auth.Password.{extend}
use code_agent_router.Config.Text.{
  split_from, cut_first, Scan, cuts, scan_step, split_key_value, split_top_level, scan_start,
}
use code_agent_router.Relay.Usage.{has_prefix}
use code_agent_router.Map.{Map, insert}

trim_left-le : (s : Bytes) → length (trim_left s) ≤ length s
unfolding trim_left
trim_left-le [] = omega arith
trim_left-le (c ∷ s) = ground (arith, trim_left-le s)

length-reverse : (s : Bytes) → length (reverse s) ≡ length s
length-reverse [] = refl
length-reverse (x ∷ s) =
    ap length (reverse-cons x s)
    ∙ omega (arith, length-append (reverse s) (x ∷ []), length-reverse s)

trim_space-le : (s : Bytes) → length (trim_space s) ≤ length s
unfolding trim_space
trim_space-le s = omega (
  arith,
  length-reverse (trim_left (reverse (trim_left s))),
  trim_left-le (reverse (trim_left s)),
  length-reverse (trim_left s),
  trim_left-le s,
)

length-take-le : (n : ℕ) (s : Bytes) → length (take n s) ≤ n
length-take-le zero s = omega arith
length-take-le (suc n) [] = omega arith
length-take-le (suc n) (c ∷ s) = omega (arith, length-take-le n s)

drop_one-le : (s : Bytes) → length (drop 1 s) ≤ length s - 1
drop_one-le [] = omega arith
drop_one-le (c ∷ s) = omega arith

inner-lt : (c d : ℕ) (s : Bytes) → is_between c d s ≡ true → length (inner s) < length s
unfolding is_between has_prefix inner
inner-lt c d [] h = absurd (ground arith)
inner-lt c d (x ∷ s) h = omega (
  arith,
  drop_one-le (take (length (x ∷ s) - 1) (x ∷ s)),
  length-take-le (length (x ∷ s) - 1) (x ∷ s),
)

-- The parts of a text are no longer than it.
abbrev Shorter : ℕ → List Bytes → Type 0
Shorter n = All (λ p. length p ≤ n)

extend-Shorter : (n c : ℕ) (ws : List Bytes) → Shorter n ws → Shorter (suc n) (extend c ws)
unfolding extend
extend-Shorter n c [] h = (omega arith, tt)
extend-Shorter n c (w ∷ ws) (p, h) = (omega arith, weaken ws h)
  where
    weaken : (ws : List Bytes) → Shorter n ws → Shorter (suc n) ws
    weaken [] h = tt
    weaken (w ∷ ws) (p, h) = (omega arith, weaken ws h)

Shorter-suc : (n : ℕ) (ws : List Bytes) → Shorter n ws → Shorter (suc n) ws
Shorter-suc n [] h = tt
Shorter-suc n (w ∷ ws) (p, h) = (omega arith, Shorter-suc n ws h)

split_from-Shorter : (sep : ℕ) (st : Scan) (s : Bytes) → Shorter (length s) (split_from sep st s)
unfolding split_from
split_from-Shorter sep st [] = (omega arith, tt)
split_from-Shorter sep st (c ∷ s) = elim (Bool-cases (cuts sep c st)) [
  | inl e ↦ rw (split_from, e) (omega arith, Shorter-suc _ _ (split_from-Shorter sep st s))
  | inr e ↦ rw (split_from, e) (extend-Shorter _ c _ (split_from-Shorter sep (scan_step c st) s))
]

cut_first-le :
    (sep : ℕ) (st : Scan) (s : Bytes) {p : Bytes × Bytes}
    → cut_first sep st s ≡ some p
    → length p.1 ≤ length s
unfolding cut_first
cut_first-le sep st [] h = absurd (ground arith)
cut_first-le sep st (c ∷ s) h = elim (Bool-cases (cuts sep c st)) [
  | inl e ↦ let q = rw (cut_first, e) at h in subst (λ o. after o ≤ length (c ∷ s)) q (omega arith)
  | inr e ↦ elim (Option-cases (cut_first sep (scan_step c st) s)) [
    | inl q ↦ let z = rw (cut_first, e, q) at h in absurd (ground arith)
    | inr (p, q) ↦
        let r = cut_first-le sep (scan_step c st) s q in
        subst (λ o. after o ≤ length (c ∷ s)) (rw (cut_first, e, q) at h) (omega arith)
  ]
]
  where
    after : Option (Bytes × Bytes) → ℕ
    after none = 0
    after (some p) = length p.1

split_key_value-le :
    (s : Bytes) {p : Bytes × Bytes} → split_key_value s ≡ some p → length p.1 ≤ length s
unfolding split_key_value
split_key_value-le s h = elim (Option-cases (cut_first 58 scan_start s)) [
  | inl q ↦ let z = rw (split_key_value, q) at h in absurd (ground arith)
  | inr (p, q) ↦
      let r = cut_first-le 58 scan_start s q in
      subst (λ o. after o ≤ length s) (rw (split_key_value, q) at h)
        (omega (arith, trim_space-le p.1))
]
  where
    after : Option (Bytes × Bytes) → ℕ
    after none = 0
    after (some p) = length p.1

-- A parser that has fuel for the texts up to a length.
abbrev Serves : ℕ → (Bytes → Heap → Parsed ℕ) → Type 0
Serves n parse = (s : Bytes) (h : Heap) → length s ≤ n → parse s h ≢ out_of_fuel

map_parts-fuel :
    (n : ℕ) (parse : Bytes → Heap → Parsed ℕ) (parts : List Bytes) (m : Map ℕ) (h : Heap)
    → Serves n parse
    → Shorter n parts
    → map_parts parse parts m h ≢ out_of_fuel
unfolding map_parts
map_parts-fuel n parse [] m h d k = λ e. ground arith
map_parts-fuel n parse (part ∷ parts) m h d (p, k) =
    elim (Option-cases (split_key_value (trim_space part))) [
      | inl q ↦ rw (map_parts, q) (λ e. ground arith)
      | inr ((key, value), q) ↦
          let short : length value ≤ n =
            omega (arith, split_key_value-le (trim_space part) q, trim_space-le part) in
          rw (map_parts, q)
            (go key (parse value h) (d value h short)
              (λ child h'. map_parts-fuel n parse parts (insert key child m) h' d k))
    ]
  where
    go :
        (key : Bytes) (o : Parsed ℕ)
        → o ≢ out_of_fuel
        → ((child : ℕ) (h' : Heap) → map_parts parse parts (insert key child m) h' ≢ out_of_fuel)
        → elim o [
          | malformed ↦ malformed
          | out_of_fuel ↦ out_of_fuel
          | parsed child h' ↦ map_parts parse parts (insert key child m) h'
        ]
          ≢ out_of_fuel
    go key malformed x y = λ e. ground arith
    go key out_of_fuel x y = absurd (x refl)
    go key (parsed child h') x y = y child h'

list_parts-fuel :
    (n : ℕ) (parse : Bytes → Heap → Parsed ℕ) (parts : List Bytes) (h : Heap)
    → Serves n parse
    → Shorter n parts
    → list_parts parse parts h ≢ out_of_fuel
unfolding list_parts
list_parts-fuel n parse [] h d k = λ e. ground arith
list_parts-fuel n parse (part ∷ parts) h d (p, k) =
    go (parse (trim_space part) h) (d (trim_space part) h (omega (arith, trim_space-le part)))
      (λ h'. list_parts-fuel n parse parts h' d k)
  where
    rest :
        (child : ℕ) (o : Parsed (List ℕ))
        → o ≢ out_of_fuel
        → elim o as (λ _. Parsed (List ℕ)) [
          | malformed ↦ malformed
          | out_of_fuel ↦ out_of_fuel
          | parsed children h'' ↦ parsed (child ∷ children) h''
        ]
          ≢ out_of_fuel
    rest child malformed x = λ e. ground arith
    rest child out_of_fuel x = absurd (x refl)
    rest child (parsed children h'') x = λ e. ground arith

    go :
        (o : Parsed ℕ)
        → o ≢ out_of_fuel
        → ((h' : Heap) → list_parts parse parts h' ≢ out_of_fuel)
        → elim o as (λ _. Parsed (List ℕ)) [
          | malformed ↦ malformed
          | out_of_fuel ↦ out_of_fuel
          | parsed child h' ↦ elim (list_parts parse parts h') as (λ _. Parsed (List ℕ)) [
            | malformed ↦ malformed
            | out_of_fuel ↦ out_of_fuel
            | parsed children h'' ↦ parsed (child ∷ children) h''
          ]
        ]
          ≢ out_of_fuel
    go malformed x y = λ e. ground arith
    go out_of_fuel x y = absurd (x refl)
    go (parsed child h') x y = rest child (list_parts parse parts h') (y h')

new_node-fuel :
    {A : Type 0} (f : A → Node) (o : Parsed A) → o ≢ out_of_fuel → new_node f o ≢ out_of_fuel
unfolding new_node
new_node-fuel f malformed x = λ e. ground arith
new_node-fuel f out_of_fuel x = absurd (x refl)
new_node-fuel f (parsed a h) x = λ e. ground arith

parts-Shorter : (n : ℕ) (s : Bytes) → length s ≤ n → Shorter n (split_top_level s 44)
unfolding split_top_level
parts-Shorter n s h = weaken _ (split_from-Shorter 44 scan_start s)
  where
    weaken : (ws : List Bytes) → Shorter (length s) ws → Shorter n ws
    weaken [] k = tt
    weaken (w ∷ ws) (p, k) = (omega arith, weaken ws k)

scalar_of-fuel :
    (n : ℕ) (parse : Bytes → Heap → Parsed ℕ) (s : Bytes) (h : Heap)
    → Serves n parse
    → length s ≤ suc n
    → scalar_of parse s h ≢ out_of_fuel
unfolding scalar_of
scalar_of-fuel n parse s h d k = elim (Bool-cases (is_between 123 125 s)) [
  | inl e ↦
      rw (scalar_of, e)
        (new_node-fuel map_node _ (
          map_parts-fuel n parse _ [] h d
            (parts-Shorter n (inner s) (omega (arith, inner-lt 123 125 s e)))))
  | inr e ↦ elim (Bool-cases (is_between 91 93 s)) [
    | inl q ↦
        rw (scalar_of, e, q)
          (new_node-fuel list_node _ (
            list_parts-fuel n parse _ h d
              (parts-Shorter n (inner s) (omega (arith, inner-lt 91 93 s q)))))
    | inr q ↦
        rw (scalar_of, e, q)
          (new_node-fuel scalar (parsed (if is_quoted s then inner s else s) h) (λ z. ground arith))
  ]
]

-- With one more fuel than the text has bytes `parseScalar` comes to an end, with a node or an error,
-- however deep brackets are nested in the text.
pub parse_scalar-ends :
    (fuel : ℕ) (s : Bytes) (h : Heap) → length s < fuel → parse_scalar fuel s h ≢ out_of_fuel
unfolding parse_scalar scalar_of new_node trim_space is_between is_quoted alloc trim_left
parse_scalar-ends zero s h k = absurd (omega arith)
parse_scalar-ends (suc zero) [] h k = λ e. ground arith
parse_scalar-ends (suc zero) (c ∷ s) h k = absurd (omega arith)
parse_scalar-ends (suc (suc fuel)) s h k =
    scalar_of-fuel fuel (parse_scalar (suc fuel)) (trim_space s) h
      (λ t g z. parse_scalar-ends (suc fuel) t g (omega arith)) (omega (arith, trim_space-le s))
