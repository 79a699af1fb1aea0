-- ===== src/Config/Text.antt =====
-- The text functions of internal/config/yaml.go.
use code_agent_router.Prelude.{
  refl, some, none, true, false, [], ◌∷◌, ℕ, Bool, if◌then◌else◌, Option, List, ◌≡◌, ◌==◌, not,
  ◌||◌, ◌&&◌, suc,
}
use code_agent_router.Prelude.Int.{pos, ℤ, ◌+ℤ◌, ◌-ℤ◌, negsuc}
use code_agent_router.Text.{trim_space, Bytes, codes}
use code_agent_router.Auth.Password.{extend}

-- Where a scan of a text stands: the quote that is open, 0 if none is, and the depth of brackets,
-- which closing brackets may take below zero.
pub record Scan : Type 0 where
  pub quote : ℕ
  pub depth : ℤ

abbrev pub scan_start : Scan
scan_start = record { quote = 0; depth = pos 0 }

unfoldable pub is_quote : ℕ → Bool
is_quote c = c == 34 || c == 39

unfoldable pub is_opening : ℕ → Bool
is_opening c = c == 123 || c == 91

unfoldable pub is_closing : ℕ → Bool
is_closing c = c == 125 || c == 93

unfoldable pub scan_step : ℕ → Scan → Scan
unfolding is_quote is_opening is_closing
scan_step c st =
    if not (st.quote == 0)
    then (if c == st.quote then record st { quote = 0 } else st)
    else if is_quote c
    then record st { quote = c }
    else if is_opening c
    then record st { depth = st.depth +ℤ pos 1 }
    else if is_closing c
    then record st { depth = st.depth -ℤ pos 1 }
    else st

unfoldable pub at_depth_zero : ℤ → Bool
at_depth_zero (pos n) = n == 0
at_depth_zero (negsuc n) = false

-- A separator outside quotes and brackets.
unfoldable pub cuts : (sep c : ℕ) → Scan → Bool
unfolding at_depth_zero
cuts sep c st = st.quote == 0 && (c == sep && at_depth_zero st.depth)

-- The loop of `splitKeyValue`: what stands before and after the first separator.
unfoldable pub cut_first : (sep : ℕ) → Scan → Bytes → Option (Bytes × Bytes)
unfolding cuts scan_step
cut_first sep st [] = none
cut_first sep st (c ∷ s) =
    let rest : Option (Bytes × Bytes) = cut_first sep (scan_step c st) s in
    if cuts sep c st
    then some ([], s)
    else elim rest [ none ↦ none | some (before, after) ↦ some (c ∷ before, after) ]

-- `splitKeyValue`
unfoldable pub split_key_value : Bytes → Option (Bytes × Bytes)
unfolding cut_first trim_space
split_key_value s = elim (cut_first 58 scan_start s) [
  | none ↦ none
  | some (key, value) ↦ some (trim_space key, trim_space value)
]

-- `splitTopLevel`
unfoldable pub split_from : (sep : ℕ) → Scan → Bytes → List Bytes
unfolding cuts scan_step extend
split_from sep st [] = [] ∷ []
split_from sep st (c ∷ s) =
    let at_cut : List Bytes = split_from sep st s in
    let past : List Bytes = split_from sep (scan_step c st) s in
    if cuts sep c st then [] ∷ at_cut else extend c past

unfoldable pub split_top_level : Bytes → (sep : ℕ) → List Bytes
unfolding split_from
split_top_level s sep = split_from sep scan_start s

-- `stripComment`; `blank` tells whether a comment may begin here.
unfoldable pub strip_from : (quote : ℕ) → (blank : Bool) → Bytes → Bytes
unfolding is_quote
strip_from quote blank [] = []
strip_from quote blank (c ∷ s) =
    let inside : Bytes = strip_from (if c == quote then 0 else quote) false s in
    let opened : Bytes = strip_from c false s in
    let plain : Bytes = strip_from 0 (c == 32 || c == 9) s in
    if not (quote == 0)
    then c ∷ inside
    else if is_quote c
    then c ∷ opened
    else if c == 35 && blank
    then []
    else c ∷ plain

unfoldable pub strip_comment : Bytes → Bytes
unfolding strip_from
strip_comment line = strip_from 0 true line

-- `countIndent`, and the line without its leading spaces.
unfoldable pub count_indent : Bytes → ℕ
count_indent [] = 0
count_indent (c ∷ s) = if c == 32 then suc (count_indent s) else 0

unfoldable pub drop_spaces : Bytes → Bytes
drop_spaces [] = []
drop_spaces (c ∷ s) = if c == 32 then drop_spaces s else c ∷ s

unfoldable pub has_tab : Bytes → Bool
has_tab [] = false
has_tab (c ∷ s) = c == 9 || has_tab s

split_test : split_top_level (codes "a: [1,2], 'b,c'") 44 ≡ codes "a: [1,2]" ∷ codes " 'b,c'" ∷ []
unfolding split_top_level ◌+ℤ◌ ◌-ℤ◌
split_test = refl

comment_test : strip_comment (codes "k: 'a # b' # c") ≡ codes "k: 'a # b' "
unfolding strip_comment
comment_test = refl
