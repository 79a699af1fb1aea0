-- ===== src/Report/Glob.antt =====
-- `Match` of Go's path/filepath, as `buildReport` of internal/report/report.go uses it through `Glob`:
-- a pattern against the names of one directory. A character is a byte here, as it is in the names of
-- the log files, which are ASCII.
use code_agent_router.Prelude.{
  ℕ, Bool, true, false, not, ◌&&◌, ◌||◌, ◌==◌, leb, Option, none, some, List, [], ◌∷◌,
  if◌then◌else◌,
}
use code_agent_router.Text.{Bytes}

-- What a pattern is made of: `*`, `?`, a character, and `[` with its ranges, negated after `^`.
pub data Item : Type 0 where
  star any : Item
  lit : (b : ℕ) → Item
  class : (negated : Bool) → (ranges : List (ℕ × ℕ)) → Item

-- Where in a pattern its reader is: outside of a class or after a `\` there; after `[`; where a range
-- may begin, with the ranges so far, and after a `\` there; after the low end of a range; and where
-- its high end must follow, and after a `\` there.
pub data Mode : Type 0 where
  outside escaped opened : Mode
  member member_escaped : (negated : Bool) → (ranges : List (ℕ × ℕ)) → Mode
  low high high_escaped : (negated : Bool) → (ranges : List (ℕ × ℕ)) → (lo : ℕ) → Mode

-- The bytes `*`, `?`, `[`, `\`, `]`, `^`, `-` and `/`.
abbrev asterisk : ℕ
asterisk = 42

abbrev question : ℕ
question = 63

abbrev bracket : ℕ
bracket = 91

abbrev backslash : ℕ
backslash = 92

abbrev closing : ℕ
closing = 93

abbrev caret : ℕ
caret = 94

abbrev dash : ℕ
dash = 45

abbrev slash : ℕ
slash = 47

-- What a character of a pattern does: nothing that is allowed, or the mode that follows and the item
-- that it ends, if it does.
abbrev Step : Type 0
Step = Option (Mode × Option Item)

unfoldable pub has_ranges : List (ℕ × ℕ) → Bool
has_ranges [] = false
has_ranges (r ∷ rs) = true

unfoldable pub on_member : (negated : Bool) → List (ℕ × ℕ) → (c : ℕ) → Step
unfolding has_ranges
on_member n rs c =
    if c == closing && has_ranges rs
    then some (outside, some (class n rs))
    else if c == closing || c == dash
    then none
    else if c == backslash
    then some (member_escaped n rs, none)
    else some (low n rs c, none)

unfoldable pub on_high : (negated : Bool) → List (ℕ × ℕ) → (lo c : ℕ) → Step
on_high n rs lo c =
    if c == closing || c == dash
    then none
    else if c == backslash
    then some (high_escaped n rs lo, none)
    else some (member n ((lo, c) ∷ rs), none)

unfoldable pub on_outside : (c : ℕ) → Step
on_outside c =
    if c == asterisk
    then some (outside, some star)
    else if c == question
    then some (outside, some any)
    else if c == bracket
    then some (opened, none)
    else if c == backslash
    then some (escaped, none)
    else some (outside, some (lit c))

unfoldable pub read_char : Mode → (c : ℕ) → Step
unfolding on_member on_high on_outside
read_char outside c = on_outside c
read_char escaped c = some (outside, some (lit c))
read_char opened c = if c == caret then some (member true [], none) else on_member false [] c
read_char (member n rs) c = on_member n rs c
read_char (member_escaped n rs) c = some (low n rs c, none)
read_char (low n rs lo) c =
    if c == dash then some (high n rs lo, none) else on_member n ((lo, lo) ∷ rs) c
read_char (high n rs lo) c = on_high n rs lo c
read_char (high_escaped n rs lo) c = some (member n ((lo, c) ∷ rs), none)

abbrev pub and_item : Option Item → Option (List Item) → Option (List Item)
and_item i none = none
and_item none (some is) = some is
and_item (some i) (some is) = some (i ∷ is)

-- The items of a pattern; `none` is `ErrBadPattern`.
unfoldable pub parse : Mode → Bytes → Option (List Item)
unfolding read_char
parse outside [] = some []
parse m [] = none
parse m (c ∷ cs) = elim (read_char m c) [ none ↦ none | some (m', i) ↦ and_item i (parse m' cs) ]

unfoldable pub in_ranges : (c : ℕ) → List (ℕ × ℕ) → Bool
in_ranges c [] = false
in_ranges c ((lo, hi) ∷ rs) = leb lo c && leb c hi || in_ranges c rs

-- A `*`, and then `rest`.
unfoldable pub star_then : (rest : Bytes → Bool) → Bytes → Bool
star_then rest [] = rest []
star_then rest (c ∷ cs) = rest (c ∷ cs) || not (c == slash) && star_then rest cs

unfoldable pub fits : List Item → (name : Bytes) → Bool
unfolding in_ranges star_then
fits [] [] = true
fits [] (c ∷ cs) = false
fits (star ∷ is) cs = star_then (fits is) cs
fits (i ∷ is) [] = false
fits (any ∷ is) (c ∷ cs) = not (c == slash) && fits is cs
fits (lit b ∷ is) (c ∷ cs) = c == b && fits is cs
fits (class true rs ∷ is) (c ∷ cs) = not (in_ranges c rs) && fits is cs
fits (class false rs ∷ is) (c ∷ cs) = in_ranges c rs && fits is cs
