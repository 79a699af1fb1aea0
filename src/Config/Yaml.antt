-- ===== src/Config/Yaml.antt =====
-- The parser of internal/config/yaml.go. Nodes stand in a heap and are named by their place in it, as
-- the program's pointers do; an error carries no text.
use code_agent_router.Prelude.{
  some, none, true, false, [], ◌∷◌, List, ℕ, Bool, Option, suc, length, drop, leb, if◌then◌else◌,
  zero, ◌++◌, take, ◌&&◌, not, ◌-◌, ◌||◌,
}
use code_agent_router.Map.{Map, insert}
use code_agent_router.Text.{Bytes, trim_space, is_empty, str_eq, codes}
use code_agent_router.Config.Text.{
  split_key_value, split_top_level, strip_comment, has_tab, drop_spaces, count_indent,
}
use code_agent_router.Relay.Usage.{has_prefix}
use code_agent_router.Prelude.Int.{ℤ, negsuc, ltb_ℤ, pos}
use code_agent_router.Auth.Password.{split_at}
use mathlib.Core.List.{reverse}

pub data Kind : Type 0 where
  unknown_kind map_kind list_kind scalar_kind : Kind

-- `yNode`
pub record Node : Type 0 where
  pub kind : Kind
  pub m : Map ℕ
  pub l : List ℕ
  pub s : Bytes

abbrev pub Heap : Type 0
Heap = List Node

unfoldable pub node_at : Heap → ℕ → Option Node
node_at [] n = none
node_at (x ∷ xs) zero = some x
node_at (x ∷ xs) (suc n) = node_at xs n

unfoldable pub put_node : ℕ → Node → Heap → Heap
put_node n x [] = []
put_node zero x (y ∷ ys) = x ∷ ys
put_node (suc n) x (y ∷ ys) = y ∷ put_node n x ys

-- A new node; its place.
unfoldable pub alloc : Node → Heap → ℕ × Heap
alloc x h = (length h, h ++ x ∷ [])

abbrev pub scalar : Bytes → Node
scalar s = record { kind = scalar_kind; m = []; l = []; s = s }

abbrev pub map_node : Map ℕ → Node
map_node m = record { kind = map_kind; m = m; l = []; s = [] }

abbrev pub list_node : List ℕ → Node
list_node l = record { kind = list_kind; m = []; l = l; s = [] }

abbrev pub unknown : Node
unknown = record { kind = unknown_kind; m = []; l = []; s = [] }

-- What a parser gives: a value and the heap, an error, or nothing for want of fuel.
pub data Parsed (A : Type 0) : Type 0 where
  parsed : A → Heap → Parsed A
  malformed : Parsed A
  out_of_fuel : Parsed A

-- The loop of `parseInlineMap`.
unfoldable pub map_parts : (Bytes → Heap → Parsed ℕ) → List Bytes → Map ℕ → Heap → Parsed (Map ℕ)
unfolding split_key_value insert trim_space
map_parts parse [] m h = parsed m h
map_parts parse (part ∷ parts) m h = elim (split_key_value (trim_space part)) [
  | none ↦ malformed
  | some (key, value) ↦ elim (parse value h) [
    | malformed ↦ malformed
    | out_of_fuel ↦ out_of_fuel
    | parsed child h' ↦ map_parts parse parts (insert key child m) h'
  ]
]

-- The loop of `parseInlineList`.
unfoldable pub list_parts : (Bytes → Heap → Parsed ℕ) → List Bytes → Heap → Parsed (List ℕ)
unfolding trim_space
list_parts parse [] h = parsed [] h
list_parts parse (part ∷ parts) h = elim (parse (trim_space part) h) [
  | malformed ↦ malformed
  | out_of_fuel ↦ out_of_fuel
  | parsed child h' ↦ elim (list_parts parse parts h') [
    | malformed ↦ malformed
    | out_of_fuel ↦ out_of_fuel
    | parsed children h'' ↦ parsed (child ∷ children) h''
  ]
]

unfoldable pub new_node : {A : Type 0} → (A → Node) → Parsed A → Parsed ℕ
unfolding alloc
new_node f malformed = malformed
new_node f out_of_fuel = out_of_fuel
new_node f (parsed a h) = let (n, h') = alloc (f a) h in parsed n h'

-- `s[1 : len(s)-1]`
unfoldable pub inner : Bytes → Bytes
inner s = drop 1 (take (length s - 1) s)

-- `strings.HasSuffix`
unfoldable pub has_suffix : (suffix s : Bytes) → Bool
unfolding has_prefix
has_suffix suffix s = has_prefix (reverse suffix) (reverse s)

unfoldable pub is_between : (first last : ℕ) → Bytes → Bool
unfolding has_prefix has_suffix
is_between first last s = has_prefix (first ∷ []) s && has_suffix (last ∷ []) s

unfoldable pub is_quoted : Bytes → Bool
unfolding is_between
is_quoted s = leb 2 (length s) && (is_between 34 34 s || is_between 39 39 s)

-- The cases of `parseScalar` on a trimmed text.
unfoldable pub scalar_of : (Bytes → Heap → Parsed ℕ) → Bytes → Heap → Parsed ℕ
unfolding is_between is_quoted inner new_node map_parts list_parts split_top_level
scalar_of parse s h =
    if is_between 123 125 s
    then new_node map_node (map_parts parse (split_top_level (inner s) 44) [] h)
    else if is_between 91 93 s
    then new_node list_node (list_parts parse (split_top_level (inner s) 44) h)
    else new_node scalar (parsed (if is_quoted s then inner s else s) h)

-- `parseScalar`
unfoldable pub parse_scalar : (fuel : ℕ) → Bytes → Heap → Parsed ℕ
unfolding scalar_of trim_space
parse_scalar zero s h = out_of_fuel
parse_scalar (suc fuel) s h = scalar_of (parse_scalar fuel) (trim_space s) h

-- `parseScalar` with a fuel that its text determines.
unfoldable pub scalar_node : Bytes → Heap → Parsed ℕ
unfolding parse_scalar
scalar_node s h = parse_scalar (suc (length s)) s h

-- `parseItem`
unfoldable pub parse_item : Bytes → Heap → Parsed ℕ
unfolding split_key_value scalar_node new_node alloc is_empty
parse_item text h = elim (split_key_value text) [
  | none ↦ scalar_node text h
  | some (key, value) ↦
      if is_empty value
      then (let (child, h') = alloc unknown h in new_node map_node (parsed ((key, child) ∷ []) h'))
      else new_node (λ child. map_node ((key, child) ∷ [])) (scalar_node value h)
]

-- `yFrame`; the frame of the root has the indent -1.
pub record Frame : Type 0 where
  pub node : ℕ
  pub indent : ℤ

-- The heap and the stack, newest frame first; `top` is its first.
pub record Parser : Type 0 where
  pub heap : Heap
  pub top : Frame
  pub under : List Frame

-- `for len(stack) > 1 && stack[len(stack)-1].indent >= indent`
unfoldable pub pop_to : (indent : ℤ) → Frame → List Frame → Frame × List Frame
pop_to indent top [] = (top, [])
pop_to indent top (f ∷ under) =
    let popped : Frame × List Frame = pop_to indent f under in
    if not (ltb_ℤ top.indent indent) then popped else (top, f ∷ under)

-- `if top.node.kind == yUnknown { … }`
unfoldable pub settle_kind : Kind → Node → Node
settle_kind k x = elim x.kind [ unknown_kind ↦ record x { kind = k } | other ↦ x ]

abbrev pub is_list : Kind → Bool
is_list list_kind = true
is_list other = false

abbrev pub is_map : Kind → Bool
is_map map_kind = true
is_map other = false

-- The end of the handling of a list item: `item` is appended to the top node.
unfoldable pub add_item :
    (indent : ℤ) → (top : Node) → Frame → List Frame → Parsed ℕ → Option Parser
unfolding put_node node_at
add_item indent x top under malformed = none
add_item indent x top under out_of_fuel = none
add_item indent x top under (parsed item h) =
    let h' : Heap = put_node top.node (record x { l = x.l ++ item ∷ [] }) h in
    let is_map_item : Bool = elim (node_at h item) [ none ↦ false | some y ↦ is_map y.kind ] in
    some (
      if is_map_item
      then record { heap = h'; top = record { node = item; indent = indent }; under = top ∷ under }
      else record { heap = h'; top = top; under = under })

-- `strings.HasPrefix(content, "-") && (content == "-" || strings.HasPrefix(content, "- "))`
unfoldable pub is_item : Bytes → Bool
unfolding has_prefix str_eq
is_item content = str_eq content (codes "-") || has_prefix (codes "- ") content

-- A line of a list.
unfoldable pub item_line : (indent : ℤ) → Bytes → Node → Frame → List Frame → Heap → Option Parser
unfolding settle_kind parse_item add_item trim_space is_empty
item_line indent content x top under h =
    let text : Bytes = trim_space (drop 1 content) in
    let x' : Node = settle_kind list_kind x in
    if not (is_list x'.kind)
    then none
    else if is_empty text
    then none
    else add_item indent x' top under (parse_item text h)

unfoldable pub put_scalar : (key : Bytes) → Node → Frame → List Frame → Parsed ℕ → Option Parser
unfolding put_node insert
put_scalar key x top under malformed = none
put_scalar key x top under out_of_fuel = none
put_scalar key x top under (parsed child h) = some (record {
  heap = put_node top.node (record x { m = insert key child x.m }) h;
  top = top;
  under = under;
})

-- A line of a mapping.
unfoldable pub key_line : (indent : ℤ) → Bytes → Node → Frame → List Frame → Heap → Option Parser
unfolding settle_kind put_scalar split_key_value scalar_node alloc put_node insert is_empty
key_line indent content x top under h = elim (split_key_value content) [
  | none ↦ none
  | some (key, value) ↦
      let x' : Node = settle_kind map_kind x in
      let (child, h') = alloc unknown h in
      let opened : Parser = record {
        heap = put_node top.node (record x' { m = insert key child x'.m }) h';
        top = record { node = child; indent = indent };
        under = top ∷ under;
      } in
      if not (is_map x'.kind)
      then none
      else if is_empty value
      then some opened
      else put_scalar key x' top under (scalar_node value h)
]

-- A line that is not blank, once the stack is unwound to its indent.
unfoldable pub content_line : (indent : ℤ) → Bytes → Frame × List Frame → Heap → Option Parser
unfolding is_item item_line key_line node_at
content_line indent content (top, under) h = elim (node_at h top.node) [
  | none ↦ none
  | some x ↦
      if is_item content
      then item_line indent content x top under h
      else key_line indent content x top under h
]

unfoldable pub parse_line : (raw : Bytes) → Parser → Option Parser
unfolding strip_comment trim_space is_empty has_tab drop_spaces count_indent pop_to content_line
parse_line raw p =
    let line : Bytes = strip_comment raw in
    let content : Bytes = trim_space line in
    let indent : ℤ = pos (count_indent line) in
    if is_empty content
    then some p
    else if has_tab (drop_spaces line)
    then none
    else content_line indent content (pop_to indent p.top p.under) p.heap

unfoldable pub parse_lines : List Bytes → Parser → Option Parser
unfolding parse_line
parse_lines [] p = some p
parse_lines (raw ∷ lines) p = elim (parse_line raw p) [
  | none ↦ none
  | some p' ↦ parse_lines lines p'
]

-- `parseYAML`; the root is the first node of the heap.
unfoldable pub parse_yaml : (data_bytes : Bytes) → Option Heap
unfolding parse_lines split_at
parse_yaml data_bytes =
    let start : Parser = record {
      heap = map_node [] ∷ [];
      top = record { node = 0; indent = negsuc 0 };
      under = [];
    } in
    elim (parse_lines (split_at 10 data_bytes) start) [ none ↦ none | some p ↦ some p.heap ]
