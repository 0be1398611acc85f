-- ===== src/Wwiki/Html.antt =====
-- shorteners/w-wiki/dumps.go: the searches in an HTML document. `DataAtom` is the name of a tag that
-- is known, and empty for another; a node's siblings are those after it in the list of its parent.
pub mod First
use urlhero.Common.{
  Bool, true, false, ◌&&◌, Option, none, some, List, [], ◌∷◌, Bytes, codes, str_eq, if◌then◌else◌,
  Outcome, ok, ◌>>=◌,
}

pub data NodeType : Type 0 where
  element : NodeType
  text : NodeType
  other : NodeType

mutual
  pub data Node : Type 0 where
    node : NodeType → Bytes → Bytes → List (Bytes × Bytes) → Nodes → Node

  pub data Nodes : Type 0 where
    nil : Nodes
    cons : Node → Nodes → Nodes

abbrev pub children : Node → Nodes
children (node t atom data_of attrs kids) = kids

abbrev pub is_element : Bytes → Node → Bool
is_element tag (node element atom data_of attrs kids) = str_eq atom tag
is_element tag (node text atom data_of attrs kids) = false
is_element tag (node other atom data_of attrs kids) = false

abbrev pub or_else : Option Node → Option Node → Option Node
or_else none rest = rest
or_else (some n) rest = some n

-- the loop of `findFirst` over the children
unfoldable pub find_among : Bytes → Nodes → Option Node
unfolding str_eq
find_among tag nil = none
find_among tag (cons (node t atom data_of attrs kids) siblings) =
    let c = node t atom data_of attrs kids in
    let below = find_among tag kids in
    let rest = find_among tag siblings in if is_element tag c then some c else or_else below rest

-- `findFirst`
unfoldable pub find_first : Bytes → Node → Option Node
unfolding find_among
find_first tag n = find_among tag (children n)

-- The loop of `eachChild`, where `fn` also gets the later siblings and a state.
unfoldable pub each_among :
    {E S : Type 0} → Bytes → (Node → Nodes → S → Outcome E S) → Nodes → S → Outcome E S
unfolding str_eq
each_among tag fn nil s = ok s
each_among tag fn (cons c siblings) s =
    let skip = each_among tag fn siblings s in
    if is_element tag c then fn c siblings s >>= each_among tag fn siblings else skip

-- `eachChild`
abbrev pub each_child :
    {E S : Type 0} → Bytes → (Node → Nodes → S → Outcome E S) → Node → S → Outcome E S
each_child tag fn n = each_among tag fn (children n)

unfoldable pub attr_of : Bytes → List (Bytes × Bytes) → Option Bytes
unfolding str_eq
attr_of key [] = none
attr_of key ((k, value) ∷ attrs) =
    let rest = attr_of key attrs in if str_eq k key then some value else rest

-- `attr`, `none` for false
abbrev pub attr : Node → Bytes → Option Bytes
attr (node t atom data_of attrs kids) key = attr_of key attrs
