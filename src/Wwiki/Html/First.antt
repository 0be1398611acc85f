-- ===== src/Wwiki/Html/First.antt =====
-- shorteners/w-wiki/dumps.go: `findFirst` and the order of a document.
use urlhero.Common.{
  Bool, Bool-cases, Option, none, some, List, [], ◌∷◌, ◌++◌, ◌≡◌, inl, inr, refl, ap, ap₂, ◌∙◌,
  Bytes, if◌then◌else◌,
}
use urlhero.Wwiki.Html.{
  Node, node, Nodes, nil, cons, children, is_element, or_else, find_among, find_first,
}

-- The nodes of a list of siblings in document order, each before those below it.
unfoldable pub preorder : Nodes → List Node
preorder nil = []
preorder (cons (node t atom data_of attrs kids) siblings) =
    node t atom data_of attrs kids ∷ (preorder kids ++ preorder siblings)

-- the first that passes a test
unfoldable pub first : (Node → Bool) → List Node → Option Node
first p [] = none
first p (n ∷ ns) = let rest = first p ns in if p n then some n else rest

or_else-first :
    (p : Node → Bool) (ms ns : List Node) → or_else (first p ms) (first p ns) ≡ first p (ms ++ ns)
unfolding first
or_else-first p [] ns = refl
or_else-first p (m ∷ ms) ns = elim (Bool-cases (p m)) [
  | inl e ↦ rw e refl
  | inr e ↦ rw e (or_else-first p ms ns)
]

find_among-first :
    (tag : Bytes) (ns : Nodes) → find_among tag ns ≡ first (is_element tag) (preorder ns)
unfolding find_among preorder first
find_among-first tag nil = refl
find_among-first tag (cons (node t atom data_of attrs kids) siblings) =
    ap
      (λ r.
        if is_element tag (node t atom data_of attrs kids)
        then some (node t atom data_of attrs kids)
        else r)
      (ap₂ or_else (find_among-first tag kids) (find_among-first tag siblings)
        ∙ or_else-first (is_element tag) (preorder kids) (preorder siblings))

-- `findFirst` gives the first element with the tag in document order below the node, itself not
-- included, and nil where there is none.
find_first-preorder :
    (tag : Bytes) (n : Node) → find_first tag n ≡ first (is_element tag) (preorder (children n))
unfolding find_first
find_first-preorder tag n = find_among-first tag (children n)
