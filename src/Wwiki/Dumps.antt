-- ===== src/Wwiki/Dumps.antt =====
-- shorteners/w-wiki/dumps.go: `GetDumps`. `U` and `T` are the URLs and the times; `parse` is `url.Parse`,
-- `resolve` resolves against the address of the index, `parse_time` is `time.Parse` in the format of
-- the index, `parse_html` is `html.Parse` and `http_get` is `http.Get`.
pub mod Rows
use urlhero.Common.{
  ℕ, zero, suc, Bool, true, false, Option, none, some, List, [], ◌∷◌, ◌++◌, ◌⊎◌, inl, inr, Outcome,
  ok, err, panic, ◌>>=◌, Bytes, codes, str_eq, if◌then◌else◌, take, drop, after_last, trim_space,
  parse_int, ℤ, Source,
}
use urlhero.Web.{Response, require_ok}
use urlhero.Wwiki.{DumpError, no_pre, no_time, cannot_split, bad_size, as_web, or_fail}
use urlhero.Wwiki.Html.{
  Node, node, text, element, other, Nodes, nil, cons, attr, find_first, each_child,
}

pub record DumpInfo (U T : Type 0) : Type 0 where
  pub url : U
  pub time : T
  pub size : ℤ

abbrev pub index_url : Bytes
index_url = codes "https://dumps.wikimedia.org/other/shorturls/"

-- the value of an attribute, empty where there is none
abbrev pub or_empty : Option Bytes → Bytes
or_empty none = []
or_empty (some s) = s

module _ {E : Type 0} where
  -- the text of `a.NextSibling`
  abbrev pub next_text : Bytes → Nodes → Outcome (DumpError E) Bytes
  next_text href nil = panic
  next_text href (cons (node text atom data_of attrs kids) siblings) = ok (trim_space data_of)
  next_text href (cons (node element atom data_of attrs kids) siblings) = err (no_time href)
  next_text href (cons (node other atom data_of attrs kids) siblings) = err (no_time href)

  -- The text before the last space, trimmed, and the text after it.
  abbrev pub split_at : Bytes → Bytes → ℕ → Outcome (DumpError E) (Bytes × Bytes)
  split_at href s zero = err (cannot_split href)
  split_at href s (suc i) = ok (trim_space (take i s), drop (suc i) s)

  abbrev pub size_of : Bytes → Option ℤ → Outcome (DumpError E) ℤ
  size_of s none = err (bad_size s)
  size_of s (some n) = ok n

  module _ {U T : Type 0} (parse : Bytes → E ⊎ U) (resolve : U → U)
      (parse_time : Bytes → E ⊎ T) where
    -- A link to another page than the parent, and the text after it.
    unfoldable pub read_row : Bytes → Nodes → Outcome (DumpError E) (DumpInfo U T)
    unfolding trim_space after_last parse_int
    read_row href siblings = do
      rel ← or_fail (parse href)
      s ← next_text href siblings
      fields ← split_at href s (after_last s b' ')
      time ← or_fail (parse_time fields.0)
      size ← size_of fields.1 (parse_int fields.1)
      ok (record { url = resolve rel; time = time; size = size })

    -- the function that `GetDumps` calls on each link
    unfoldable pub add_row :
        Node → Nodes → List (DumpInfo U T) → Outcome (DumpError E) (List (DumpInfo U T))
    unfolding read_row str_eq
    add_row a siblings dumps =
        let href = or_empty (attr a (codes "href")) in
        if str_eq href (codes "../")
        then ok dumps
        else read_row href siblings >>= λ dump. ok (dumps ++ dump ∷ [])

    -- `GetDumps` from the `pre` element on
    abbrev pub read_pre : Option Node → Outcome (DumpError E) (List (DumpInfo U T))
    read_pre none = err no_pre
    read_pre (some pre) = each_child (codes "a") add_row pre []

    unfoldable pub get_dumps :
        (Bytes → E ⊎ Response) → (Source → E ⊎ Node) → Outcome (DumpError E) (List (DumpInfo U T))
    unfolding add_row find_first require_ok
    get_dumps http_get parse_html = do
      base_url ← or_fail (parse index_url)
      resp ← as_web (require_ok (http_get index_url))
      doc ← or_fail (parse_html resp.body)
      read_pre (find_first (codes "pre") doc)
