-- ===== src/Wwiki/Dumps/Rows.antt =====
-- shorteners/w-wiki/dumps.go: when `GetDumps` returns dumps, and which.
use urlhero.Common.{
  true, false, Bool-cases, Option, none, some, List, [], ◌∷◌, ◌++◌, append_assoc, append-nil, ◌≡◌,
  ◌↔◌, ◌⊎◌, inl, inr, refl, sym, ap, ◌∙◌, subst, Outcome, ok, err, panic, hang, ◌>>=◌, >>=-ok,
  ok-injective, Bytes, codes, str_eq, after_last, parse_int, ℤ, Source,
}
use urlhero.Web.{Response, require_ok, require_ok_iff}
use urlhero.Wwiki.{as_web, or_fail}
use urlhero.Wwiki.Html.{Node, Nodes, nil, cons, attr, children, find_first, is_element, each_among}
use urlhero.Wwiki.Dumps.{
  DumpInfo, index_url, or_empty, next_text, split_at, size_of, read_row, add_row, read_pre,
  get_dumps,
}

module _ {E : Type 0} where
  or_fail-ok : {A : Type 0} (m : E ⊎ A) {a : A} → or_fail m ≡ ok a → m ≡ inr a
  or_fail-ok (inl e) h = cc
  or_fail-ok (inr b) h = ap inr (ok-injective h)

  pub as_web-ok : {A : Type 0} (m : Outcome _ A) {a : A} → as_web {E = E} m ≡ ok a → m ≡ ok a
  as_web-ok (ok b) h = ap ok (ok-injective h)
  as_web-ok (err e) h = cc
  as_web-ok panic h = cc
  as_web-ok hang h = cc

  module _ {U T : Type 0} (parse : Bytes → E ⊎ U) (resolve : U → U)
      (parse_time : Bytes → E ⊎ T) where
    -- A row of the index: the link is a URL, and the text after it, trimmed, is a time, a space and a
    -- size.
    pub record IsRow (href : Bytes) (siblings : Nodes) (dump : DumpInfo U T) : Type 0 where
      pub rel : U
      pub time_text : Bytes
      pub size_text : Bytes
      pub row_text : Bytes
      pub is_url : parse href ≡ inr rel
      pub follows : next_text {E = E} href siblings ≡ ok row_text
      pub splits :
          split_at {E = E} href row_text (after_last row_text b' ') ≡ ok (time_text, size_text)
      pub is_time : parse_time time_text ≡ inr dump.time
      pub is_size : parse_int size_text ≡ some dump.size
      pub is_resolved : dump.url ≡ resolve rel

    size_of-ok : (s : Bytes) (m : Option ℤ) {n : ℤ} → size_of {E = E} s m ≡ ok n → m ≡ some n
    size_of-ok s none h = cc
    size_of-ok s (some n) h = ap some (ok-injective h)

    read_row_iff :
        (href : Bytes) (siblings : Nodes) (dump : DumpInfo U T)
        → (read_row parse resolve parse_time href siblings ≡ ok dump) ↔ IsRow href siblings dump
    unfolding read_row
    read_row_iff href siblings dump = (
      λ h.
          let (rel, r, h1) = >>=-ok (or_fail (parse href)) _ h in
          let (s, n, h2) = >>=-ok (next_text href siblings) _ h1 in
          let (fields, f, h3) = >>=-ok (split_at href s (after_last s b' ')) _ h2 in
          let (time, t, h4) = >>=-ok (or_fail (parse_time fields.0)) _ h3 in
          let (size, z, h5) = >>=-ok (size_of fields.1 (parse_int fields.1)) _ h4 in
          let same = ok-injective h5 in
          record {
            rel = rel;
            time_text = fields.0;
            size_text = fields.1;
            row_text = s;
            is_url = or_fail-ok (parse href) r;
            follows = n;
            splits = f;
            is_time = or_fail-ok (parse_time fields.0) t ∙ ap (λ d. inr d.time) same;
            is_size = size_of-ok fields.1 (parse_int fields.1) z ∙ ap (λ d. some d.size) same;
            is_resolved = ap (λ d. d.url) (sym same);
          },
      λ r. rw (r.is_url, r.follows, r.splits, r.is_time, r.is_size, sym r.is_resolved) refl,
    )

    abbrev pub href_of : Node → Bytes
    href_of a = or_empty (attr a (codes "href"))

    -- The nodes below the `pre` element and the dumps that they list: a link to the parent directory
    -- and what is not a link list none, any other link lists one.
    pub data Lists : Nodes → List (DumpInfo U T) → Type 0 where
      done : Lists nil []
      no_link :
          {c : Node} {cs : Nodes} {ds : List (DumpInfo U T)}
          → is_element (codes "a") c ≡ false
          → Lists cs ds
          → Lists (cons c cs) ds
      parent :
          {c : Node} {cs : Nodes} {ds : List (DumpInfo U T)}
          → is_element (codes "a") c ≡ true
          → str_eq (href_of c) (codes "../") ≡ true
          → Lists cs ds
          → Lists (cons c cs) ds
      row :
          {c : Node} {cs : Nodes} {d : DumpInfo U T} {ds : List (DumpInfo U T)}
          → is_element (codes "a") c ≡ true
          → str_eq (href_of c) (codes "../") ≡ false
          → IsRow (href_of c) cs d
          → Lists cs ds
          → Lists (cons c cs) (d ∷ ds)

    each_row-Lists :
        (cs : Nodes) (before ds : List (DumpInfo U T))
        → each_among (codes "a") (add_row parse resolve parse_time) cs before ≡ ok ds
        → (rest : List (DumpInfo U T)) × (ds ≡ before ++ rest) × Lists cs rest
    unfolding each_among add_row
    each_row-Lists nil before ds h = ([], sym (ok-injective h) ∙ sym (append-nil before), done)
    each_row-Lists (cons c cs) before ds h = elim (Bool-cases (is_element (codes "a") c)) [
      | inr e ↦
          let (rest, same, lists) = each_row-Lists cs before ds (rw e at h) in
          (rest, same, no_link e lists)
      | inl e ↦ elim (Bool-cases (str_eq (href_of c) (codes "../"))) [
        | inl p ↦
            let (rest, same, lists) = each_row-Lists cs before ds (rw (e, p) at h) in
            (rest, same, parent e p lists)
        | inr p ↦
            let (after, a, h1) =
              >>=-ok
                (read_row parse resolve parse_time (href_of c) cs >>= λ dump.
                  ok (before ++ dump ∷ []))
                _ (rw (e, p) at h) in
            let (d, r, h2) = >>=-ok (read_row parse resolve parse_time (href_of c) cs) _ a in
            let (rest, same, lists) = each_row-Lists cs (before ++ d ∷ []) ds (
              ap (each_among (codes "a") (add_row parse resolve parse_time) cs) (ok-injective h2)
              ∙ h1) in
            (
              d ∷ rest,
              same ∙ append_assoc before (d ∷ []) rest,
              row e p ((read_row_iff (href_of c) cs d).0 r) lists,
            )
      ]
    ]

    each_row-of :
        {cs : Nodes} (before : List (DumpInfo U T)) {ds : List (DumpInfo U T)}
        → Lists cs ds
        → each_among (codes "a") (add_row parse resolve parse_time) cs before ≡ ok (before ++ ds)
    unfolding each_among add_row
    each_row-of before done = ap ok (sym (append-nil before))
    each_row-of before (no_link e lists) = rw e (each_row-of before lists)
    each_row-of before (parent e p lists) = rw (e, p) (each_row-of before lists)
    each_row-of before (row {c} {cs} {d} {ds} e p r lists) =
        rw (e, p, (read_row_iff (href_of c) cs d).1 r)
          (each_row-of (before ++ d ∷ []) lists ∙ ap ok (append_assoc before (d ∷ []) ds))

    -- The index as it is answered, and its first `pre` element.
    pub record Indexed (http_get : Bytes → E ⊎ Response) (parse_html : Source → E ⊎ Node)
        (dumps : List (DumpInfo U T)) : Type 0 where
      pub base_url : U
      pub resp : Response
      pub doc : Node
      pub pre : Node
      pub is_base : parse index_url ≡ inr base_url
      pub answers : http_get index_url ≡ inr resp
      pub is_ok : resp.status_code ≡ 200
      pub parses : parse_html resp.body ≡ inr doc
      pub has_pre : find_first (codes "pre") doc ≡ some pre
      pub lists : Lists (children pre) dumps

    read_pre-Lists :
        (m : Option Node) (dumps : List (DumpInfo U T))
        → read_pre parse resolve parse_time m ≡ ok dumps
        → (pre : Node) × (m ≡ some pre) × Lists (children pre) dumps
    read_pre-Lists none dumps h = cc
    read_pre-Lists (some pre) dumps h =
        let (rest, same, lists) = each_row-Lists (children pre) [] dumps h in
        (pre, refl, subst (Lists (children pre)) (sym same) lists)

    -- `GetDumps` returns dumps exactly when the index is answered with status 200, has a `pre` element,
    -- and the first one lists these dumps in order, each link but that to the parent directory being
    -- followed by its time and its size.
    pub get_dumps_iff :
        (http_get : Bytes → E ⊎ Response) (parse_html : Source → E ⊎ Node)
        (dumps : List (DumpInfo U T))
        → (get_dumps parse resolve parse_time http_get parse_html ≡ ok dumps)
          ↔ Indexed http_get parse_html dumps
    unfolding get_dumps
    get_dumps_iff http_get parse_html dumps = (
      λ h.
          let (base_url, b, h1) = >>=-ok (or_fail (parse index_url)) _ h in
          let (resp, r, h2) = >>=-ok (as_web (require_ok (http_get index_url))) _ h1 in
          let (doc, d, h3) = >>=-ok (or_fail (parse_html resp.body)) _ h2 in
          let (pre, p, lists) = read_pre-Lists (find_first (codes "pre") doc) dumps h3 in
          let (a, k) = (require_ok_iff (http_get index_url) resp).0 (as_web-ok _ r) in
          record {
            base_url = base_url;
            resp = resp;
            doc = doc;
            pre = pre;
            is_base = or_fail-ok (parse index_url) b;
            answers = a;
            is_ok = k;
            parses = or_fail-ok (parse_html resp.body) d;
            has_pre = p;
            lists = lists;
          },
      λ i.
          rw
            (
              i.is_base,
              (require_ok_iff (http_get index_url) i.resp).1 (i.answers, i.is_ok),
              i.parses,
              i.has_pre,
            )
            (each_row-of [] i.lists),
    )

    -- a link that nothing follows
    each_row-panic :
        (c : Node) (before : List (DumpInfo U T)) {rel : U}
        → is_element (codes "a") c ≡ true
        → str_eq (href_of c) (codes "../") ≡ false
        → parse (href_of c) ≡ inr rel
        → each_among (codes "a") (add_row parse resolve parse_time) (cons c nil) before ≡ panic
    unfolding each_among add_row read_row
    each_row-panic c before e p r = rw (e, p, r) refl
