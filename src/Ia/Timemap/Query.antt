-- ===== src/Ia/Timemap/Query.antt =====
-- ia/timemap.go: what the query asks for, and when `GetTimemap` returns a table.
use urlhero.Common.{
  suc, Bool, true, false, Option, none, some, List, [], ◌∷◌, ◌++◌, ◌≡◌, ◌↔◌, ◌⊎◌, inl, inr, refl,
  sym, ap, ◌∙◌, arith, ok, >>=-ok, ok-injective, Bytes, codes, str_eq, str_eq_iff, All,
  if◌then◌else◌, ℤ, pos, negsuc, zero, join, itoa, Source,
}
use urlhero.Web.{Response, or_external, require_ok_iff, or_external_iff, Values, set}
use urlhero.Ia.Timemap.{
  set_prefix, set_collapse, set_fields, set_limit, TimemapOptions, timemap_query, timemap_url,
  check_response, skip_header, get_timemap,
}

-- The value of a key, where the query has one.
pub find : Values → Bytes → Option Bytes
unfolding str_eq
find [] key = none
find ((k, v) ∷ q) key = if str_eq key k then some v else find q key

find-set :
    (q : Values) (key value j : Bytes)
    → find (set q key value) j ≡ (if str_eq j key then some value else find q j)
unfolding find set
find-set [] key value j = refl
find-set ((k, v) ∷ q) key value j =
    ground (arith, str_eq_iff key k, str_eq_iff j k, str_eq_iff j key, find-set q key value j)

-- The value of a key that is set where there is one.
abbrev or_else : Option Bytes → Option Bytes → Option Bytes
or_else none m = m
or_else (some v) m = some v

abbrev pub prefix_value : Bool → Option Bytes
prefix_value b = if b then some (codes "prefix") else none

abbrev pub collapse_value : Bytes → Option Bytes
collapse_value [] = none
collapse_value (c ∷ s) = some (c ∷ s)

abbrev pub fields_value : List Bytes → Option Bytes
fields_value [] = none
fields_value (f ∷ fs) = some (join (f ∷ fs) (codes ","))

-- A limit that is positive, in decimal.
abbrev pub limit_value : ℤ → Option Bytes
limit_value (pos zero) = none
limit_value (pos (suc n)) = some (itoa (suc n))
limit_value (negsuc n) = none

find-set_prefix :
    (b : Bool) (q : Values) (j : Bytes)
    → find (set_prefix b q) j
      ≡ (if str_eq j (codes "matchType") then or_else (prefix_value b) (find q j) else find q j)
find-set_prefix true q j = find-set q (codes "matchType") (codes "prefix") j
find-set_prefix false q j = ground arith

find-set_collapse :
    (s : Bytes) (q : Values) (j : Bytes)
    → find (set_collapse s q) j
      ≡ (if str_eq j (codes "collapse") then or_else (collapse_value s) (find q j) else find q j)
unfolding str_eq
find-set_collapse [] q j = ground arith
find-set_collapse (c ∷ s) q j = find-set q (codes "collapse") (c ∷ s) j

find-set_fields :
    (fs : List Bytes) (q : Values) (j : Bytes)
    → find (set_fields fs q) j
      ≡ (if str_eq j (codes "fl") then or_else (fields_value fs) (find q j) else find q j)
find-set_fields [] q j = ground arith
find-set_fields (f ∷ fs) q j = find-set q (codes "fl") (join (f ∷ fs) (codes ",")) j

find-set_limit :
    (n : ℤ) (q : Values) (j : Bytes)
    → find (set_limit n q) j
      ≡ (if str_eq j (codes "limit") then or_else (limit_value n) (find q j) else find q j)
find-set_limit (pos zero) q j = ground arith
find-set_limit (pos (suc n)) q j = find-set q (codes "limit") (itoa (suc n)) j
find-set_limit (negsuc n) q j = ground arith

-- What the query asks for: the values of its keys, and that it has no other keys.
pub record Asks (q : Values) (page_url : Bytes) (o : TimemapOptions) : Type 0 where
  pub url : find q (codes "url") ≡ some page_url
  pub output : find q (codes "output") ≡ some (codes "json")
  pub match_type : find q (codes "matchType") ≡ prefix_value o.match_prefix
  pub collapse : find q (codes "collapse") ≡ collapse_value o.collapse
  pub fl : find q (codes "fl") ≡ fields_value o.fields
  pub limit : find q (codes "limit") ≡ limit_value o.limit
  pub others :
      (j : Bytes)
      → All
          (λ k. ¬ (j ≡ codes k))
          ("url" ∷ "output" ∷ "matchType" ∷ "collapse" ∷ "fl" ∷ "limit" ∷ [])
      → find q j ≡ none

-- The value of any key.
find-timemap_query :
    (page_url : Bytes) (o : TimemapOptions) (j : Bytes)
    → find (timemap_query page_url (some o)) j ≡ (
        let q =
          if str_eq j (codes "url")
          then some page_url
          else if str_eq j (codes "output")
          then some (codes "json")
          else none in
        let q =
          if str_eq j (codes "matchType") then or_else (prefix_value o.match_prefix) q else q in
        let q = if str_eq j (codes "collapse") then or_else (collapse_value o.collapse) q else q in
        let q = if str_eq j (codes "fl") then or_else (fields_value o.fields) q else q in
        if str_eq j (codes "limit") then or_else (limit_value o.limit) q else q)
unfolding timemap_query find
find-timemap_query page_url o j =
    let q : Values = (codes "url", page_url) ∷ (codes "output", codes "json") ∷ [] in
    let q' = set_prefix o.match_prefix q in
    let q'' = set_collapse o.collapse q' in
    rw
      (
        find-set_limit o.limit (set_fields o.fields q'') j,
        find-set_fields o.fields q'' j,
        find-set_collapse o.collapse q' j,
        find-set_prefix o.match_prefix q j,
      )
      refl

or_none : (m : Option Bytes) → or_else m none ≡ m
or_none none = refl
or_none (some v) = refl

str_eq-other : (j k : Bytes) → ¬ (j ≡ k) → str_eq j k ≡ false
str_eq-other j k h = ground (arith, str_eq_iff j k)

-- The query of `GetTimemap` with options asks for the URL and for JSON; it has "matchType", with the
-- value "prefix", exactly for a match of prefixes, and "collapse", "fl" and "limit" exactly where the
-- option is not empty and the limit positive, with the option, the fields joined by commas and the
-- limit in decimal; and it has no other keys.
pub timemap_query-Asks :
    (page_url : Bytes) (o : TimemapOptions) → Asks (timemap_query page_url (some o)) page_url o
unfolding str_eq
timemap_query-Asks page_url o = record {
  url = find-timemap_query page_url o (codes "url");
  output = find-timemap_query page_url o (codes "output");
  match_type =
      find-timemap_query page_url o (codes "matchType") ∙ or_none (prefix_value o.match_prefix);
  collapse = find-timemap_query page_url o (codes "collapse") ∙ or_none (collapse_value o.collapse);
  fl = find-timemap_query page_url o (codes "fl") ∙ or_none (fields_value o.fields);
  limit = find-timemap_query page_url o (codes "limit") ∙ or_none (limit_value o.limit);
  others = λ j (u, (out, (m, (c, (f, (l, h)))))).
      find-timemap_query page_url o j
      ∙ rw
          (
            str_eq-other j (codes "limit") l,
            str_eq-other j (codes "fl") f,
            str_eq-other j (codes "collapse") c,
            str_eq-other j (codes "matchType") m,
            str_eq-other j (codes "output") out,
            str_eq-other j (codes "url") u,
          )
          refl;
}

module _ {E : Type 0} (http_get : Bytes → E ⊎ Response) (encode : Values → Bytes)
    (decode : Source → E ⊎ List (List Bytes)) where
  -- An answer of status 200 to the query, whose body is a table.
  pub record Answered (page_url : Bytes) (options : Option TimemapOptions)
      (rows : List (List Bytes)) : Type 0 where
    pub resp : Response
    pub table : List (List Bytes)
    pub answers :
        http_get
          (codes "https://web.archive.org/web/timemap/?" ++ encode (timemap_query page_url options))
        ≡ inr resp
    pub is_ok : resp.status_code ≡ 200
    pub decodes : decode resp.body ≡ inr table
    pub rows_are : ((table ≡ []) × (rows ≡ [])) ⊎ ((header : List Bytes) × (table ≡ header ∷ rows))

  skip_header_iff :
      (table rows : List (List Bytes))
      → (skip_header table ≡ rows)
        ↔ (((table ≡ []) × (rows ≡ [])) ⊎ ((header : List Bytes) × (table ≡ header ∷ rows)))
  skip_header_iff [] rows =
      (λ e. inl (refl, sym e), λ h. elim h [ inl (_, e) ↦ sym e | inr (header, e) ↦ cc ])
  skip_header_iff (row ∷ table) rows = (
    λ e. inr (row, ap (λ rows. row ∷ rows) e),
    λ h. elim h [ inl (e, _) ↦ cc | inr (header, e) ↦ cc ],
  )

  -- `GetTimemap` returns rows exactly when the request for its query at the address of the timemap
  -- is answered with status 200 by a body that decodes to a table, and the rows are the table without
  -- its first row, or none where it has none.
  pub get_timemap_iff :
      (page_url : Bytes) (options : Option TimemapOptions) (rows : List (List Bytes))
      → (get_timemap http_get encode decode page_url options ≡ ok rows)
        ↔ Answered page_url options rows
  unfolding get_timemap check_response
  get_timemap_iff page_url options rows =
      let r = http_get (timemap_url (encode (timemap_query page_url options))) in
      (
        λ h.
            let (resp, e, h') = >>=-ok (check_response r) _ h in
            let (table, d, h'') = >>=-ok (or_external (decode resp.body)) _ h' in
            let (a, k) = (require_ok_iff r resp).0 e in
            record {
              resp = resp;
              table = table;
              answers = a;
              is_ok = k;
              decodes = (or_external_iff (decode resp.body) table).0 d;
              rows_are = (skip_header_iff table rows).0 (ok-injective h'');
            },
        λ a.
            rw ((require_ok_iff r a.resp).1 (a.answers, a.is_ok), a.decodes)
              (ap ok ((skip_header_iff a.table rows).1 a.rows_are)),
      )
