-- ===== src/Ia/Timemap.antt =====
-- ia/timemap.go: the list of captures of a URL. `http_get` is `http.Get`, `encode` the method
-- `Encode` of the query, `decode` is `jsonutil.Decode` of a table.
pub mod Query
mod Tests
use urlhero.Common.{
  Bool, true, false, Option, none, some, List, [], ◌∷◌, ◌++◌, ◌⊎◌, Outcome, ok, ◌>>=◌, Bytes, codes,
  str_eq, if◌then◌else◌, ℤ, pos, negsuc, zero, suc, join, itoa, Source,
}
use urlhero.Web.{Response, WebError, or_external, require_ok, Values, set}

pub record TimemapOptions : Type 0 where
  pub match_prefix : Bool
  pub collapse : Bytes
  pub fields : List Bytes
  pub limit : ℤ

abbrev pub set_prefix : Bool → Values → Values
set_prefix b q = if b then set q (codes "matchType") (codes "prefix") else q

abbrev pub set_collapse : Bytes → Values → Values
set_collapse s q = if str_eq s [] then q else set q (codes "collapse") s

abbrev pub set_fields : List Bytes → Values → Values
set_fields [] q = q
set_fields (f ∷ fs) q = set q (codes "fl") (join (f ∷ fs) (codes ","))

abbrev pub set_limit : ℤ → Values → Values
set_limit (pos zero) q = q
set_limit (pos (suc n)) q = set q (codes "limit") (itoa (suc n))
set_limit (negsuc n) q = q

-- the query of `GetTimemap`
unfoldable pub timemap_query : Bytes → Option TimemapOptions → Values
unfolding set str_eq join itoa
timemap_query page_url options =
    let q = set (set [] (codes "url") page_url) (codes "output") (codes "json") in
    elim options [
      | none ↦ q
      | some o ↦
          set_limit o.limit
            (set_fields o.fields (set_collapse o.collapse (set_prefix o.match_prefix q)))
    ]

-- The header row is skipped.
abbrev pub skip_header : List (List Bytes) → List (List Bytes)
skip_header [] = []
skip_header (row ∷ rows) = rows

abbrev pub timemap_url : Bytes → Bytes
timemap_url query = codes "https://web.archive.org/web/timemap/?" ++ query

module _ {E : Type 0} where
  -- `checkResponse`; the rest of the body is read and dropped where the status is another.
  unfoldable pub check_response : E ⊎ Response → Outcome (WebError E) Response
  unfolding require_ok
  check_response r = require_ok r

  unfoldable pub get_timemap :
      (Bytes → E ⊎ Response)
      → (Values → Bytes)
      → (Source → E ⊎ List (List Bytes))
      → Bytes
      → Option TimemapOptions
      → Outcome (WebError E) (List (List Bytes))
  unfolding timemap_query check_response
  get_timemap http_get encode decode page_url options = do
    resp ← check_response (http_get (timemap_url (encode (timemap_query page_url options))))
    timemap ← or_external (decode resp.body)
    ok (skip_header timemap)
