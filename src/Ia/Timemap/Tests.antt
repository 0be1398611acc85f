-- ===== src/Ia/Timemap/Tests.antt =====
-- Runs of the query for a time map, and its theorems at concrete inputs.
use urlhero.Common.{
  ℕ, true, some, List, [], ◌∷◌, ◌++◌, ◌≡◌, ◌↔◌, ◌⊎◌, inr, refl, Bytes, codes, pos, ok, eof, Source,
}
use urlhero.Web.{Response, Values}
use urlhero.Ia.Timemap.{TimemapOptions, timemap_query, get_timemap}
use urlhero.Ia.Timemap.Query.{Asks, Answered, timemap_query-Asks, get_timemap_iff}

abbrev options : TimemapOptions
options = record {
  match_prefix = true;
  collapse = [];
  fields = codes "original" ∷ codes "timestamp" ∷ [];
  limit = pos 100;
}

timemap_query-Asks_example :
    Asks (timemap_query (codes "https://qr.cx/") (some options)) (codes "https://qr.cx/") options
timemap_query-Asks_example = timemap_query-Asks (codes "https://qr.cx/") options

abbrev answer : Bytes → ℕ ⊎ Response
answer url = inr (record {
  status_code = 200;
  status = codes "200 OK";
  header = λ key. [];
  body = record { chunks = []; last = codes "[]"; final = eof };
})

-- Stands for the encoding of a query: its values in order.
abbrev values : Values → Bytes
values [] = []
values ((key, value) ∷ q) = value ++ values q

abbrev table : Source → ℕ ⊎ List (List Bytes)
table body = inr ((codes "original" ∷ []) ∷ (codes "https://qr.cx/1" ∷ []) ∷ [])

get_timemap_iff_example :
    (get_timemap answer values table (codes "qr.cx") (some options)
      ≡ ok ((codes "https://qr.cx/1" ∷ []) ∷ []))
    ↔ Answered answer values table
        (codes "qr.cx")
        (some options)
        ((codes "https://qr.cx/1" ∷ []) ∷ [])
get_timemap_iff_example =
    get_timemap_iff answer values table (codes "qr.cx") (some options)
      ((codes "https://qr.cx/1" ∷ []) ∷ [])

rows_returned :
    get_timemap answer values table (codes "qr.cx") (some options)
    ≡ ok ((codes "https://qr.cx/1" ∷ []) ∷ [])
unfolding get_timemap timemap_query
rows_returned = refl
