-- ===== src/Wwiki/Tests.antt =====
-- Runs on a small index and a small time map, and each theorem of the package at a concrete input.
use urlhero.Common.{
  ℕ, false, Option, none, some, List, [], ◌∷◌, ◌++◌, ◌≡◌, ◌↔◌, ◌⊎◌, inl, inr, refl, ok, err, panic,
  Bytes, codes, pos, Source, IoError, eof,
}
use urlhero.Web.{Response, Values, external}
use urlhero.Files.{Store, read_file, has_file}
use urlhero.Ia.Timemap.Query.{Answered}
use urlhero.Wwiki.{web}
use urlhero.Wwiki.Html.{Node, node, Nodes, nil, cons, element, text, other, each_among, attr_of}
use urlhero.Wwiki.Dumps.{DumpInfo, index_url, get_dumps}
use urlhero.Wwiki.Dumps.Rows.{Indexed, get_dumps_iff}
use urlhero.Wwiki.Download.{download_dump}
use urlhero.Wwiki.Download.Saved.{download_dump_empty}
use urlhero.Wwiki.Archive.{IaDumpInfo, ia_options, get_ia_dumps, download_dumps, download_ia_dumps}
use urlhero.Commands.Exits.{exit}
use urlhero.Commands.Downloads.{dlwwiki}
use urlhero.Commands.Dumps.{HasDumps, dlwwiki-HasDumps}
use urlhero.Wwiki.Archive.Rows.{Selects, get_ia_dumps_iff}

abbrev link_to : Bytes → Node
link_to href = node element (codes "a") (codes "a") ((codes "href", href) ∷ []) nil

abbrev words : Bytes → Node
words s = node text [] s [] nil

abbrev pre : Nodes → Node
pre kids = node element (codes "pre") (codes "pre") [] kids

abbrev document : Nodes → Node
document kids =
    node other [] [] []
      (cons (node element (codes "html") (codes "html") [] (cons (pre kids) nil)) nil)

abbrev index_page : Node
index_page = document (
    cons (link_to (codes "../")) (
      cons (words (codes "\n")) (
        cons (link_to (codes "shorturls-20210329.gz"))
          (cons (words (codes "   29-Mar-2021 04:16    9801\n")) nil))))

abbrev answer : Bytes → ℕ ⊎ Response
answer url = inr (record {
  status_code = 200;
  status = codes "200 OK";
  header = λ key. [];
  body = record { chunks = []; last = codes "<pre>"; final = eof };
})

abbrev kept : Bytes → ℕ ⊎ Bytes
kept s = inr s

abbrev resolve : Bytes → Bytes
resolve rel = index_url ++ rel

abbrev page : Node → Source → ℕ ⊎ Node
page n body = inr n

abbrev one_dump : List (DumpInfo Bytes Bytes)
one_dump =
    record {
      url = index_url ++ codes "shorturls-20210329.gz";
      time = codes "29-Mar-2021 04:16";
      size = pos 9801;
    }
    ∷ []

index_listed : get_dumps kept resolve kept answer (page index_page) ≡ ok one_dump
unfolding get_dumps each_among attr_of
index_listed = refl

-- A link that is the last node: `a.NextSibling` is nil.
last_link :
    get_dumps kept resolve kept answer (page (document (cons (link_to (codes "x")) nil))) ≡ panic
unfolding get_dumps each_among attr_of
last_link = refl

get_dumps_iff_example :
    (get_dumps kept resolve kept answer (page index_page) ≡ ok one_dump)
    ↔ Indexed kept resolve kept answer (page index_page) one_dump
get_dumps_iff_example = get_dumps_iff kept resolve kept answer (page index_page) one_dump

abbrev table : Source → ℕ ⊎ List (List Bytes)
table body = inr (
    (codes "original" ∷ [])
    ∷ (codes "https://d/x.gz"
        ∷ codes "20210401000000"
        ∷ codes "application/octet-stream"
        ∷ codes "200"
        ∷ codes "TS3WOHL6SGIAF7FIMPABIV7CO27YXCM7"
        ∷ [])
    ∷ (codes "https://d/"
        ∷ codes "20210401000000"
        ∷ codes "text/html"
        ∷ codes "200"
        ∷ codes "?"
        ∷ [])
    ∷ [])

abbrev values : Values → Bytes
values [] = []
values ((key, value) ∷ q) = value ++ values q

abbrev sha1_sum : Bytes
sha1_sum =
    0x9c ∷ 0xb7 ∷ 0x67 ∷ 0x1d ∷ 0x7e ∷ 0x91 ∷ 0x90 ∷ 0x02 ∷ 0xfc ∷ 0xa8 ∷ 0x63 ∷ 0xc0 ∷ 0x14 ∷ 0x57
    ∷ 0xe2 ∷ 0x76 ∷ 0xbf ∷ 0x8b ∷ 0x89 ∷ 0x9f ∷ []

abbrev archived : List IaDumpInfo
archived =
    record { url = codes "https://d/x.gz"; timestamp = codes "20210401000000"; sha1 = sha1_sum }
    ∷ []

rows_selected : get_ia_dumps answer values table ≡ ok archived
unfolding get_ia_dumps
rows_selected = refl

get_ia_dumps_iff_example : (get_ia_dumps answer values table ≡ ok archived) ↔ (
    (timemap : List (List Bytes)) × Answered answer values table index_url (some ia_options) timemap
    × Selects timemap archived)
get_ia_dumps_iff_example = get_ia_dumps_iff answer values table archived

-- Stands for a hash: the same sum for any text.
abbrev same_sum : Bytes → Bytes
same_sum s = sha1_sum

abbrev created : Bytes → Option ℕ
created path = none

abbrev opened : Bytes → Option IoError
opened path = none

abbrev no_times : Bytes → Bytes → Option ℕ
no_times path time = none

abbrev join : Bytes → Bytes → Bytes
join dir name = dir ++ (b'/' ∷ name)

abbrev whole_path : Bytes → Bytes
whole_path s = s

both_saved :
    (dlwwiki answer created opened kept no_times same_sum same_sum same_sum join whole_path
      whole_path kept resolve kept
      (page index_page)
      values
      table
      (codes "d" ∷ [])
      []).0
    ≡ exit 0
unfolding dlwwiki download_dumps download_ia_dumps each_among attr_of
both_saved = refl

dlwwiki-HasDumps_example :
    (dir : Bytes) × (codes "d" ∷ [] ≡ dir ∷ [])
    × HasDumps answer created opened kept no_times same_sum same_sum same_sum join whole_path
        whole_path kept resolve kept
        (page index_page)
        values
        table
        dir
        (dlwwiki answer created opened kept no_times same_sum same_sum same_sum join whole_path
          whole_path kept resolve kept
          (page index_page)
          values
          table
          (codes "d" ∷ [])
          []).1
dlwwiki-HasDumps_example =
    dlwwiki-HasDumps answer created opened kept no_times same_sum same_sum same_sum join whole_path
      whole_path kept resolve kept (page index_page) values table (codes "d" ∷ []) [] both_saved

abbrev refused : Bytes → ℕ ⊎ Response
refused url = inl 111

none_there : has_file (codes "f") [] ≡ false
unfolding read_file
none_there = refl

download_dump_empty_example :
    (store' : Store) × (download_dump refused created opened kept no_times same_sum same_sum
        same_sum
        (codes "u")
        (codes "f")
        none
        []
      ≡ (err (web (external 111)), store'))
    × (read_file (codes "f") store' ≡ some [])
    × ((http_get' : Bytes → ℕ ⊎ Response) (url' : Bytes)
        → download_dump http_get' created opened kept no_times same_sum same_sum same_sum url'
            (codes "f")
            none
            store'
          ≡ (ok tt, store'))
download_dump_empty_example =
    download_dump_empty refused created opened kept no_times same_sum same_sum same_sum (codes "u")
      (codes "f") [] 111 none_there refl refl
