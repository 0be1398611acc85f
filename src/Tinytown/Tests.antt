-- ===== src/Tinytown/Tests.antt =====
-- Runs of the walk over link dumps, and its theorems at concrete inputs.
use Prim.Native.String.{String}
use urlhero.Common.{
  ok, ℕ, true, Option, none, some, List, [], ◌∷◌, ◌++◌, ◌≡◌, ◌↔◌, ◌⊎◌, inl, inr, refl, Bytes, codes,
  ℤ, pos, All, map, str_eq, length, base, has_suffix,
}
use urlhero.Beacon.{Link, Error, eof}
use urlhero.Beacon.Reader.{has_newline}
use urlhero.Beacon.Dump.{Entry, dump_text, entry_link, IsEntry}
use urlhero.Beacon.RoundTrip.{NoHeader}
use urlhero.Tinytown.{
  not_link_dump, File, DirEntry, is_dump, minus, txt_xz, classify_files, process_link_dump,
}
use urlhero.Tinytown.Visits.{Ends, Visits, process_link_dump-Visits}
use urlhero.Tinytown.Classify.{Split, classify_files-Split}
use urlhero.Tinytown.Releases.{process_releases}
use urlhero.Tinytown.Ends.{process_releases-Ends}
use urlhero.Tinytown.Search.{search_releases}
use urlhero.Tinytown.Search.Projects.{Selects}
use urlhero.Tinytown.Search.Found.{ReleasesAdd, search_releases_iff}

-- `fn` that keeps the links, and fails on the third.
abbrev keep_two : Link → Bytes → ℤ → Bytes → Bytes → List Link → Option ℕ × List Link
keep_two l meta len filename name [] = (none, l ∷ [])
keep_two l meta len filename name (a ∷ []) = (none, a ∷ l ∷ [])
keep_two l meta len filename name (a ∷ b ∷ links) = (some 3, a ∷ b ∷ links)

abbrev file : String → Bytes → File ℕ
file name text = record { name = codes name; open_xz = inr (text, eof) }

abbrev entries : List Entry
entries =
    record { shortcode = codes "ab"; first = codes "x"; more = [] }
    ∷ record { shortcode = codes "cd"; first = codes "y"; more = [] }
    ∷ record { shortcode = codes "ef"; first = codes "z"; more = [] }
    ∷ []

abbrev dump : File ℕ
dump = file "p/__.txt.xz" (dump_text entries)

abbrev archive : List (File ℕ)
archive = file "_.txt.xz" [] ∷ file "p.meta.json.xz" [] ∷ dump ∷ []

entries-IsEntry : All (IsEntry 2) entries
unfolding has_newline
entries-IsEntry = (
  record {
    shortcode_length = refl;
    shortcode_line = refl;
    first_line = refl;
    more_lines = tt;
    no_return = refl;
  },
  (
    record {
      shortcode_length = refl;
      shortcode_line = refl;
      first_line = refl;
      more_lines = tt;
      no_return = refl;
    },
    (
      record {
        shortcode_length = refl;
        shortcode_line = refl;
        first_line = refl;
        more_lines = tt;
        no_return = refl;
      },
      tt,
    ),
  ),
)

entries-NoHeader : NoHeader (dump_text entries)
unfolding str_eq
entries-NoHeader = (refl, refl)

dump_len : minus (length (base dump.name)) (length txt_xz) ≡ pos 2
unfolding base
dump_len = refl

archive_classified :
    classify_files archive (codes "p.zip")
    ≡ inr (file "p.meta.json.xz" [], file "_.txt.xz" [] ∷ dump ∷ [])
unfolding classify_files has_suffix
archive_classified = refl

other_file :
    classify_files (file "p.meta.json.xz" [] ∷ file "notes" [] ∷ []) (codes "p.zip")
    ≡ inl (not_link_dump (codes "p.zip"))
unfolding classify_files has_suffix
other_file = refl

classify_files-Split_example :
    Split archive (file "p.meta.json.xz" []) (file "_.txt.xz" [] ∷ dump ∷ [])
    × All (λ f. is_dump f ≡ true) (file "_.txt.xz" [] ∷ dump ∷ [])
classify_files-Split_example = classify_files-Split archive (codes "p.zip") archive_classified

process_link_dump-Visits_example :
    Visits keep_two
      (codes "p")
      (pos 2)
      (codes "p.zip")
      dump.name
      (map entry_link entries)
      []
      (process_link_dump keep_two dump (codes "p.zip") (codes "p") [])
process_link_dump-Visits_example =
    process_link_dump-Visits keep_two dump (codes "p.zip") (codes "p") [] entries refl dump_len
      entries-IsEntry entries-NoHeader

abbrev pub open_reader : Bytes → ℕ ⊎ List (File ℕ)
open_reader filename = inr archive

abbrev pub decode : Bytes × Error → ℕ ⊎ Bytes
decode text = inr (codes "p")

abbrev pub read_dir : Bytes → ℕ ⊎ List DirEntry
read_dir [] = inr (record { name = codes "r"; is_dir = true } ∷ [])
read_dir (c ∷ s) = inr (record { name = codes "p.zip"; is_dir = true } ∷ [])

abbrev pub join : Bytes → Bytes → Bytes
join dir name = dir ++ (b'/' ∷ name)

process_releases-Ends_example :
    Ends (process_releases keep_two open_reader decode read_dir join [] []).0
process_releases-Ends_example =
    process_releases-Ends keep_two open_reader decode read_dir join [] []

abbrev asked_for : List Link
asked_for = entry_link (record { shortcode = codes "cd"; first = codes "y"; more = [] }) ∷ []

search_found :
    search_releases open_reader decode read_dir join [] (codes "p") (codes "cd" ∷ []) ≡ ok asked_for
unfolding search_releases
search_found = refl

search_releases_iff_example :
    (search_releases open_reader decode read_dir join [] (codes "p") (codes "cd" ∷ [])
      ≡ ok asked_for)
    ↔ ((releases : List DirEntry) × (all : List Link) × (read_dir [] ≡ inr releases)
        × ReleasesAdd open_reader decode read_dir join (codes "p") [] releases [] all
        × Selects (codes "cd" ∷ []) all asked_for)
search_releases_iff_example =
    search_releases_iff open_reader decode read_dir join (codes "p") [] (codes "cd" ∷ []) asked_for
