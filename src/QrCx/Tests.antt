-- ===== src/QrCx/Tests.antt =====
-- Runs on a small dump, and the theorems on it at concrete inputs.
use urlhero.Common.{
  ℕ, Option, none, some, List, [], ◌∷◌, ◌++◌, ◌≡◌, ◌↔◌, ◌⊎◌, inl, inr, refl, ok, err, Bytes, codes,
  base, content, has_suffix,
}
use urlhero.Common as Io
use urlhero.Web.{Response}
use urlhero.QrCx.{Link, eof, CsvReader, not_csv, download_dump, open_dump, read_all}
use urlhero.QrCx.Rows.{Rows, read_all_iff}
use urlhero.QrCx.Saved.{dump_name, Saved, download_dump_iff}

abbrev same : Bytes → ℕ ⊎ Bytes
same s = inr s

abbrev dump : CsvReader ℕ
dump = record {
  records =
      inr (codes "http://qr.cx/1" ∷ codes "http://a.example/" ∷ codes "2008-11-01 00:00:00" ∷ [])
      ∷ [];
  final = eof;
}

abbrev links : List (Link Bytes)
links =
    record {
      short_url = codes "http://qr.cx/1";
      url = codes "http://a.example/";
      creation_date = codes "2008-11-01 00:00:00";
    }
    ∷ []

links_read : read_all same dump ≡ ok links
unfolding read_all
links_read = refl

read_all_iff_example :
    (read_all same dump ≡ ok links) ↔ ((dump.final ≡ eof) × Rows same dump.records links)
read_all_iff_example = read_all_iff same dump links

not_a_dump : open_dump same (λ f. dump) (codes "dump.7z") ≡ inl (not_csv (codes "dump.7z"))
unfolding open_dump
not_a_dump = refl

-- A page that says that the dump is not there.
abbrev missing : Response
missing = record {
  status_code = 404;
  status = codes "404 Not Found";
  header = λ key. [];
  body = record { chunks = []; last = codes "<html>"; final = Io.eof };
}

abbrev answer : Bytes → ℕ ⊎ Response
answer url = inr missing

abbrev created : Bytes → Option ℕ
created path = none

abbrev join : Bytes → Bytes → Bytes
join dir name = dir ++ (b'/' ∷ name)

download_dump_iff_example :
    ((download_dump answer created join (codes "d") []).0 ≡ ok tt)
    ↔ Saved answer created join (codes "d") [] (download_dump answer created join (codes "d") []).1
download_dump_iff_example = download_dump_iff answer created join (codes "d") []

-- The page of an error is saved.
error_page :
    download_dump answer created join (codes "d") []
    ≡ (ok tt, (join (codes "d") dump_name, codes "<html>") ∷ [])
unfolding download_dump base
error_page = refl
