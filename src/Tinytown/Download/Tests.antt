-- ===== src/Tinytown/Download/Tests.antt =====
-- Runs of the downloads, and their theorems at concrete inputs.
use urlhero.Common.{
  ℕ, Option, none, some, [], ◌∷◌, ◌++◌, ◌≡◌, ◌⊎◌, inr, refl, Bytes, codes, eof, Source, other,
  content, ok, err, false,
}
use urlhero.Web.{Response, copy_error}
use urlhero.Files.{Store, read_file, has_file}
use urlhero.Tinytown.Download.{Scrape, get_ok, save_file, download_torrents}
use urlhero.Tinytown.Download.Waits.{AtMost, download_torrents-AtMost}
use urlhero.Tinytown.Download.Saved.{Fetched, save_file_partial, save_file-Fetched}

abbrev join : Bytes → Bytes → Bytes
join dir name = dir ++ (b'/' ∷ name)

-- A server whose answers break off.
abbrev cut : Response
cut = record {
  status_code = 200;
  status = codes "200 OK";
  header = λ key. [];
  body = record { chunks = []; last = codes "d8:an"; final = other 7 };
}

abbrev broken : Bytes → ℕ ⊎ Response
broken url = inr cut

-- A server whose answers are whole.
abbrev whole : Bytes → ℕ ⊎ Response
whole url = inr (record {
  status_code = 200;
  status = codes "200 OK";
  header = λ key. [];
  body = record { chunks = []; last = codes "d8:announce"; final = eof };
})

abbrev created : Bytes → Option ℕ
created filename = none

abbrev two_ids : Source → ℕ ⊎ Scrape
two_ids body = inr (record { identifiers = codes "a" ∷ codes "b" ∷ []; count = 2; total = 2 })

none_there : has_file (codes "f") [] ≡ false
unfolding read_file
none_there = refl

whole_saved : (save_file whole created (codes "u") (codes "f") []).0 ≡ ok tt
unfolding save_file get_ok
whole_saved = refl

save_file-Fetched_example :
    Fetched whole (codes "u") (codes "f") (save_file whole created (codes "u") (codes "f") []).1
save_file-Fetched_example =
    save_file-Fetched whole created (codes "u") (codes "f") [] none_there whole_saved

save_file_partial_example :
    (store' : Store) × (save_file broken created (codes "u") (codes "f") []
      ≡ (err (copy_error 7), store'))
    × (read_file (codes "f") store' ≡ some (content cut.body))
    × ((http_get' : Bytes → ℕ ⊎ Response) (create' : Bytes → Option ℕ)
        → save_file http_get' create' (codes "u") (codes "f") store' ≡ (ok tt, store'))
save_file_partial_example =
    save_file_partial broken created (codes "u") (codes "f") [] cut 7 none_there refl refl refl refl

download_torrents-AtMost_example :
    AtMost 15 0 (download_torrents whole created join two_ids none (λ i f. none) (codes "d") []).2
download_torrents-AtMost_example =
    download_torrents-AtMost whole created join two_ids none (λ i f. none) (codes "d") []
