-- ===== src/Commands/Tests.antt =====
-- Runs of the programs, and their theorems at concrete inputs.
use urlhero.Common.{
  ℕ, Bool, true, false, none, some, List, [], ◌∷◌, inl, ap, has_prefix, ◌≡◌, ◌⊎◌, inr, refl, Bytes,
  codes, Source, eof,
}
use urlhero.Web.{Response, Values}
use urlhero.Shorteners.{Url, Shortener, checked_clean_url}
use urlhero.Shorteners.Insertion.{insertion_sort, insertion_sort-SortsSlices}
use urlhero.Tinytown.Releases.{process_releases}
use urlhero.Tinytown.Search.Filter.{collect}
use urlhero.Tinytown.Tests.{open_reader, decode, read_dir, join}
use urlhero.Commands.Exits.{Ending, exit, try}
use urlhero.Commands.Mains.{getiashortcodes, urlgrep}
use urlhero.Commands.Downloads.{dltorrents}
use urlhero.Commands.Grep.{matching, urlgrep-collect}
use urlhero.Commands.Shortcodes.{Names, PrintsCodes, getiashortcodes-PrintsCodes}
use urlhero.Commands.{made_shortener, find_shortener}

abbrev compile : Bytes → ℕ ⊎ (Bytes → Bool)
compile pattern = inr (λ s. true)

by_host : (made_shortener (codes "a.ll.st") [] none).name ≡ codes "a-ll-st"
unfolding made_shortener
by_host = refl

by_name : (made_shortener (codes "qr-cx") [] none).host ≡ codes "qr.cx"
unfolding made_shortener
by_name = refl

with_alphabet :
    find_shortener compile [] (codes "x.yz") (codes "a-z")
    ≡ inr (made_shortener (codes "x.yz") (codes "a-z") (some (λ s. true)))
unfolding find_shortener
with_alphabet = refl

abbrev starts_a : Bytes → Bool
starts_a s = has_prefix s (codes "a")

abbrev any_pattern : Bytes → ℕ ⊎ (Bytes → Bool)
any_pattern pattern = inr starts_a

urlgrep-collect_example :
    urlgrep any_pattern open_reader decode read_dir join ([] ∷ codes "^a" ∷ []) ≡ (
      try (process_releases collect open_reader decode read_dir join [] []).0,
      matching starts_a (process_releases collect open_reader decode read_dir join [] []).1,
    )
urlgrep-collect_example =
    urlgrep-collect any_pattern open_reader decode read_dir join [] (codes "^a") starts_a refl

abbrev parse_path : Bytes → Bytes ⊎ Url
parse_path s = inr (record { hostname = []; path = s; query = λ key. [] })

abbrev answer : Bytes → ℕ ⊎ Response
answer url = inr (record {
  status_code = 200;
  status = codes "200 OK";
  header = λ key. [];
  body = record { chunks = []; last = codes "[]"; final = eof };
})

abbrev values : Values → Bytes
values q = []

abbrev captures : Source → ℕ ⊎ List (List Bytes)
captures body = inr (
    (codes "original" ∷ [])
    ∷ (codes "/zeta" ∷ [])
    ∷ (codes "/abc)" ∷ [])
    ∷ (codes "/zeta/" ∷ [])
    ∷ (codes "/robots.txt" ∷ [])
    ∷ [])

abbrev run : List Bytes → Ending × List Bytes
run args = getiashortcodes compile answer values captures parse_path insertion_sort [] args

runs : run (codes "x.yz" ∷ []) ≡ (exit 0, codes "abc" ∷ codes "zeta" ∷ [])
unfolding getiashortcodes insertion_sort checked_clean_url
runs = refl

getiashortcodes-PrintsCodes_example :
    (s : Shortener) × Names compile answer values captures parse_path insertion_sort-SortsSlices []
      (codes "x.yz" ∷ [])
      s
    × PrintsCodes compile answer values captures parse_path insertion_sort-SortsSlices [] s
        (run (codes "x.yz" ∷ [])).1
getiashortcodes-PrintsCodes_example =
    getiashortcodes-PrintsCodes compile answer values captures parse_path insertion_sort-SortsSlices
      [] (codes "x.yz" ∷ []) (ap (λ r. r.0) runs)

wrong_count : run [] ≡ (exit 2, [])
unfolding getiashortcodes
wrong_count = refl

missing_dir :
    dltorrents {E = ℕ}
      (λ url. inl 0)
      (λ path. none)
      join
      (λ s. inl 0)
      none
      (λ i path. none)
      (λ path. false)
      (codes "d" ∷ [])
      []
    ≡ (exit 1, [], [])
unfolding dltorrents
missing_dir = refl
