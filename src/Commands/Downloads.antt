-- ===== src/Commands/Downloads.antt =====
-- cmd/dlwwiki and cmd/dltorrents: the arguments after the program's name, the files, and how the program
-- ends. Parameters are as in `Wwiki.Archive` and `Tinytown.Download`.
use urlhero.Common.{
  ℕ, Bool, not, Option, List, [], ◌∷◌, ◌⊎◌, Bytes, Source, IoError, if◌then◌else◌, Outcome,
}
use urlhero.Files.{Store}
use urlhero.Web.{Response, Values}
use urlhero.Wwiki.Html.{Node}
use urlhero.Wwiki.Archive.{download_dumps, download_ia_dumps}
use urlhero.Tinytown.Download.{Scrape, DownloadError, Event, download_torrents}
use urlhero.Commands.Exits.{Ending, exit, try, try_then, usage}

module _ {E T U D : Type 0} (http_get : Bytes → E ⊎ Response) (create : Bytes → Option E)
    (open_error : Bytes → Option IoError) (parse_time : Bytes → E ⊎ T)
    (chtimes : Bytes → T → Option E) (md5 sha1 crc32 : Bytes → Bytes) (join : Bytes → Bytes → Bytes)
    (url_path url_string : U → Bytes) (parse : Bytes → E ⊎ U) (resolve : U → U)
    (parse_date : Bytes → E ⊎ D) (parse_html : Source → E ⊎ Node) (encode : Values → Bytes)
    (decode : Source → E ⊎ List (List Bytes)) where
  -- the second call
  abbrev pub download_archived : Bytes → Store → Ending × Store
  download_archived dir store =
      try_then
        (download_ia_dumps http_get create open_error parse_time chtimes md5 sha1 crc32 join
          url_path parse encode decode dir store)
        (λ store'. (exit 0, store'))

  -- `dlwwiki`
  unfoldable pub dlwwiki : List Bytes → Store → Ending × Store
  unfolding download_dumps download_ia_dumps
  dlwwiki [] store = (usage, store)
  dlwwiki (dir ∷ []) store =
      try_then
        (download_dumps http_get create open_error parse_time chtimes md5 sha1 crc32 join url_path
          url_string parse resolve parse_date parse_html dir store)
        (download_archived dir)
  dlwwiki (dir ∷ more ∷ args) store = (usage, store)

module _ {E : Type 0} (http_get : Bytes → E ⊎ Response) (create : Bytes → Option E)
    (join : Bytes → Bytes → Bytes) (decode : Source → E ⊎ Scrape) (new_client : Option E)
    (add_error : ℕ → Bytes → Option E) (exists : Bytes → Bool) where
  abbrev pub ended :
      Outcome (DownloadError E) Unit × Store × List Event → Ending × Store × List Event
  ended (r, store, events) = (try r, store, events)

  -- `dltorrents`; `exists` tells that `os.Stat` gives another error than that of a missing file, or none
  unfoldable pub dltorrents : List Bytes → Store → Ending × Store × List Event
  unfolding download_torrents
  dltorrents [] store = (usage, store, [])
  dltorrents (dir ∷ []) store =
      if not (exists dir)
      then (exit 1, store, [])
      else ended (download_torrents http_get create join decode new_client add_error dir store)
  dltorrents (dir ∷ more ∷ args) store = (usage, store, [])
