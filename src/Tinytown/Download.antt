-- ===== src/Tinytown/Download.antt =====
-- tinytown/download.go and tinytown/transmission.go. `http_get` is `http.Get`, and `create` gives the
-- error of `os.Create`, if any. The state is the files that are saved.
pub mod Waits
pub mod Saved
mod Tests
use urlhero.Common.{
  ℕ, Bool, true, false, not, Option, none, some, List, [], ◌∷◌, ◌++◌, ◌⊎◌, inl, inr, Outcome, ok,
  err, panic, hang, ◌>>=◌, Bytes, codes, str_eq, ◌==◌, ◌+◌, ◌%◌, if◌then◌else◌, map, base, Source,
  content,
}
use urlhero.Web.{Response, WebError, external, or_external, require_ok, copy_result}
use urlhero.Files.{Store, read_file, write_file, has_file}

-- The answer of the search, the fields that are read.
pub record Scrape : Type 0 where
  pub identifiers : List Bytes
  pub count : ℕ
  pub total : ℕ

pub data DownloadError (E : Type 0) : Type 0 where
  web : WebError E → DownloadError E
  queried : ℕ → ℕ → DownloadError E

-- What the loop calls of the torrent client.
pub data Event : Type 0 where
  add : Bytes → Event
  download_all : Bytes → Event
  wait_all : Event

abbrev pub scrape_url : Bytes
scrape_url =
    codes "https://archive.org/services/search/v1/scrape?q=subject:terroroftinytown&count=10000"

abbrev pub torrent_url : Bytes → Bytes
torrent_url id =
    codes "https://archive.org/download/" ++ (id ++ (codes "/" ++ (id ++ codes "_archive.torrent")))

abbrev pub as_web : {E A : Type 0} → Outcome (WebError E) A → Outcome (DownloadError E) A
as_web (ok a) = ok a
as_web (err e) = err (web e)
as_web panic = panic
as_web hang = hang

module _ {E : Type 0} (http_get : Bytes → E ⊎ Response) where
  -- `httpGet`
  unfoldable pub get_ok : Bytes → Outcome (WebError E) Response
  unfolding require_ok
  get_ok url = require_ok (http_get url)

  abbrev pub check_count : Scrape → Outcome (DownloadError E) (List Bytes)
  check_count items =
      if not (items.count == items.total)
      then err (queried items.count items.total)
      else ok items.identifiers

  -- `GetReleaseIDs`; `decode` is `jsonutil.Decode`
  unfoldable pub get_release_ids : (Source → E ⊎ Scrape) → Outcome (DownloadError E) (List Bytes)
  unfolding get_ok
  get_release_ids decode = do
    resp ← as_web (get_ok scrape_url)
    items ← as_web (or_external (decode resp.body))
    check_count items

  module _ (create : Bytes → Option E) where
    -- `saveFile` after `os.Create`. What was read is in the file also where the copy fails.
    abbrev pub save_created :
        Bytes → Store → Response → Option E → Outcome (WebError E) Unit × Store
    save_created filename store resp (some e) = (err (external e), store)
    save_created filename store resp none =
        (copy_result resp.body.final, write_file filename (content resp.body) store)

    -- `saveFile` from the answer on
    abbrev pub save_answer :
        Bytes → Store → Outcome (WebError E) Response → Outcome (WebError E) Unit × Store
    save_answer filename store (ok resp) = save_created filename store resp (create filename)
    save_answer filename store (err e) = (err e, store)
    save_answer filename store panic = (panic, store)
    save_answer filename store hang = (hang, store)

    unfoldable pub save_file : Bytes → Bytes → Store → Outcome (WebError E) Unit × Store
    unfolding get_ok read_file
    save_file url filename store =
        if has_file filename store then (ok tt, store) else save_answer filename store (get_ok url)

    module _ (join : Bytes → Bytes → Bytes) where
      abbrev pub torrent_path : Bytes → Bytes → Bytes
      torrent_path dir id = join dir (base (torrent_url id))

      -- `saveTorrentFile`
      abbrev pub save_torrent_file : Bytes → Bytes → Store → Outcome (DownloadError E) Bytes × Store
      save_torrent_file id dir store =
          let (o, store') = save_file (torrent_url id) (torrent_path dir id) store in
          (as_web (o >>= λ _. ok (torrent_path dir id)), store')

      -- The loop of `DownloadTorrents` from round `i` on, with what it calls of the client;
      -- `add_error i` is the error of `AddTorrentFromFile` in that round.
      abbrev pub after_add :
          ℕ
          → Bytes
          → Outcome (DownloadError E) Unit × Store × List Event
          → Outcome (DownloadError E) Unit × Store × List Event
      after_add i filename (o, store, events) = (
        o,
        store,
        add filename ∷ download_all filename ∷ (if i % 15 == 14 then wait_all ∷ events else events),
      )

      abbrev pub after_add_error :
          ℕ
          → Bytes
          → Store
          → Option E
          → (Store → Outcome (DownloadError E) Unit × Store × List Event)
          → Outcome (DownloadError E) Unit × Store × List Event
      after_add_error i filename store (some e) rest = (err (web (external e)), store, [])
      after_add_error i filename store none rest = after_add i filename (rest store)

      abbrev pub after_save :
          (ℕ → Bytes → Option E)
          → ℕ
          → Outcome (DownloadError E) Bytes × Store
          → (Store → Outcome (DownloadError E) Unit × Store × List Event)
          → Outcome (DownloadError E) Unit × Store × List Event
      after_save add_error i (ok filename, store) rest =
          after_add_error i filename store (add_error i filename) rest
      after_save add_error i (err e, store) rest = (err e, store, [])
      after_save add_error i (panic, store) rest = (panic, store, [])
      after_save add_error i (hang, store) rest = (hang, store, [])

      unfoldable pub add_torrents :
          (ℕ → Bytes → Option E)
          → Bytes
          → ℕ
          → List Bytes
          → Store
          → Outcome (DownloadError E) Unit × Store × List Event
      unfolding save_file base
      add_torrents add_error dir i [] store = (ok tt, store, wait_all ∷ [])
      add_torrents add_error dir i (id ∷ ids) store =
          after_save add_error i (save_torrent_file id dir store)
            (add_torrents add_error dir (i + 1) ids)

      abbrev pub with_ids :
          Outcome (DownloadError E) (List Bytes)
          → Store
          → (List Bytes → Outcome (DownloadError E) Unit × Store × List Event)
          → Outcome (DownloadError E) Unit × Store × List Event
      with_ids (ok ids) store go = go ids
      with_ids (err e) store go = (err e, store, [])
      with_ids panic store go = (panic, store, [])
      with_ids hang store go = (hang, store, [])

      -- `DownloadTorrents`; `new_client` is the error of `torrent.NewClient`, if any
      unfoldable pub download_torrents :
          (Source → E ⊎ Scrape)
          → Option E
          → (ℕ → Bytes → Option E)
          → Bytes
          → Store
          → Outcome (DownloadError E) Unit × Store × List Event
      unfolding get_release_ids add_torrents
      download_torrents decode new_client add_error dir store =
          with_ids (get_release_ids decode) store λ ids. elim new_client [
            | some e ↦ (err (web (external e)), store, [])
            | none ↦ add_torrents add_error dir 0 ids store
          ]
