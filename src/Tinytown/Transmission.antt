-- ===== src/Tinytown/Transmission.antt =====
-- tinytown/transmission.go. `rpc_version` is what `RPCVersion` answers, without the numbers that are
-- put in the error, and `add_error i` the error of `TorrentAddFileDownloadDir` in round `i`.
use urlhero.Common.{
  ℕ, Bool, true, false, Option, none, some, List, [], ◌∷◌, ◌⊎◌, inl, inr, Outcome, ok, err, panic,
  hang, Bytes, ◌+◌, Source,
}
use urlhero.Web.{Response}
use urlhero.Files.{Store}
use urlhero.Tinytown.Download.{Scrape, DownloadError, get_release_ids, save_torrent_file}

pub data TransmissionError (E : Type 0) : Type 0 where
  download : DownloadError E → TransmissionError E
  rpc : E → TransmissionError E
  incompatible : TransmissionError E

module _ {E : Type 0} where
  unfoldable pub check_version : E ⊎ Bool → Outcome (TransmissionError E) Unit
  check_version (inl e) = err (rpc e)
  check_version (inr false) = err incompatible
  check_version (inr true) = ok tt

-- The files that are added to the client, in order, come back with the store.
module _ {E : Type 0} (http_get : Bytes → E ⊎ Response) (create : Bytes → Option E)
    (join : Bytes → Bytes → Bytes) (add_error : ℕ → Bytes → Option E) where
  abbrev pub Run : Type 0
  Run = Outcome (TransmissionError E) Unit × Store × List Bytes

  abbrev pub after_file : Bytes → Store → Option E → (Store → Run) → Run
  after_file filename store (some e) rest = (err (rpc e), store, [])
  after_file filename store none rest =
      let (o, store', added) = rest store in (o, store', filename ∷ added)

  abbrev pub after_torrent : ℕ → Outcome (DownloadError E) Bytes × Store → (Store → Run) → Run
  after_torrent i (ok filename, store) rest = after_file filename store (add_error i filename) rest
  after_torrent i (err e, store) rest = (err (download e), store, [])
  after_torrent i (panic, store) rest = (panic, store, [])
  after_torrent i (hang, store) rest = (hang, store, [])

  -- the loop of `DownloadTransmission` from round `i` on
  unfoldable pub add_all : Bytes → ℕ → List Bytes → Store → Run
  add_all dir i [] store = (ok tt, store, [])
  add_all dir i (id ∷ ids) store =
      after_torrent i (save_torrent_file http_get create join id dir store)
        (add_all dir (i + 1) ids)

  abbrev pub add_ids : Bytes → Store → Outcome (DownloadError E) (List Bytes) → Run
  add_ids dir store (ok ids) = add_all dir 0 ids store
  add_ids dir store (err e) = (err (download e), store, [])
  add_ids dir store panic = (panic, store, [])
  add_ids dir store hang = (hang, store, [])

  abbrev pub versioned : Outcome (TransmissionError E) Unit → Store → Run → Run
  versioned (ok _) store run = run
  versioned (err e) store run = (err e, store, [])
  versioned panic store run = (panic, store, [])
  versioned hang store run = (hang, store, [])

  unfoldable pub download_transmission : E ⊎ Bool → (Source → E ⊎ Scrape) → Bytes → Store → Run
  unfolding check_version get_release_ids add_all
  download_transmission rpc_version decode dir store =
      versioned (check_version rpc_version) store
        (add_ids dir store (get_release_ids http_get decode))
