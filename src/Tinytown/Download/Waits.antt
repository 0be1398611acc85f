-- ===== src/Tinytown/Download/Waits.antt =====
-- tinytown/download.go: the loop over the torrents waits for them often enough.
use urlhero.Common.{
  ℕ, ◌+◌, ◌%◌, ◌≤◌, Option, none, some, List, [], ◌∷◌, ◌≡◌, ◌⊎◌, inl, inr, arith, Outcome, ok, err,
  panic, hang, ◌==◌, ==_iff, Bool-cases, Bytes, Source,
}
use urlhero.Web.{Response}
use urlhero.Files.{Store}
use urlhero.Tinytown.Download.{
  Event, add, download_all, wait_all, Scrape, DownloadError, save_torrent_file, after_add,
  after_add_error, after_save, with_ids, add_torrents, download_torrents, get_release_ids,
}

-- Of the torrents that are added, `cap` at most are not waited for at any time; `unwaited` of them
-- are there at the start.
abbrev pub AtMost : ℕ → ℕ → List Event → Type 0
AtMost cap unwaited [] = Unit
AtMost cap unwaited (add f ∷ events) = (unwaited + 1 ≤ cap) × AtMost cap (unwaited + 1) events
AtMost cap unwaited (download_all f ∷ events) = AtMost cap unwaited events
AtMost cap unwaited (wait_all ∷ events) = AtMost cap 0 events

module _ {E : Type 0} (http_get : Bytes → E ⊎ Response) (create : Bytes → Option E)
    (join : Bytes → Bytes → Bytes) where
  after_add-AtMost :
      (i : ℕ) (f : Bytes) (m : Outcome (DownloadError E) Unit × Store × List Event)
      → AtMost 15 ((i + 1) % 15) m.2
      → AtMost 15 (i % 15) (after_add http_get create join i f m).2
  after_add-AtMost i f (o, store, events) h = elim (Bool-cases (i % 15 == 14)) [
    | inl e ↦
        let n : i % 15 ≡ 14 = (==_iff (i % 15) 14).0 e in
        let z : (i + 1) % 15 ≡ 0 = omega arith in rw e (omega arith, rw z at h)
    | inr e ↦
        let l : i % 15 + 1 ≤ 15 = omega arith in
        let z : (i + 1) % 15 ≡ i % 15 + 1 = ground arith in rw e (l, rw z at h)
  ]

  after_add_error-AtMost :
      (i : ℕ) (f : Bytes) (store : Store) (e : Option E)
      (rest : Store → Outcome (DownloadError E) Unit × Store × List Event)
      → ((store : Store) → AtMost 15 ((i + 1) % 15) (rest store).2)
      → AtMost 15 (i % 15) (after_add_error http_get create join i f store e rest).2
  after_add_error-AtMost i f store (some e) rest h = tt
  after_add_error-AtMost i f store none rest h = after_add-AtMost i f (rest store) (h store)

  after_save-AtMost :
      (add_error : ℕ → Bytes → Option E) (i : ℕ) (m : Outcome (DownloadError E) Bytes × Store)
      (rest : Store → Outcome (DownloadError E) Unit × Store × List Event)
      → ((store : Store) → AtMost 15 ((i + 1) % 15) (rest store).2)
      → AtMost 15 (i % 15) (after_save http_get create join add_error i m rest).2
  after_save-AtMost add_error i (ok f, store) rest h =
      after_add_error-AtMost i f store (add_error i f) rest h
  after_save-AtMost add_error i (err e, store) rest h = tt
  after_save-AtMost add_error i (panic, store) rest h = tt
  after_save-AtMost add_error i (hang, store) rest h = tt

  add_torrents-AtMost :
      (add_error : ℕ → Bytes → Option E) (dir : Bytes) (i : ℕ) (ids : List Bytes) (store : Store)
      → AtMost 15 (i % 15) (add_torrents http_get create join add_error dir i ids store).2
  unfolding add_torrents
  add_torrents-AtMost add_error dir i [] store = tt
  add_torrents-AtMost add_error dir i (id ∷ ids) store =
      after_save-AtMost add_error i (save_torrent_file http_get create join id dir store)
        (add_torrents http_get create join add_error dir (i + 1) ids)
        (add_torrents-AtMost add_error dir (i + 1) ids)

  with_ids-AtMost :
      (o : Outcome (DownloadError E) (List Bytes)) (store : Store)
      (go : List Bytes → Outcome (DownloadError E) Unit × Store × List Event)
      → ((ids : List Bytes) → AtMost 15 0 (go ids).2)
      → AtMost 15 0 (with_ids http_get create join o store go).2
  with_ids-AtMost (ok ids) store go h = h ids
  with_ids-AtMost (err e) store go h = tt
  with_ids-AtMost panic store go h = tt
  with_ids-AtMost hang store go h = tt

  -- Whatever the servers answer, `DownloadTorrents` never has more than 15 torrents added that it
  -- has not waited for.
  pub download_torrents-AtMost :
      (decode : Source → E ⊎ Scrape) (new_client : Option E) (add_error : ℕ → Bytes → Option E)
      (dir : Bytes) (store : Store)
      → AtMost 15 0 (download_torrents http_get create join decode new_client add_error dir store).2
  unfolding download_torrents
  download_torrents-AtMost decode none add_error dir store =
      with_ids-AtMost (get_release_ids http_get decode) store _
        (λ ids. add_torrents-AtMost add_error dir 0 ids store)
  download_torrents-AtMost decode (some e) add_error dir store =
      with_ids-AtMost (get_release_ids http_get decode) store _ (λ ids. tt)
