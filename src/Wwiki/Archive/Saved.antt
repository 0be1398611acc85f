-- ===== src/Wwiki/Archive/Saved.antt =====
-- shorteners/w-wiki/download.go: what a run of `DownloadIADumps` that succeeds leaves on disk.
use urlhero.Common.{
  Option, some, List, [], ◌∷◌, ◌≡◌, ◌⊎◌, inl, inr, refl, sym, subst, Outcome, ok, err, panic, hang,
  All, Bytes, base, Source, IoError,
}
use urlhero.Web.{Response, Values}
use urlhero.Files.{Store}
use urlhero.Wwiki.{DumpError, next, with_dumps}
use urlhero.Ia.Item.{page_url}
use urlhero.Wwiki.Download.Saved.{Holds, Keeps, download_dump-Holds, download_dump-Keeps}
use urlhero.Wwiki.Archive.{IaDumpInfo, get_ia_dumps, save_ia_dump, save_ia_dumps, download_ia_dumps}

module _ {E T U : Type 0} (http_get : Bytes → E ⊎ Response) (create : Bytes → Option E)
    (open_error : Bytes → Option IoError) (parse_time : Bytes → E ⊎ T)
    (chtimes : Bytes → T → Option E) (md5 sha1 crc32 : Bytes → Bytes) (join : Bytes → Bytes → Bytes)
    (url_path : U → Bytes) (parse : Bytes → E ⊎ U) (dir : Bytes) where
  -- The dump is in the directory, under the last part of its URL's path, with its digest.
  abbrev pub InDir : Store → IaDumpInfo → Type 0
  InDir store dump =
      (u : U) × (parse dump.url ≡ inr u) × Holds sha1 dump.sha1 (join dir (base (url_path u))) store

  -- the whole of one round
  abbrev round : IaDumpInfo → E ⊎ U → Store → Outcome (DumpError E) Unit × Store
  round =
      save_ia_dump http_get create open_error parse_time chtimes md5 sha1 crc32 join url_path dir

  abbrev rounds : List IaDumpInfo → Store → Outcome (DumpError E) Unit × Store
  rounds =
      save_ia_dumps http_get create open_error parse_time chtimes md5 sha1 crc32 join url_path parse
        dir

  Holds-Keeps :
      (sum out : Bytes) (store store' : Store)
      → Keeps store store'
      → Holds sha1 sum out store
      → Holds sha1 sum out store'
  Holds-Keeps sum out store store' keeps (text, there, is_sum) =
      (text, keeps out text there, is_sum)

  round-Keeps : (dump : IaDumpInfo) (u : E ⊎ U) (store : Store) → Keeps store (round dump u store).1
  round-Keeps dump (inl e) store = λ path text h. h
  round-Keeps dump (inr u) store =
      download_dump-Keeps http_get create open_error parse_time chtimes md5 sha1 crc32
        (page_url dump.url dump.timestamp) (join dir (base (url_path u))) (some dump.sha1) store

  round-Holds :
      (dump : IaDumpInfo) (u : E ⊎ U) (store : Store)
      → parse dump.url ≡ u
      → (round dump u store).0 ≡ ok tt
      → InDir (round dump u store).1 dump
  round-Holds dump (inl e) store p h = cc
  round-Holds dump (inr u) store p h = (
    u,
    p,
    download_dump-Holds http_get create open_error parse_time chtimes md5 sha1 crc32
        (page_url dump.url dump.timestamp) (join dir (base (url_path u))) dump.sha1 store h,
  )

  -- Where the whole comes to no error, so did the first part, and the rest went on from there.
  next-ok :
      (again : Store → Outcome (DumpError E) Unit × Store) (m : Outcome (DumpError E) Unit × Store)
      → (next again m).0 ≡ ok tt
      → (m.0 ≡ ok tt) × ((again m.1).0 ≡ ok tt) × (next again m ≡ again m.1)
  next-ok again (ok _, store) h = (refl, h, refl)
  next-ok again (err e, store) h = cc
  next-ok again (panic, store) h = cc
  next-ok again (hang, store) h = cc

  next-Keeps :
      (again : Store → Outcome (DumpError E) Unit × Store) (store : Store)
      (m : Outcome (DumpError E) Unit × Store)
      → Keeps store m.1
      → ((store : Store) → Keeps store (again store).1)
      → Keeps store (next again m).1
  next-Keeps again store (ok _, store') h k = λ path text p. k store' path text (h path text p)
  next-Keeps again store (err e, store') h k = h
  next-Keeps again store (panic, store') h k = h
  next-Keeps again store (hang, store') h k = h

  rounds-Keeps : (dumps : List IaDumpInfo) (store : Store) → Keeps store (rounds dumps store).1
  unfolding save_ia_dumps
  rounds-Keeps [] store = λ path text h. h
  rounds-Keeps (dump ∷ dumps) store =
      next-Keeps (rounds dumps) store (round dump (parse dump.url) store)
        (round-Keeps dump (parse dump.url) store) (rounds-Keeps dumps)

  rounds-InDir :
      (dumps : List IaDumpInfo) (store : Store)
      → (rounds dumps store).0 ≡ ok tt
      → All (InDir (rounds dumps store).1) dumps
  unfolding save_ia_dumps
  rounds-InDir [] store h = tt
  rounds-InDir (dump ∷ dumps) store h =
      let m = round dump (parse dump.url) store in
      let (first, rest, same) = next-ok (rounds dumps) m h in
      let (u, p, holds) = round-Holds dump (parse dump.url) store refl first in
      subst (λ r. All (InDir r.1) (dump ∷ dumps)) (sym same)
        (
          (
            u,
            p,
            Holds-Keeps dump.sha1 (join dir (base (url_path u))) m.1 (rounds dumps m.1).1
                (rounds-Keeps dumps m.1) holds,
          ),
          rounds-InDir dumps m.1 rest,
        )

  with_dumps-InDir :
      (o : Outcome (DumpError E) (List IaDumpInfo)) (store : Store)
      → (with_dumps o store rounds).0 ≡ ok tt
      → (dumps : List IaDumpInfo) × (o ≡ ok dumps) × All (InDir (with_dumps o store rounds).1) dumps
  with_dumps-InDir (ok dumps) store h = (dumps, refl, rounds-InDir dumps store h)
  with_dumps-InDir (err e) store h = cc
  with_dumps-InDir panic store h = cc
  with_dumps-InDir hang store h = cc

  -- Where `DownloadIADumps` succeeds, every dump that `GetIADumps` returned is in the directory, under
  -- the last part of its URL's path, with a content of which its digest is the SHA-1.
  pub download_ia_dumps-InDir :
      (encode : Values → Bytes) (decode : Source → E ⊎ List (List Bytes)) (store : Store)
      → (download_ia_dumps http_get create open_error parse_time chtimes md5 sha1 crc32 join
          url_path parse encode decode dir store).0
        ≡ ok tt
      → (dumps : List IaDumpInfo) × (get_ia_dumps http_get encode decode ≡ ok dumps)
        × All
            (InDir
              (download_ia_dumps http_get create open_error parse_time chtimes md5 sha1 crc32 join
                url_path parse encode decode dir store).1)
            dumps
  unfolding download_ia_dumps
  download_ia_dumps-InDir encode decode store h =
      with_dumps-InDir (get_ia_dumps http_get encode decode) store h
