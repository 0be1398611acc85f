-- ===== src/Commands/Dumps.antt =====
-- cmd/dlwwiki: the files of a run that succeeds.
use urlhero.Common.{
  Option, List, [], ◌∷◌, ◌⊎◌, ◌≡◌, refl, ap, sym, subst, ◌∙◌, arith, Bytes, Source, IoError,
  Outcome, ok, err, panic, hang, All,
}
use urlhero.Files.{Store}
use urlhero.Web.{Response, Values}
use urlhero.Wwiki.Html.{Node}
use urlhero.Wwiki.Archive.{IaDumpInfo, get_ia_dumps, download_dumps, download_ia_dumps}
use urlhero.Wwiki.Archive.Saved.{InDir, download_ia_dumps-InDir}
use urlhero.Commands.Exits.{Ending, exit, try_then}
use urlhero.Commands.Downloads.{dlwwiki, download_archived}

-- What follows `try` ran where the program ends well.
pub try_then-zero :
    {E A S : Type 0} (m : Outcome E A × S) (rest : S → Ending × S)
    → (try_then m rest).0 ≡ exit 0
    → (a : A) × (s : S) × (m ≡ (ok a, s)) × ((rest s).0 ≡ exit 0) × (try_then m rest ≡ rest s)
try_then-zero (ok a, s) rest h = (a, s, refl, h, refl)
try_then-zero (err e, s) rest h = absurd (ground arith)
try_then-zero (panic, s) rest h = absurd (ground arith)
try_then-zero (hang, s) rest h = absurd (ground arith)

module _ {E T U D : Type 0} (http_get : Bytes → E ⊎ Response) (create : Bytes → Option E)
    (open_error : Bytes → Option IoError) (parse_time : Bytes → E ⊎ T)
    (chtimes : Bytes → T → Option E) (md5 sha1 crc32 : Bytes → Bytes) (join : Bytes → Bytes → Bytes)
    (url_path url_string : U → Bytes) (parse : Bytes → E ⊎ U) (resolve : U → U)
    (parse_date : Bytes → E ⊎ D) (parse_html : Source → E ⊎ Node) (encode : Values → Bytes)
    (decode : Source → E ⊎ List (List Bytes)) where
  -- what holds of the files after a run in a directory
  abbrev pub HasDumps : Bytes → Store → Type 0
  HasDumps dir store =
      (dumps : List IaDumpInfo) × (get_ia_dumps http_get encode decode ≡ ok dumps)
      × All
          (InDir http_get create open_error parse_time chtimes md5 sha1 crc32 join url_path parse
            dir store)
          dumps

  archived-HasDumps :
      (dir : Bytes) (store : Store)
      → (download_archived http_get create open_error parse_time chtimes md5 sha1 crc32 join
          url_path url_string parse resolve parse_date parse_html encode decode dir store).0
        ≡ exit 0
      → HasDumps dir
          (download_archived http_get create open_error parse_time chtimes md5 sha1 crc32 join
            url_path url_string parse resolve parse_date parse_html encode decode dir store).1
  archived-HasDumps dir store h =
      let (_, s, e, _, same) =
        try_then-zero
          (download_ia_dumps http_get create open_error parse_time chtimes md5 sha1 crc32 join
            url_path parse encode decode dir store)
          (λ store'. (exit 0, store')) h in
      let (dumps, listed, saved) =
        download_ia_dumps-InDir http_get create open_error parse_time chtimes md5 sha1 crc32 join
          url_path parse dir encode decode store (ap (λ r. r.0) e) in
      subst (λ st. HasDumps dir st) (ap (λ r. r.1) e ∙ sym (ap (λ r. r.1) same))
        (dumps, listed, saved)

  -- Where `dlwwiki` ends with status 0, its one argument is a directory in which every dump that
  -- `GetIADumps` returns is, under the last part of its URL's path, with a content of its digest.
  pub dlwwiki-HasDumps :
      (args : List Bytes) (store : Store)
      → (dlwwiki http_get create open_error parse_time chtimes md5 sha1 crc32 join url_path
          url_string parse resolve parse_date parse_html encode decode args store).0
        ≡ exit 0
      → (dir : Bytes) × (args ≡ dir ∷ [])
        × HasDumps dir
            (dlwwiki http_get create open_error parse_time chtimes md5 sha1 crc32 join url_path
              url_string parse resolve parse_date parse_html encode decode args store).1
  unfolding dlwwiki
  dlwwiki-HasDumps [] store h = absurd (ground arith)
  dlwwiki-HasDumps (dir ∷ more ∷ args) store h = absurd (ground arith)
  dlwwiki-HasDumps (dir ∷ []) store h =
      let (_, s, _, k, same) =
        try_then-zero
          (download_dumps http_get create open_error parse_time chtimes md5 sha1 crc32 join url_path
            url_string parse resolve parse_date parse_html dir store)
          (download_archived http_get create open_error parse_time chtimes md5 sha1 crc32 join
            url_path url_string parse resolve parse_date parse_html encode decode dir)
          h in
      (
        dir,
        refl,
        subst (λ st. HasDumps dir st) (sym (ap (λ r. r.1) same)) (archived-HasDumps dir s k),
      )
