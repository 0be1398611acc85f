-- ===== src/Wwiki/Archive.antt =====
-- shorteners/w-wiki/download.go: the dumps that the archive has, and the downloads of all dumps.
-- Parameters are as in `Wwiki.Dumps` and `Wwiki.Download`; `url_path` is the field `Path` of a URL and
-- `url_string` its method `String`, `encode` and `decode` are those of `Ia.Timemap`.
pub mod Rows
pub mod Saved
use urlhero.Common.{
  ℕ, Bool, true, false, not, ◌&&◌, ◌||◌, Option, none, some, List, [], ◌∷◌, ◌++◌, ◌⊎◌, inl, inr,
  Outcome, ok, err, panic, hang, ◌>>=◌, Bytes, codes, str_eq, if◌then◌else◌, pos, base, Source,
  IoError,
}
use urlhero.Web.{Response, Values}
use urlhero.Files.{Store}
use urlhero.Ia.Digest.{decode_digest}
use urlhero.Ia.Timemap.{TimemapOptions, get_timemap}
use urlhero.Ia.Item.{page_url}
use urlhero.Wwiki.{DumpError, as_web, as_digest, or_fail, next, with_dumps}
use urlhero.Wwiki.Dumps.{DumpInfo, index_url, get_dumps}
use urlhero.Wwiki.Html.{Node}
use urlhero.Wwiki.Download.{download_dump}

pub record IaDumpInfo : Type 0 where
  pub url : Bytes
  pub timestamp : Bytes
  pub sha1 : Bytes

abbrev pub ia_options : TimemapOptions
ia_options = record {
  match_prefix = true;
  collapse = codes "digest";
  fields =
      codes "original"
      ∷ codes "timestamp"
      ∷ codes "mimetype"
      ∷ codes "statuscode"
      ∷ codes "digest"
      ∷ [];
  limit = pos 100000;
}

-- a capture of a dump, not of the index
unfoldable pub is_capture : Bytes → Bytes → Bool
unfolding str_eq
is_capture mimetype statuscode =
    str_eq statuscode (codes "200")
    && (str_eq mimetype (codes "application/octet-stream") || str_eq mimetype (codes "text/plain"))

module _ {E : Type 0} where
  -- the loop of `GetIADumps`
  unfoldable pub select_dumps :
      List (List Bytes) → List IaDumpInfo → Outcome (DumpError E) (List IaDumpInfo)
  unfolding decode_digest is_capture
  select_dumps [] dumps = ok dumps
  select_dumps ((original ∷ timestamp ∷ mimetype ∷ statuscode ∷ digest ∷ more) ∷ timemap) dumps =
      let skip = select_dumps timemap dumps in
      if not (is_capture mimetype statuscode)
      then skip
      else as_digest (decode_digest digest) >>= λ sha1.
          select_dumps timemap
            (dumps ++ record { url = original; timestamp = timestamp; sha1 = sha1 } ∷ [])
  select_dumps ([] ∷ timemap) dumps = panic
  select_dumps ((a ∷ []) ∷ timemap) dumps = panic
  select_dumps ((a ∷ b ∷ []) ∷ timemap) dumps = panic
  select_dumps ((a ∷ b ∷ c ∷ []) ∷ timemap) dumps = panic
  select_dumps ((a ∷ b ∷ c ∷ d ∷ []) ∷ timemap) dumps = panic

  -- `GetIADumps`
  unfoldable pub get_ia_dumps :
      (Bytes → E ⊎ Response)
      → (Values → Bytes)
      → (Source → E ⊎ List (List Bytes))
      → Outcome (DumpError E) (List IaDumpInfo)
  unfolding select_dumps get_timemap
  get_ia_dumps http_get encode decode = do
    timemap ← as_web (get_timemap http_get encode decode index_url (some ia_options))
    select_dumps timemap []

module _ {E T : Type 0} (http_get : Bytes → E ⊎ Response) (create : Bytes → Option E)
    (open_error : Bytes → Option IoError) (parse_time : Bytes → E ⊎ T)
    (chtimes : Bytes → T → Option E) (md5 sha1 crc32 : Bytes → Bytes)
    (join : Bytes → Bytes → Bytes) where
  abbrev pub download : Bytes → Bytes → Option Bytes → Store → Outcome (DumpError E) Unit × Store
  download = download_dump http_get create open_error parse_time chtimes md5 sha1 crc32

  module _ {U : Type 0} (url_path : U → Bytes) where
    -- the loop of `DownloadDumps`
    unfoldable pub save_dumps :
        {D : Type 0}
        → (U → Bytes)
        → Bytes
        → List (DumpInfo U D)
        → Store
        → Outcome (DumpError E) Unit × Store
    unfolding download_dump base
    save_dumps url_string dir [] store = (ok tt, store)
    save_dumps url_string dir (dump ∷ dumps) store =
        next (save_dumps url_string dir dumps)
          (download (url_string dump.url) (join dir (base (url_path dump.url))) none store)

    abbrev pub save_ia_dump :
        Bytes → IaDumpInfo → E ⊎ U → Store → Outcome (DumpError E) Unit × Store
    save_ia_dump dir dump (inl e) store = (or_fail (inl e), store)
    save_ia_dump dir dump (inr u) store =
        download (page_url dump.url dump.timestamp) (join dir (base (url_path u))) (some dump.sha1)
          store

    -- the loop of `DownloadIADumps`; `parse` is `url.Parse`
    unfoldable pub save_ia_dumps :
        (Bytes → E ⊎ U) → Bytes → List IaDumpInfo → Store → Outcome (DumpError E) Unit × Store
    unfolding download_dump base
    save_ia_dumps parse dir [] store = (ok tt, store)
    save_ia_dumps parse dir (dump ∷ dumps) store =
        next (save_ia_dumps parse dir dumps) (save_ia_dump dir dump (parse dump.url) store)

  -- `DownloadIADumps`
  unfoldable pub download_ia_dumps :
      {U : Type 0}
      → (U → Bytes)
      → (Bytes → E ⊎ U)
      → (Values → Bytes)
      → (Source → E ⊎ List (List Bytes))
      → Bytes
      → Store
      → Outcome (DumpError E) Unit × Store
  unfolding get_ia_dumps save_ia_dumps
  download_ia_dumps url_path parse encode decode dir store =
      with_dumps (get_ia_dumps http_get encode decode) store (save_ia_dumps url_path parse dir)

  -- `DownloadDumps`
  unfoldable pub download_dumps :
      {U D : Type 0}
      → (U → Bytes)
      → (U → Bytes)
      → (Bytes → E ⊎ U)
      → (U → U)
      → (Bytes → E ⊎ D)
      → (Source → E ⊎ Node)
      → Bytes
      → Store
      → Outcome (DumpError E) Unit × Store
  unfolding get_dumps save_dumps
  download_dumps url_path url_string parse resolve parse_date parse_html dir store =
      with_dumps (get_dumps parse resolve parse_date http_get parse_html) store
        (save_dumps url_path url_string dir)
