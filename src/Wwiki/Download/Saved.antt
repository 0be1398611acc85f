-- ===== src/Wwiki/Download/Saved.antt =====
-- shorteners/w-wiki/download.go: what `downloadDump` leaves on disk.
use urlhero.Common.{
  true, false, Bool-cases, Option, none, some, [], ◌≡◌, ◌⊎◌, inl, inr, refl, sym, ap, ◌∙◌, Outcome,
  ok, err, panic, hang, >>=-ok, Bytes, Source, IoError, content, ok-injective, false-true,
}
use urlhero.Web.{Response, WebError, require_ok, external}
use urlhero.Files.{
  Store, read_file, write_file, has_file, read_file-write_file, read_file-write_other,
  str_eq-has_file, present,
}
use urlhero.Ia.Validate.{ValidateError}
use urlhero.Ia.Validate.Sums.{IsSum, validate_file_iff}
use urlhero.Wwiki.{web, as_validate}
use urlhero.Wwiki.Download.{
  check_opened, check_existing, copy_body, fetch, after_create, download_dump,
}

-- The file is there, with a content of which the sum is that of the hash.
abbrev pub Holds : (Bytes → Bytes) → Bytes → Bytes → Store → Type 0
Holds sha1 sum out store = (text : Bytes) × (read_file out store ≡ some text) × IsSum sha1 sum text

-- The files that are there stay as they are.
abbrev pub Keeps : Store → Store → Type 0
Keeps store store' =
    (path text : Bytes) → read_file path store ≡ some text → read_file path store' ≡ some text

module _ {E T : Type 0} (http_get : Bytes → E ⊎ Response) (create : Bytes → Option E)
    (open_error : Bytes → Option IoError) (parse_time : Bytes → E ⊎ T)
    (chtimes : Bytes → T → Option E) (md5 sha1 crc32 : Bytes → Bytes) where
  as_validate-ok :
      {A : Type 0} (m : Outcome ValidateError A) {a : A} → as_validate {E = E} m ≡ ok a → m ≡ ok a
  as_validate-ok (ok b) h = ap ok (ok-injective h)
  as_validate-ok (err e) h = cc
  as_validate-ok panic h = cc
  as_validate-ok hang h = cc

  check_opened-Holds :
      (out sum : Bytes) (store : Store) (e : Option IoError) (file : Option Bytes)
      → read_file out store ≡ file
      → has_file out store ≡ true
      → check_opened http_get create open_error parse_time chtimes md5 sha1 crc32 out e file sum
        ≡ ok tt
      → Holds sha1 sum out store
  check_opened-Holds out sum store e none f t h = absurd (false-true (ap present (sym f) ∙ t))
  check_opened-Holds out sum store (some e) (some text) f t h = cc
  check_opened-Holds out sum store none (some text) f t h =
      let valid =
        (validate_file_iff md5 sha1 crc32 out [] sum [] [] text _).0 (as_validate-ok _ h) in
      (text, f, valid.2)

  check_existing-Holds :
      (out sum : Bytes) (store : Store)
      → has_file out store ≡ true
      → check_existing http_get create open_error parse_time chtimes md5 sha1 crc32 out
          (some sum)
          store
        ≡ ok tt
      → Holds sha1 sum out store
  unfolding check_existing
  check_existing-Holds out sum store t h =
      check_opened-Holds out sum store (open_error out) (read_file out store) refl t h

  copy_body-IsSum :
      (url sum : Bytes) (body : Source)
      → copy_body http_get create open_error parse_time chtimes md5 sha1 crc32 url (some sum) body
        ≡ ok tt
      → IsSum sha1 sum (content body)
  unfolding copy_body
  copy_body-IsSum url sum body h =
      ((validate_file_iff md5 sha1 crc32 url [] sum [] body.chunks body.last body.final).0
        (as_validate-ok _ h)).2

  fetch-Holds :
      (url out sum : Bytes) (store : Store) (o : Outcome (WebError E) Response)
      → (fetch http_get create open_error parse_time chtimes md5 sha1 crc32 url out
          (some sum)
          store
          o).0
        ≡ ok tt
      → Holds sha1 sum out
          (fetch http_get create open_error parse_time chtimes md5 sha1 crc32 url out
            (some sum)
            store
            o).1
  fetch-Holds url out sum store (ok resp) h =
      let (_, copied, _) =
        >>=-ok
          (copy_body http_get create open_error parse_time chtimes md5 sha1 crc32 url (some sum)
            resp.body)
          _ h in
      (
        content resp.body,
        read_file-write_file out (content resp.body) store,
        copy_body-IsSum url sum resp.body copied,
      )
  fetch-Holds url out sum store (err e) h = cc
  fetch-Holds url out sum store panic h = cc
  fetch-Holds url out sum store hang h = cc

  after_create-Holds :
      (url out sum : Bytes) (store : Store) (c : Option E)
      → (after_create http_get create open_error parse_time chtimes md5 sha1 crc32 url out
          (some sum)
          store
          c).0
        ≡ ok tt
      → Holds sha1 sum out
          (after_create http_get create open_error parse_time chtimes md5 sha1 crc32 url out
            (some sum)
            store
            c).1
  after_create-Holds url out sum store (some e) h = cc
  after_create-Holds url out sum store none h =
      fetch-Holds url out sum (write_file out [] store) (require_ok (http_get url)) h

  -- Where `downloadDump` with a digest succeeds, the file is there and its content has that digest,
  -- whether it was there before or not.
  pub download_dump-Holds :
      (url out sum : Bytes) (store : Store)
      → (download_dump http_get create open_error parse_time chtimes md5 sha1 crc32 url out
          (some sum)
          store).0
        ≡ ok tt
      → Holds sha1 sum out
          (download_dump http_get create open_error parse_time chtimes md5 sha1 crc32 url out
            (some sum)
            store).1
  unfolding download_dump
  download_dump-Holds url out sum store h = elim (Bool-cases (has_file out store)) [
    | inl e ↦ rw e (check_existing-Holds out sum store e (rw e at h))
    | inr e ↦ rw e (after_create-Holds url out sum store (create out) (rw e at h))
  ]

  fetch-Keeps :
      (url out : Bytes) (sum : Option Bytes) (store : Store) (o : Outcome (WebError E) Response)
      → has_file out store ≡ false
      → Keeps store
          (fetch http_get create open_error parse_time chtimes md5 sha1 crc32 url out sum
            (write_file out [] store)
            o).1
  fetch-Keeps url out sum store (ok resp) e path text h =
      let p = str_eq-has_file path out store e h in
      read_file-write_other path out (content resp.body) (write_file out [] store) p
      ∙ read_file-write_other path out [] store p
      ∙ h
  fetch-Keeps url out sum store (err x) e path text h =
      read_file-write_other path out [] store (str_eq-has_file path out store e h) ∙ h
  fetch-Keeps url out sum store panic e path text h =
      read_file-write_other path out [] store (str_eq-has_file path out store e h) ∙ h
  fetch-Keeps url out sum store hang e path text h =
      read_file-write_other path out [] store (str_eq-has_file path out store e h) ∙ h

  after_create-Keeps :
      (url out : Bytes) (sum : Option Bytes) (store : Store) (c : Option E)
      → has_file out store ≡ false
      → Keeps store
          (after_create http_get create open_error parse_time chtimes md5 sha1 crc32 url out sum
            store c).1
  after_create-Keeps url out sum store (some x) e path text h = h
  after_create-Keeps url out sum store none e path text h =
      fetch-Keeps url out sum store (require_ok (http_get url)) e path text h

  -- Whatever comes of it, `downloadDump` leaves the files that are there as they are.
  pub download_dump-Keeps :
      (url out : Bytes) (sum : Option Bytes) (store : Store)
      → Keeps store
          (download_dump http_get create open_error parse_time chtimes md5 sha1 crc32 url out sum
            store).1
  unfolding download_dump
  download_dump-Keeps url out sum store path text h = elim (Bool-cases (has_file out store)) [
    | inl e ↦ rw e h
    | inr e ↦ rw e (after_create-Keeps url out sum store (create out) e path text h)
  ]

  download_dump_again :
      (url out : Bytes) (store : Store)
      → has_file out store ≡ true
      → download_dump http_get create open_error parse_time chtimes md5 sha1 crc32 url out none
          store
        ≡ (ok tt, store)
  unfolding download_dump check_existing
  download_dump_again url out store e = rw e refl

  download_dump_failed :
      (url out : Bytes) (store : Store) {e : E}
      → has_file out store ≡ false
      → create out ≡ none
      → http_get url ≡ inl e
      → download_dump http_get create open_error parse_time chtimes md5 sha1 crc32 url out none
          store
        ≡ (err (web (external e)), write_file out [] store)
  unfolding download_dump require_ok
  download_dump_failed url out store f c g = rw (f, c, g) refl

-- Where the file of a dump is not there and is created, and the request for the dump fails,
-- `downloadDump` without a digest returns the error and leaves an empty file, and every later call
-- for that file without a digest, whatever the server answers then, succeeds and leaves it empty.
pub download_dump_empty :
    {E T : Type 0} (http_get : Bytes → E ⊎ Response) (create : Bytes → Option E)
    (open_error : Bytes → Option IoError) (parse_time : Bytes → E ⊎ T)
    (chtimes : Bytes → T → Option E) (md5 sha1 crc32 : Bytes → Bytes) (url out : Bytes)
    (store : Store) (e : E)
    → has_file out store ≡ false
    → create out ≡ none
    → http_get url ≡ inl e
    → (store' : Store) × (download_dump http_get create open_error parse_time chtimes md5 sha1 crc32
          url out none store
        ≡ (err (web (external e)), store'))
      × (read_file out store' ≡ some [])
      × ((http_get' : Bytes → E ⊎ Response) (url' : Bytes)
          → download_dump http_get' create open_error parse_time chtimes md5 sha1 crc32 url' out
              none store'
            ≡ (ok tt, store'))
download_dump_empty http_get create open_error parse_time chtimes md5 sha1 crc32 url out store e f c
      g =
    let store' = write_file out [] store in
    let kept : read_file out store' ≡ some [] = read_file-write_file out [] store in
    (
      store',
      download_dump_failed http_get create open_error parse_time chtimes md5 sha1 crc32 url out
          store f c g,
      kept,
      λ http_get' url'.
          download_dump_again http_get' create open_error parse_time chtimes md5 sha1 crc32 url' out
            store' (ap present kept),
    )
