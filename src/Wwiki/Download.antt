-- ===== src/Wwiki/Download.antt =====
-- shorteners/w-wiki/download.go: the download of a dump. `http_get` is `http.Get`, `create` and
-- `open_error` give the errors of `os.Create` and `os.Open`, if any, `parse_time` is `time.Parse` in the
-- format of HTTP, `chtimes` gives the error of `os.Chtimes`, and `md5`, `sha1` and `crc32` are the
-- hashes.
pub mod Saved
use urlhero.Common.{
  ℕ, Bool, true, false, Option, none, some, List, [], ◌∷◌, ◌⊎◌, inl, inr, Outcome, ok, err, panic,
  hang, ◌>>=◌, Bytes, codes, str_eq, if◌then◌else◌, Source, IoError, eof, content,
}
use urlhero.Web.{Response, WebError, external, require_ok, copy_result}
use urlhero.Files.{Store, read_file, write_file, has_file}
use urlhero.Ia.Validate.{io, validate_file}
use urlhero.Wwiki.{DumpError, web, invalid, as_web, as_validate, or_fail}

-- a file as the reader of it
abbrev pub file_source : Bytes → Source
file_source data_of = record { chunks = []; last = data_of; final = eof }

-- the first of two texts, or the second where it is empty
unfoldable pub first_of : Bytes → Bytes → Bytes
unfolding str_eq
first_of a b = if str_eq a [] then b else a

module _ {E T : Type 0} (http_get : Bytes → E ⊎ Response) (create : Bytes → Option E)
    (open_error : Bytes → Option IoError) (parse_time : Bytes → E ⊎ T)
    (chtimes : Bytes → T → Option E) (md5 sha1 crc32 : Bytes → Bytes) where
  abbrev pub check_opened :
      Bytes → Option IoError → Option Bytes → Bytes → Outcome (DumpError E) Unit
  check_opened out e none sum = ok tt
  check_opened out (some e) (some data_of) sum = err (invalid (io e))
  check_opened out none (some data_of) sum =
      as_validate (validate_file md5 sha1 crc32 (file_source data_of) out [] sum [])

  -- what happens to a file that is there
  unfoldable pub check_existing : Bytes → Option Bytes → Store → Outcome (DumpError E) Unit
  unfolding validate_file read_file
  check_existing out none store = ok tt
  check_existing out (some sum) store = check_opened out (open_error out) (read_file out store) sum

  -- The result of `io.Copy` to the file, from the body or from a validator of it.
  unfoldable pub copy_body : Bytes → Option Bytes → Source → Outcome (DumpError E) Unit
  unfolding validate_file
  copy_body url none body = as_web (copy_result body.final)
  copy_body url (some sum) body = as_validate (validate_file md5 sha1 crc32 body url [] sum [])

  abbrev pub change_times : Bytes → T → Outcome (DumpError E) Unit
  change_times out t = elim (chtimes out t) [ none ↦ ok tt | some e ↦ err (web (external e)) ]

  abbrev pub set_mod : Bytes → Bytes → Outcome (DumpError E) Unit
  set_mod out [] = ok tt
  set_mod out (c ∷ mod_time) = or_fail (parse_time (c ∷ mod_time)) >>= change_times out

  unfoldable pub set_times : Bytes → Response → Outcome (DumpError E) Unit
  unfolding first_of
  set_times out resp = set_mod out (
      first_of (resp.header (codes "Last-Modified"))
        (resp.header (codes "X-Archive-Orig-Last-Modified")))

  -- from the answer on, when the file was created and is empty
  abbrev pub fetch :
      Bytes
      → Bytes
      → Option Bytes
      → Store
      → Outcome (WebError E) Response
      → Outcome (DumpError E) Unit × Store
  fetch url out sum store (ok resp) = (
    (copy_body url sum resp.body >>= λ _. set_times out resp),
    write_file out (content resp.body) store,
  )
  fetch url out sum store (err e) = (err (web e), store)
  fetch url out sum store panic = (panic, store)
  fetch url out sum store hang = (hang, store)

  abbrev pub after_create :
      Bytes → Bytes → Option Bytes → Store → Option E → Outcome (DumpError E) Unit × Store
  after_create url out sum store (some e) = (err (web (external e)), store)
  after_create url out sum store none =
      fetch url out sum (write_file out [] store) (require_ok (http_get url))

  -- `downloadDump`; the sum is `none` for nil
  unfoldable pub download_dump :
      Bytes → Bytes → Option Bytes → Store → Outcome (DumpError E) Unit × Store
  unfolding check_existing copy_body set_times require_ok read_file
  download_dump url out sum store =
      if has_file out store
      then (check_existing out sum store, store)
      else after_create url out sum store (create out)
