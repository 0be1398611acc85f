-- ===== src/QrCx.antt =====
-- shorteners/qr-cx/dump.go: the dump of qr.cx. A CSV reader is what its calls of `Read` give, an error
-- or the fields of a record, and then the error that ends it. `http_get` is `http.Get`, `create` gives
-- the error of `os.Create`, if any, and `parse_time` is `time.Parse` in the format of the dump.
pub mod Rows
pub mod Saved
mod Tests
use urlhero.Common.{
  ℕ, zero, suc, Bool, not, Option, none, some, List, [], ◌∷◌, ◌++◌, ◌⊎◌, inl, inr, Outcome, ok, err,
  panic, hang, Bytes, codes, if◌then◌else◌, has_suffix, base, length, content,
}
use urlhero.Web.{Response, WebError, external, copy_result}
use urlhero.Files.{Store, write_file}

abbrev pub dump_url : Bytes
dump_url =
    codes
      "https://web.archive.org/web/20151229075230id_/http://qr.cx/dataset/qrcx_all_06eec9b9-1f29-4860-bd91-49c2d517d87d.7z"

module _ {E : Type 0} where
  abbrev pub save_created : Bytes → Response → Store → Option E → Outcome (WebError E) Unit × Store
  save_created filename resp store (some e) = (err (external e), store)
  save_created filename resp store none =
      (copy_result resp.body.final, write_file filename (content resp.body) store)

  abbrev pub save_answer :
      (Bytes → Option E) → Bytes → Store → E ⊎ Response → Outcome (WebError E) Unit × Store
  save_answer create filename store (inl e) = (err (external e), store)
  save_answer create filename store (inr resp) = save_created filename resp store (create filename)

  -- `DownloadDump`
  unfoldable pub download_dump :
      (Bytes → E ⊎ Response)
      → (Bytes → Option E)
      → (Bytes → Bytes → Bytes)
      → Bytes
      → Store
      → Outcome (WebError E) Unit × Store
  unfolding base
  download_dump http_get create join dir store =
      save_answer create (join dir (base dump_url)) store (http_get dump_url)

pub record Link (T : Type 0) : Type 0 where
  pub short_url : Bytes
  pub url : Bytes
  pub creation_date : T

pub data ReadError (E : Type 0) : Type 0 where
  eof : ReadError E
  failed : E → ReadError E

-- `csv.Reader`
pub record CsvReader (E : Type 0) : Type 0 where
  pub records : List (E ⊎ List Bytes)
  pub final : ReadError E

pub data OpenError (E : Type 0) : Type 0 where
  not_csv : Bytes → OpenError E
  not_open : E → OpenError E

abbrev pub opened : {E F : Type 0} → (F → CsvReader E) → E ⊎ F → OpenError E ⊎ CsvReader E
opened new_reader (inl e) = inl (not_open e)
opened new_reader (inr f) = inr (new_reader f)

-- `OpenDump`
unfoldable pub open_dump :
    {E F : Type 0} → (Bytes → E ⊎ F) → (F → CsvReader E) → Bytes → OpenError E ⊎ CsvReader E
unfolding has_suffix
open_dump open_file new_reader filename =
    if not (has_suffix filename (codes ".csv"))
    then inl (not_csv filename)
    else opened new_reader (open_file filename)

-- `cr.Read`
abbrev pub read_record :
    {E : Type 0} → CsvReader E → Outcome (ReadError E) (List Bytes) × CsvReader E
read_record r = elim r.records [
  | [] ↦ (err r.final, r)
  | item ∷ records ↦ (
    elim item [ inl e ↦ err (failed e) | inr fields ↦ ok fields ],
    record r { records = records },
  )
]

module _ {E T : Type 0} (parse_time : Bytes → E ⊎ T) where
  abbrev pub dated : Bytes → Bytes → E ⊎ T → Outcome (ReadError E) (Link T)
  dated short url (inl e) = err (failed e)
  dated short url (inr t) = ok (record { short_url = short; url = url; creation_date = t })

  -- the link of a record, of which the third field is read first
  abbrev pub link_of : Outcome (ReadError E) (List Bytes) → Outcome (ReadError E) (Link T)
  link_of (ok (short ∷ url ∷ time ∷ more)) = dated short url (parse_time time)
  link_of (ok []) = panic
  link_of (ok (a ∷ [])) = panic
  link_of (ok (a ∷ b ∷ [])) = panic
  link_of (err e) = err e
  link_of panic = panic
  link_of hang = hang

  -- `Reader.Read`
  abbrev pub read : CsvReader E → Outcome (ReadError E) (Link T) × CsvReader E
  read r = let (fields, r') = read_record r in (link_of fields, r')

  abbrev pub after_read :
      (List (Link T) → CsvReader E → Outcome E (List (Link T)))
      → List (Link T)
      → Outcome (ReadError E) (Link T) × CsvReader E
      → Outcome E (List (Link T))
  after_read again links (ok link, r) = again (links ++ link ∷ []) r
  after_read again links (err eof, r) = ok links
  after_read again links (err (failed e), r) = err e
  after_read again links (panic, r) = panic
  after_read again links (hang, r) = hang

  -- the loop of `ReadAll`
  unfoldable pub read_links : ℕ → List (Link T) → CsvReader E → Outcome E (List (Link T))
  read_links zero links r = hang
  read_links (suc fuel) links r = after_read (read_links fuel) links (read r)

  -- `ReadAll`
  unfoldable pub read_all : CsvReader E → Outcome E (List (Link T))
  unfolding read_links
  read_all r = read_links (suc (length r.records)) [] r
