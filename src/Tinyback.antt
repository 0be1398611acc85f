-- ===== src/Tinyback.antt =====
-- tinyback/tinyback.go: the releases of TinyBack. `join` is `filepath.Join`, `open_file` is `os.Open`,
-- `decode` is the decoder of XML, and `new_xz_reader` is `archive.NewXZReader` on a file that is read
-- through a validator of its sums: an error, or a text and the error that ends it.
pub mod Ends
mod Tests
use urlhero.Common.{
  ℕ, zero, suc, ◌+◌, Bool, true, false, not, Option, none, some, List, [], ◌∷◌, ◌++◌, ◌⊎◌, inl, inr,
  Outcome, ok, err, panic, hang, Bytes, codes, str_eq, if◌then◌else◌, has_suffix, base, IoError,
  Source, negsuc,
}
use urlhero.Beacon.{Link, is_eof}
use urlhero.Beacon as Beacon
use urlhero.Beacon.Reader.{Reader, new_urlteam_reader, unread}
use urlhero.Beacon.Links.{read}
use urlhero.Ia.Validate.{ReadValidator, new_read_validator}
use urlhero.Ia.Validate.Item.{FileMeta, meta_name, read_file_meta}

pub data TinybackError (E : Type 0) : Type 0 where
  io : IoError → TinybackError E
  xz : E → TinybackError E
  beacon : Beacon.Error → TinybackError E

module _ {E : Type 0} where
  -- after a call of `br.Read`; `again` is the next round
  abbrev pub after_read :
      (Reader → ℕ → Outcome (TinybackError E) ℕ)
      → ℕ
      → Outcome Beacon.Error Link × Reader
      → Outcome (TinybackError E) ℕ
  after_read again n (ok link, br) = again br (n + 1)
  after_read again n (err e, br) = if is_eof e then ok n else err (beacon e)
  after_read again n (panic, br) = panic
  after_read again n (hang, br) = hang

  -- the loop of `processFile`, which counts the links
  unfoldable pub count_links : ℕ → Reader → ℕ → Outcome (TinybackError E) ℕ
  unfolding read
  count_links zero br n = hang
  count_links (suc fuel) br n = after_read (count_links fuel) n (read br)

  -- the reader of links of variable length
  abbrev pub count_text : E ⊎ (Bytes × Beacon.Error) → Outcome (TinybackError E) ℕ
  count_text (inl e) = err (xz e)
  count_text (inr (text, final)) =
      let br = new_urlteam_reader text final (negsuc 0) in count_links (suc (unread br)) br 0

  abbrev pub next :
      Outcome (TinybackError E) ℕ → Outcome (TinybackError E) Unit → Outcome (TinybackError E) Unit
  next (ok n) rest = rest
  next (err e) rest = err e
  next panic rest = panic
  next hang rest = hang

module _ {E : Type 0} (md5 sha1 crc32 : Bytes → Bytes) (join : Bytes → Bytes → Bytes)
    (open_file : Bytes → IoError ⊎ Source) (decode : Source → IoError ⊎ List FileMeta)
    (new_xz_reader : ReadValidator → E ⊎ (Bytes × Beacon.Error)) where
  abbrev pub process_opened : FileMeta → IoError ⊎ Source → Outcome (TinybackError E) ℕ
  process_opened fm (inl e) = err (io e)
  process_opened fm (inr f) =
      count_text (new_xz_reader (new_read_validator f fm.name fm.md5 fm.sha1 fm.crc32))

  -- `processFile`, which prints the number of the links
  unfoldable pub process_file : FileMeta → Bytes → Outcome (TinybackError E) ℕ
  unfolding count_links
  process_file fm dir = process_opened fm (open_file (join dir fm.name))

  -- the loop of `ProcessRelease`
  unfoldable pub process_files : Bytes → Bytes → List FileMeta → Outcome (TinybackError E) Unit
  unfolding process_file str_eq has_suffix
  process_files meta_file dir [] = ok tt
  process_files meta_file dir (fm ∷ files) =
      let rest = process_files meta_file dir files in
      if str_eq fm.name meta_file
      then rest
      else if has_suffix fm.name (codes ".txt.xz")
      then next (process_file fm dir) rest
      else rest

  abbrev pub process_listed :
      Bytes → Bytes → IoError ⊎ List FileMeta → Outcome (TinybackError E) Unit
  process_listed meta_file dir (inl e) = err (io e)
  process_listed meta_file dir (inr files) = process_files meta_file dir files

  -- `ProcessRelease`. What it gives to `ia.ReadFileMeta` is the path of the list, where that function
  -- takes the directory of an item.
  unfoldable pub process_release : Bytes → Outcome (TinybackError E) Unit
  unfolding read_file_meta process_files base
  process_release dir =
      process_listed (meta_name dir) dir
        (read_file_meta md5 sha1 crc32 join open_file decode (join dir (meta_name dir)))
