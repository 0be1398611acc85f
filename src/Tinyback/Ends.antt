-- ===== src/Tinyback/Ends.antt =====
-- tinyback/tinyback.go: the processing of a release comes to an end, and where it finds its list.
use urlhero.Common.{
  ℕ, zero, suc, ◌+◌, ◌<◌, Bool, true, false, List, [], ◌∷◌, ◌⊎◌, inl, inr, arith, Outcome, ok, err,
  panic, hang, Bytes, codes, str_eq, if◌then◌else◌, has_suffix, IoError, Source, negsuc,
}
use urlhero.Beacon.{Link, is_eof}
use urlhero.Beacon as Beacon
use urlhero.Beacon.Reader.{Reader, new_urlteam_reader, unread}
use urlhero.Beacon.Links.{read}
use urlhero.Beacon.Progress.Links.{Spent, read-Spent}
use urlhero.Tinytown.Visits.{Ends}
use urlhero.Ia.Validate.{ReadValidator, new_read_validator}
use urlhero.Ia.Validate.Item.{FileMeta, meta_name, read_file_meta}
use urlhero.Tinyback.{
  TinybackError, beacon, after_read, count_links, count_text, next, process_opened, process_file,
  process_files, process_listed, process_release,
}

at_eof-Ends :
    (E : Type 0) (b : Bool) (e : Beacon.Error) (n : ℕ)
    → Ends (if◌then◌else◌ {A = Outcome (TinybackError E) ℕ} b (ok n) (err (beacon e)))
at_eof-Ends E true e n = tt
at_eof-Ends E false e n = tt

module _ {E : Type 0} where
  after_read-Ends :
      (again : Reader → ℕ → Outcome (TinybackError E) ℕ) (n k : ℕ)
      (m : Outcome Beacon.Error Link × Reader)
      → Spent k m
      → ((br : Reader) → unread br < k → Ends (again br (n + 1)))
      → Ends (after_read again n m)
  after_read-Ends again n k (ok link, br) h rest = rest br h
  after_read-Ends again n k (err e, br) h rest = at_eof-Ends E (is_eof e) e n
  after_read-Ends again n k (panic, br) h rest = tt
  after_read-Ends again n k (hang, br) h rest = h

count_links-Ends :
    (E : Type 0) (fuel : ℕ) (br : Reader) (n : ℕ)
    → unread br < fuel
    → Ends (count_links {E = E} fuel br n)
unfolding count_links
count_links-Ends E zero br n k = absurd (omega arith)
count_links-Ends E (suc fuel) br n k =
    after_read-Ends (count_links fuel) n (unread br) (read br) (read-Spent br)
      (λ br' h. count_links-Ends E fuel br' (n + 1) (omega arith))

module _ {E : Type 0} where
  count_text-Ends : (t : E ⊎ (Bytes × Beacon.Error)) → Ends (count_text t)
  count_text-Ends (inl e) = tt
  count_text-Ends (inr (text, final)) =
      let br = new_urlteam_reader text final (negsuc 0) in
      count_links-Ends E (suc (unread br)) br 0 (omega arith)

  next-Ends :
      (m : Outcome (TinybackError E) ℕ) (rest : Outcome (TinybackError E) Unit)
      → Ends m
      → Ends rest
      → Ends (next m rest)
  next-Ends (ok n) rest h k = k
  next-Ends (err e) rest h k = tt
  next-Ends panic rest h k = tt
  next-Ends hang rest h k = h

  either-Ends :
      (b : Bool) (x y : Outcome (TinybackError E) Unit)
      → Ends x
      → Ends y
      → Ends (if b then x else y)
  either-Ends true x y h k = h
  either-Ends false x y h k = k

  module _ (md5 sha1 crc32 : Bytes → Bytes) (join : Bytes → Bytes → Bytes)
      (open_file : Bytes → IoError ⊎ Source) (decode : Source → IoError ⊎ List FileMeta)
      (new_xz_reader : ReadValidator → E ⊎ (Bytes × Beacon.Error)) where
    process_opened-Ends :
        (fm : FileMeta) (f : IoError ⊎ Source)
        → Ends (process_opened md5 sha1 crc32 join open_file decode new_xz_reader fm f)
    process_opened-Ends fm (inl e) = tt
    process_opened-Ends fm (inr f) =
        count_text-Ends (new_xz_reader (new_read_validator f fm.name fm.md5 fm.sha1 fm.crc32))

    process_files-Ends :
        (meta_file dir : Bytes) (files : List FileMeta)
        → Ends
            (process_files md5 sha1 crc32 join open_file decode new_xz_reader meta_file dir files)
    unfolding process_files process_file
    process_files-Ends meta_file dir [] = tt
    process_files-Ends meta_file dir (fm ∷ files) =
        let rest = process_files-Ends meta_file dir files in
        either-Ends (str_eq fm.name meta_file) _ _ rest (
          either-Ends (has_suffix fm.name (codes ".txt.xz")) _ _
            (next-Ends (process_file md5 sha1 crc32 join open_file decode new_xz_reader fm dir)
              (process_files md5 sha1 crc32 join open_file decode new_xz_reader meta_file dir files)
              (process_opened-Ends fm (open_file (join dir fm.name))) rest)
            rest)

    process_listed-Ends :
        (meta_file dir : Bytes) (m : IoError ⊎ List FileMeta)
        → Ends (process_listed md5 sha1 crc32 join open_file decode new_xz_reader meta_file dir m)
    process_listed-Ends meta_file dir (inl e) = tt
    process_listed-Ends meta_file dir (inr files) = process_files-Ends meta_file dir files

    -- `ProcessRelease` returns or panics, whatever the files hold: its loops over files and links end.
    pub process_release-Ends :
        (dir : Bytes)
        → Ends (process_release md5 sha1 crc32 join open_file decode new_xz_reader dir)
    unfolding process_release
    process_release-Ends dir =
        process_listed-Ends (meta_name dir) dir
          (read_file_meta md5 sha1 crc32 join open_file decode (join dir (meta_name dir)))
