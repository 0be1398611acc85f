-- ===== src/Ia/Validate/Item.antt =====
-- ia/validate.go: the files of an item. `join` is `filepath.Join`, `open_file` is `os.Open` and
-- `decode` is the decoder of XML, which gives the field `Files`.
use urlhero.Common.{
  IoError, eof, Source, content, ◌++◌, false, List, [], ◌∷◌, ◌≡◌, ◌↔◌, ◌⊎◌, inl, inr, refl, ap, ◌∙◌,
  arith, Outcome, ok, err, panic, hang, Bytes, codes, str_eq, str_eq_iff, Bool-cases, if◌then◌else◌,
  All, base,
}
use urlhero.Ia.Validate.{ValidateError, io, validate_file}
use urlhero.Ia.Validate.Sums.{IsSum, validate_file_iff}

-- `FileMeta`, the fields that are read
pub record FileMeta : Type 0 where
  pub name : Bytes
  pub md5 : Bytes
  pub sha1 : Bytes
  pub crc32 : Bytes

abbrev pub meta_name : Bytes → Bytes
meta_name dir = base dir ++ codes "_files.xml"

err-ok : {e : ValidateError} → ¬ (◌≡◌ {A = Outcome ValidateError Unit} (err e) (ok tt))
err-ok e = ground arith

module _ (md5 sha1 crc32 : Bytes → Bytes) (join : Bytes → Bytes → Bytes)
    (open_file : Bytes → IoError ⊎ Source) (decode : Source → IoError ⊎ List FileMeta) where
  unfoldable pub read_file_meta : Bytes → IoError ⊎ List FileMeta
  unfolding base
  read_file_meta dir = elim (open_file (join dir (meta_name dir))) [
    | inl e ↦ inl e
    | inr f ↦ decode f
  ]

  -- `OpenValidator` and the copy of what it opened
  abbrev pub validate_opened : FileMeta → IoError ⊎ Source → Outcome ValidateError Unit
  validate_opened fm (inl e) = err (io e)
  validate_opened fm (inr f) = validate_file md5 sha1 crc32 f fm.name fm.md5 fm.sha1 fm.crc32

  abbrev pub and_then :
      Outcome ValidateError Unit → Outcome ValidateError Unit → Outcome ValidateError Unit
  and_then (ok _) rest = rest
  and_then (err e) rest = err e
  and_then panic rest = panic
  and_then hang rest = hang

  -- the loop of `Validate`
  unfoldable pub validate_files : Bytes → List FileMeta → Outcome ValidateError Unit
  unfolding str_eq base validate_file
  validate_files dir [] = ok tt
  validate_files dir (fm ∷ files) =
      let rest = validate_files dir files in
      if str_eq fm.name (meta_name dir)
      then rest
      else and_then (validate_opened fm (open_file (join dir fm.name))) rest

  abbrev pub validate_read : Bytes → IoError ⊎ List FileMeta → Outcome ValidateError Unit
  validate_read dir (inl e) = err (io e)
  validate_read dir (inr files) = validate_files dir files

  -- `Validate`
  unfoldable pub validate_item : Bytes → Outcome ValidateError Unit
  unfolding read_file_meta validate_files
  validate_item dir = validate_read dir (read_file_meta dir)

  -- The file can be read to its end, and each sum that is listed is that of its content.
  pub record IsValid (dir : Bytes) (fm : FileMeta) : Type 0 where
    pub source : Source
    pub opens : open_file (join dir fm.name) ≡ inr source
    pub ends : source.final ≡ eof
    pub md5_is : IsSum md5 fm.md5 (content source)
    pub sha1_is : IsSum sha1 fm.sha1 (content source)
    pub crc32_is : IsSum crc32 fm.crc32 (content source)

  validate_opened-IsValid :
      (dir : Bytes) (fm : FileMeta) (o : IoError ⊎ Source)
      → open_file (join dir fm.name) ≡ o
      → validate_opened fm o ≡ ok tt
      → IsValid dir fm
  validate_opened-IsValid dir fm (inl e) h k = absurd (err-ok k)
  validate_opened-IsValid dir fm (inr f) h k =
      let (e, m, s, c) =
        (validate_file_iff md5 sha1 crc32 fm.name fm.md5 fm.sha1 fm.crc32 f.chunks f.last f.final).0
          k in
      record { source = f; opens = h; ends = e; md5_is = m; sha1_is = s; crc32_is = c }

  IsValid-opened :
      (dir : Bytes) (fm : FileMeta)
      → IsValid dir fm
      → validate_opened fm (open_file (join dir fm.name)) ≡ ok tt
  IsValid-opened dir fm v =
      ap (validate_opened fm) v.opens
      ∙ (validate_file_iff md5 sha1 crc32 fm.name fm.md5 fm.sha1 fm.crc32 v.source.chunks
            v.source.last v.source.final).1
          (v.ends, v.md5_is, v.sha1_is, v.crc32_is)

  and_then-ok :
      (a b : Outcome ValidateError Unit) → and_then a b ≡ ok tt → (a ≡ ok tt) × (b ≡ ok tt)
  and_then-ok (ok _) b h = (refl, h)
  and_then-ok (err e) b h = absurd (err-ok h)
  and_then-ok panic b h = absurd (ground arith)
  and_then-ok hang b h = absurd (ground arith)

  both : {a b : Outcome ValidateError Unit} → a ≡ ok tt → b ≡ ok tt → and_then a b ≡ ok tt
  both {b = b} h k = ap (λ x. and_then x b) h ∙ k

  -- A file that is not the list itself.
  valid_again :
      {dir : Bytes} {fm : FileMeta}
      → str_eq fm.name (meta_name dir) ≡ false
      → (fm.name ≡ meta_name dir) ⊎ IsValid dir fm
      → validate_opened fm (open_file (join dir fm.name)) ≡ ok tt
  valid_again {dir} {fm} e (inl same) =
      let k = (str_eq_iff fm.name (meta_name dir)).1 same in absurd (ground arith)
  valid_again {dir} {fm} e (inr v) = IsValid-opened dir fm v

  validate_files_iff :
      (dir : Bytes) (files : List FileMeta)
      → (validate_files dir files ≡ ok tt)
        ↔ All (λ fm. (fm.name ≡ meta_name dir) ⊎ IsValid dir fm) files
  unfolding validate_files
  validate_files_iff dir [] = (λ _. tt, λ _. refl)
  validate_files_iff dir (fm ∷ files) =
      let (to, from) = validate_files_iff dir files in
      elim (Bool-cases (str_eq fm.name (meta_name dir))) [
        | inl e ↦ (
          λ h. (inl ((str_eq_iff fm.name (meta_name dir)).0 e), to (rw (validate_files, e) at h)),
          λ h. rw e (from h.1),
        )
        | inr e ↦ (
          λ h.
              let (a, b) =
                and_then-ok (validate_opened fm (open_file (join dir fm.name)))
                  (validate_files dir files) (rw (validate_files, e) at h) in
              (inr (validate_opened-IsValid dir fm (open_file (join dir fm.name)) refl a), to b),
          λ h. rw e (both (valid_again e h.0) (from h.1)),
        )
      ]

  -- `Validate` succeeds exactly when the list of files can be read and every file on it, but the
  -- list itself, can be read to its end and has the sums that are listed.
  pub validate_item_iff :
      (dir : Bytes)
      → (validate_item dir ≡ ok tt) ↔ (
          (files : List FileMeta) × (read_file_meta dir ≡ inr files)
          × All (λ fm. (fm.name ≡ meta_name dir) ⊎ IsValid dir fm) files)
  unfolding validate_item
  validate_item_iff dir = (
    λ h. split (read_file_meta dir) refl h,
    λ (files, e, h). ap (validate_read dir) e ∙ (validate_files_iff dir files).1 h,
  )
    where
      split :
          (o : IoError ⊎ List FileMeta)
          → read_file_meta dir ≡ o
          → validate_read dir o ≡ ok tt
          → (files : List FileMeta) × (read_file_meta dir ≡ inr files)
            × All (λ fm. (fm.name ≡ meta_name dir) ⊎ IsValid dir fm) files
      split (inl x) e h = absurd (err-ok h)
      split (inr files) e h = (files, e, (validate_files_iff dir files).0 h)
