-- ===== src/Tinytown.antt =====
-- tinytown/walk.go: the releases of a directory, the projects of a release, the link dumps of a
-- project, and a call of `fn` for each link.
pub mod Visits
mod Classify
pub mod Releases
pub mod Walks
pub mod Download
pub mod Transmission
pub mod Search
pub mod Tracker
mod Ends
pub mod Tests
use urlhero.Common.{
  ℕ, zero, suc, ◌-◌, Bool, true, false, not, Option, none, some, List, [], ◌∷◌, ◌++◌, ◌⊎◌, inl, inr,
  Outcome, ok, err, panic, hang, Bytes, codes, leb, length, take, drop, if◌then◌else◌, has_suffix,
  base, ℤ, pos, negsuc,
}
use urlhero.Beacon.{Link, is_eof}
use urlhero.Beacon as Beacon
use urlhero.Beacon.Reader.{Reader, new_urlteam_reader, unread}
use urlhero.Beacon.Links.{read}

-- `E` are the errors of the packages that the code calls, and of `fn`.
pub data WalkError (E : Type 0) : Type 0 where
  external : E → WalkError E
  beacon : Beacon.Error → WalkError E
  empty_archive : Bytes → WalkError E
  no_meta_file : Bytes → WalkError E
  not_link_dump : Bytes → WalkError E

-- `len(s) - n`
abbrev pub minus : ℕ → ℕ → ℤ
minus m n = if leb n m then pos (m - n) else negsuc (n - m - 1)

abbrev pub txt_xz : Bytes
txt_xz = codes ".txt.xz"

abbrev pub meta_json_xz : Bytes
meta_json_xz = codes ".meta.json.xz"

-- A file of an archive. `open_xz` is what `File.Open` and then `archive.NewXZReader` come to: an
-- error, or a text and the error that follows it.
pub record File (E : Type 0) : Type 0 where
  pub name : Bytes
  pub open_xz : E ⊎ (Bytes × Beacon.Error)

pub record DirEntry : Type 0 where
  pub name : Bytes
  pub is_dir : Bool

module _ {E : Type 0} where
  abbrev pub is_meta : File E → Bool
  is_meta f = has_suffix f.name meta_json_xz

  abbrev pub is_dump : File E → Bool
  is_dump f = has_suffix f.name txt_xz

  -- The first meta file, and the files before and after it.
  unfoldable pub find_meta : List (File E) → List (File E) → Option (File E × List (File E))
  find_meta before [] = none
  find_meta before (f ∷ files) =
      let rest = find_meta (before ++ f ∷ []) files in
      if is_meta f then some (f, before ++ files) else rest

  -- the last file and those before it
  unfoldable pub split_last : File E → List (File E) → List (File E) × File E
  split_last f [] = ([], f)
  split_last f (g ∷ files) = let (init, last) = split_last g files in (f ∷ init, last)

  -- the loop over the dumps that ends `classifyFiles`
  unfoldable pub all_dumps : List (File E) → Bool
  all_dumps [] = true
  all_dumps (f ∷ files) = let rest = all_dumps files in if not (is_dump f) then false else rest

  abbrev pub check_dumps : Bytes → File E × List (File E) → WalkError E ⊎ (File E × List (File E))
  check_dumps filename (meta, dumps) =
      if all_dumps dumps then inr (meta, dumps) else inl (not_link_dump filename)

  -- the `switch` of `classifyFiles` on files that are not empty
  unfoldable pub pick_meta : File E → List (File E) → Option (File E × List (File E))
  unfolding split_last find_meta
  pick_meta f files =
      let (init, last) = split_last f files in
      if is_meta f
      then some (f, files)
      else if is_meta last
      then some (last, init)
      else find_meta [] (f ∷ files)

  unfoldable pub classify_files : List (File E) → Bytes → WalkError E ⊎ (File E × List (File E))
  unfolding pick_meta all_dumps
  classify_files [] filename = inl (empty_archive filename)
  classify_files (f ∷ files) filename = elim (pick_meta f files) [
    | none ↦ inl (no_meta_file filename)
    | some picked ↦ check_dumps filename picked
  ]

module _ {E S : Type 0} where
  -- goes on where no error was returned
  abbrev pub next :
      (S → Outcome (WalkError E) Unit × S)
      → Outcome (WalkError E) Unit × S
      → Outcome (WalkError E) Unit × S
  next again (ok _, s) = again s
  next again (err e, s) = (err e, s)
  next again (panic, s) = (panic, s)
  next again (hang, s) = (hang, s)

  -- `if err != nil { return err }`, then goes on with the value
  abbrev pub or_fail :
      {A : Type 0}
      → S
      → E ⊎ A
      → (A → Outcome (WalkError E) Unit × S)
      → Outcome (WalkError E) Unit × S
  or_fail s (inl e) go = (err (external e), s)
  or_fail s (inr a) go = go a

-- `fn` is `ProcessFunc`, with a state of its own, `S`, that its calls change.
module _ {E Meta S : Type 0} (fn : Link → Meta → ℤ → Bytes → Bytes → S → Option E × S) where
  -- after a call of `fn`
  abbrev pub after_call :
      (S → Outcome (WalkError E) Unit × S) → Option E × S → Outcome (WalkError E) Unit × S
  after_call again (none, s) = again s
  after_call again (some e, s) = (err (external e), s)

  -- after a call of `br.Read`; `again` is the next round
  abbrev pub after_read :
      (Reader → S → Outcome (WalkError E) Unit × S)
      → Meta
      → ℤ
      → Bytes
      → Bytes
      → S
      → Outcome Beacon.Error Link × Reader
      → Outcome (WalkError E) Unit × S
  after_read again meta len filename name s (ok link, r) =
      after_call (again r) (fn link meta len filename name s)
  after_read again meta len filename name s (err e, r) =
      if is_eof e then (ok tt, s) else (err (beacon e), s)
  after_read again meta len filename name s (panic, r) = (panic, s)
  after_read again meta len filename name s (hang, r) = (hang, s)

  -- The loop of `processLinkDump`. What it prints is left out.
  unfoldable pub process_links :
      ℕ → Meta → ℤ → Bytes → Bytes → Reader → S → Outcome (WalkError E) Unit × S
  unfolding read
  process_links zero meta len filename name r s = (hang, s)
  process_links (suc fuel) meta len filename name r s =
      after_read (process_links fuel meta len filename name) meta len filename name s (read r)

  -- `processLinkDump` after the file was opened
  unfoldable pub process_opened :
      Bytes → Bytes → Meta → S → E ⊎ (Bytes × Beacon.Error) → Outcome (WalkError E) Unit × S
  unfolding process_links base
  process_opened name filename meta s (inl e) = (err (external e), s)
  process_opened name filename meta s (inr (text, final)) =
      let shortcode_len = minus (length (base name)) (length txt_xz) in
      let br = new_urlteam_reader text final shortcode_len in
      process_links (suc (unread br)) meta shortcode_len filename name br s

  unfoldable pub process_link_dump : File E → Bytes → Meta → S → Outcome (WalkError E) Unit × S
  unfolding process_opened
  process_link_dump f filename meta s = process_opened f.name filename meta s f.open_xz

  -- the loop of `ProcessProject`
  unfoldable pub process_dumps : List (File E) → Bytes → Meta → S → Outcome (WalkError E) Unit × S
  unfolding process_link_dump
  process_dumps [] filename meta s = (ok tt, s)
  process_dumps (f ∷ files) filename meta s =
      next (process_dumps files filename meta) (process_link_dump f filename meta s)
