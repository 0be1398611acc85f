-- ===== src/Tinytown/Releases.antt =====
-- tinytown/walk.go: `ProcessProject` and `ProcessReleases`. Parameters stand for the file system and
-- the packages outside: `open_reader` is `zip.OpenReader`, which gives the files of an archive,
-- `decode` is `jsonutil.Decode`, `read_dir` is `os.ReadDir` and `join` is `filepath.Join`.
use urlhero.Common.{
  not, Option, List, [], ◌∷◌, ◌⊎◌, inl, inr, Outcome, ok, err, Bytes, codes, if◌then◌else◌,
  has_suffix, ℤ,
}
use urlhero.Beacon.{Link}
use urlhero.Beacon as Beacon
use urlhero.Tinytown.{WalkError, File, DirEntry, next, or_fail, classify_files, process_dumps}

module _ {E Meta S : Type 0} (fn : Link → Meta → ℤ → Bytes → Bytes → S → Option E × S)
    (open_reader : Bytes → E ⊎ List (File E)) (decode : Bytes × Beacon.Error → E ⊎ Meta) where
  -- `readMeta`
  unfoldable pub read_meta_file : File E → E ⊎ Meta
  read_meta_file f = elim f.open_xz [ inl e ↦ inl e | inr text ↦ decode text ]

  -- `ProcessProject` from what `classifyFiles` gives
  abbrev pub process_classified :
      Bytes → S → WalkError E ⊎ (File E × List (File E)) → Outcome (WalkError E) Unit × S
  process_classified filename s (inl e) = (err e, s)
  process_classified filename s (inr (meta_file, dumps)) =
      or_fail s (read_meta_file meta_file) (λ meta. process_dumps fn dumps filename meta s)

  unfoldable pub process_project : Bytes → S → Outcome (WalkError E) Unit × S
  unfolding classify_files read_meta_file process_dumps
  process_project filename s =
      or_fail s (open_reader filename)
        (λ files. process_classified filename s (classify_files files filename))

  module _ (read_dir : Bytes → E ⊎ List DirEntry) (join : Bytes → Bytes → Bytes) where
    -- the loop over the files of a release
    unfoldable pub process_files : Bytes → List DirEntry → S → Outcome (WalkError E) Unit × S
    unfolding process_project has_suffix
    process_files dir [] s = (ok tt, s)
    process_files dir (file ∷ files) s =
        let filename = join dir file.name in
        let skip = process_files dir files s in
        if not (has_suffix filename (codes ".zip"))
        then skip
        else next (process_files dir files) (process_project filename s)

    unfoldable pub process_release : Bytes → S → Outcome (WalkError E) Unit × S
    unfolding process_files
    process_release dir s = or_fail s (read_dir dir) (λ files. process_files dir files s)

    -- the loop over the releases
    unfoldable pub process_dirs : Bytes → List DirEntry → S → Outcome (WalkError E) Unit × S
    unfolding process_release
    process_dirs root [] s = (ok tt, s)
    process_dirs root (release ∷ releases) s =
        let skip = process_dirs root releases s in
        if not release.is_dir
        then skip
        else next (process_dirs root releases) (process_release (join root release.name) s)

    unfoldable pub process_releases : Bytes → S → Outcome (WalkError E) Unit × S
    unfolding process_dirs
    process_releases root s = or_fail s (read_dir root) (λ releases. process_dirs root releases s)
