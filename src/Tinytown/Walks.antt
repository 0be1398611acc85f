-- ===== src/Tinytown/Walks.antt =====
-- tinytown/walk.go: `ProcessReleases` commutes with a map of the callback's state.
use urlhero.Common.{
  Option, List, [], ◌∷◌, ◌⊎◌, inl, inr, ◌≡◌, refl, ap, ◌∙◌, Bool-cases, Bytes, codes, has_suffix, ℤ,
}
use urlhero.Beacon.{Link}
use urlhero.Beacon as Beacon
use urlhero.Tinytown.{File, DirEntry, next}
use urlhero.Tinytown.Releases.{
  process_project, process_files, process_release, process_dirs, process_releases,
}
use urlhero.Tinytown.Search.Images.{image, next-image, or_fail-image, process_project-image}

module _ {S T E Meta : Type 0} (g : S → T) (fn : Link → Meta → ℤ → Bytes → Bytes → S → Option E × S)
    (gn : Link → Meta → ℤ → Bytes → Bytes → T → Option E × T)
    (same : (l : Link) (meta : Meta) (len : ℤ) (filename name : Bytes) (s : S)
      → gn l meta len filename name (g s) ≡ image g (fn l meta len filename name s))
    (open_reader : Bytes → E ⊎ List (File E)) (decode : Bytes × Beacon.Error → E ⊎ Meta)
    (read_dir : Bytes → E ⊎ List DirEntry) (join : Bytes → Bytes → Bytes) where
  process_files-image :
      (dir : Bytes) (files : List DirEntry) (s : S)
      → process_files gn open_reader decode read_dir join dir files (g s)
        ≡ image g (process_files fn open_reader decode read_dir join dir files s)
  unfolding process_files
  process_files-image dir [] s = refl
  process_files-image dir (file ∷ files) s =
      let filename = join dir file.name in
      elim (Bool-cases (has_suffix filename (codes ".zip"))) [
        | inl p ↦ rw p (
            ap (next (process_files gn open_reader decode read_dir join dir files))
              (process_project-image g fn gn same open_reader decode filename s)
            ∙ next-image g (process_files fn open_reader decode read_dir join dir files)
                (process_files gn open_reader decode read_dir join dir files)
                (process_project fn open_reader decode filename s) (process_files-image dir files))
        | inr p ↦ rw p (process_files-image dir files s)
      ]

  process_release-image :
      (dir : Bytes) (s : S)
      → process_release gn open_reader decode read_dir join dir (g s)
        ≡ image g (process_release fn open_reader decode read_dir join dir s)
  unfolding process_release
  process_release-image dir s =
      or_fail-image g s (read_dir dir)
        (λ files. process_files fn open_reader decode read_dir join dir files s)
        (λ files. process_files gn open_reader decode read_dir join dir files (g s))
        (λ files. process_files-image dir files s)

  process_dirs-image :
      (root : Bytes) (releases : List DirEntry) (s : S)
      → process_dirs gn open_reader decode read_dir join root releases (g s)
        ≡ image g (process_dirs fn open_reader decode read_dir join root releases s)
  unfolding process_dirs
  process_dirs-image root [] s = refl
  process_dirs-image root (release ∷ releases) s = elim (Bool-cases release.is_dir) [
    | inl p ↦ rw p (
        ap (next (process_dirs gn open_reader decode read_dir join root releases))
          (process_release-image (join root release.name) s)
        ∙ next-image g (process_dirs fn open_reader decode read_dir join root releases)
            (process_dirs gn open_reader decode read_dir join root releases)
            (process_release fn open_reader decode read_dir join (join root release.name) s)
            (process_dirs-image root releases))
    | inr p ↦ rw p (process_dirs-image root releases s)
  ]

  pub process_releases-image :
      (root : Bytes) (s : S)
      → process_releases gn open_reader decode read_dir join root (g s)
        ≡ image g (process_releases fn open_reader decode read_dir join root s)
  unfolding process_releases
  process_releases-image root s =
      or_fail-image g s (read_dir root)
        (λ releases. process_dirs fn open_reader decode read_dir join root releases s)
        (λ releases. process_dirs gn open_reader decode read_dir join root releases (g s))
        (λ releases. process_dirs-image root releases s)
