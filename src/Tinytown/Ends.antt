-- ===== src/Tinytown/Ends.antt =====
-- tinytown/walk.go: the walk over the releases comes to an end.
use urlhero.Common.{
  Bool, not, true, false, Option, List, [], ◌∷◌, ◌⊎◌, inl, inr, Outcome, ok, err, panic, hang,
  Bytes, codes, if◌then◌else◌, has_suffix, ℤ,
}
use urlhero.Beacon.{Link}
use urlhero.Beacon as Beacon
use urlhero.Tinytown.{
  WalkError, File, DirEntry, next, or_fail, classify_files, process_dumps, process_link_dump,
}
use urlhero.Tinytown.Visits.{Ends, process_link_dump-Ends}
use urlhero.Tinytown.Releases.{
  read_meta_file, process_classified, process_project, process_files, process_release, process_dirs,
  process_releases,
}

module _ {E Meta S : Type 0} (fn : Link → Meta → ℤ → Bytes → Bytes → S → Option E × S) where
  next-Ends :
      (again : S → Outcome (WalkError E) Unit × S) (m : Outcome (WalkError E) Unit × S)
      → Ends m.0
      → ((s : S) → Ends (again s).0)
      → Ends (next again m).0
  next-Ends again (ok _, s) h k = k s
  next-Ends again (err e, s) h k = tt
  next-Ends again (panic, s) h k = tt
  next-Ends again (hang, s) h k = h

  process_dumps-Ends :
      (files : List (File E)) (filename : Bytes) (meta : Meta) (s : S)
      → Ends (process_dumps fn files filename meta s).0
  unfolding process_dumps
  process_dumps-Ends [] filename meta s = tt
  process_dumps-Ends (f ∷ files) filename meta s =
      next-Ends (process_dumps fn files filename meta) (process_link_dump fn f filename meta s)
        (process_link_dump-Ends fn f filename meta s) (process_dumps-Ends files filename meta)

  skip-Ends :
      (b : Bool) (x y : Outcome (WalkError E) Unit × S)
      → Ends x.0
      → Ends y.0
      → Ends (if◌then◌else◌ {A = Outcome (WalkError E) Unit × S} b x y).0
  skip-Ends true x y h k = h
  skip-Ends false x y h k = k

  or_fail-Ends :
      {A : Type 0} (s : S) (o : E ⊎ A) (go : A → Outcome (WalkError E) Unit × S)
      → ((a : A) → Ends (go a).0)
      → Ends (or_fail s o go).0
  or_fail-Ends s (inl e) go h = tt
  or_fail-Ends s (inr a) go h = h a

  module _ (open_reader : Bytes → E ⊎ List (File E))
      (decode : Bytes × Beacon.Error → E ⊎ Meta) where
    process_classified-Ends :
        (filename : Bytes) (s : S) (c : WalkError E ⊎ (File E × List (File E)))
        → Ends (process_classified fn open_reader decode filename s c).0
    process_classified-Ends filename s (inl e) = tt
    process_classified-Ends filename s (inr (meta_file, dumps)) =
        or_fail-Ends s (read_meta_file fn open_reader decode meta_file)
          (λ meta. process_dumps fn dumps filename meta s)
          (λ meta. process_dumps-Ends dumps filename meta s)

    process_project-Ends :
        (filename : Bytes) (s : S) → Ends (process_project fn open_reader decode filename s).0
    unfolding process_project
    process_project-Ends filename s =
        or_fail-Ends s (open_reader filename)
          (λ files.
            process_classified fn open_reader decode filename s (classify_files files filename))
          (λ files. process_classified-Ends filename s (classify_files files filename))

    module _ (read_dir : Bytes → E ⊎ List DirEntry) (join : Bytes → Bytes → Bytes) where
      process_files-Ends :
          (dir : Bytes) (files : List DirEntry) (s : S)
          → Ends (process_files fn open_reader decode read_dir join dir files s).0
      unfolding process_files
      process_files-Ends dir [] s = tt
      process_files-Ends dir (file ∷ files) s =
          skip-Ends (not (has_suffix (join dir file.name) (codes ".zip"))) _ _
            (process_files-Ends dir files s)
            (next-Ends (process_files fn open_reader decode read_dir join dir files)
              (process_project fn open_reader decode (join dir file.name) s)
              (process_project-Ends (join dir file.name) s) (process_files-Ends dir files))

      process_release-Ends :
          (dir : Bytes) (s : S) → Ends (process_release fn open_reader decode read_dir join dir s).0
      unfolding process_release
      process_release-Ends dir s =
          or_fail-Ends s (read_dir dir)
            (λ files. process_files fn open_reader decode read_dir join dir files s)
            (λ files. process_files-Ends dir files s)

      process_dirs-Ends :
          (root : Bytes) (releases : List DirEntry) (s : S)
          → Ends (process_dirs fn open_reader decode read_dir join root releases s).0
      unfolding process_dirs
      process_dirs-Ends root [] s = tt
      process_dirs-Ends root (release ∷ releases) s =
          skip-Ends (not release.is_dir)
            (process_dirs fn open_reader decode read_dir join root releases s) _
            (process_dirs-Ends root releases s)
            (next-Ends (process_dirs fn open_reader decode read_dir join root releases)
              (process_release fn open_reader decode read_dir join (join root release.name) s)
              (process_release-Ends (join root release.name) s) (process_dirs-Ends root releases))

      -- The walk over the releases of a directory returns or panics, whatever the files hold: no
      -- loop goes on for ever.
      pub process_releases-Ends :
          (root : Bytes) (s : S)
          → Ends (process_releases fn open_reader decode read_dir join root s).0
      unfolding process_releases
      process_releases-Ends root s =
          or_fail-Ends s (read_dir root)
            (λ releases. process_dirs fn open_reader decode read_dir join root releases s)
            (λ releases. process_dirs-Ends root releases s)
