-- ===== src/Tinytown/Search/Found.antt =====
-- tinytown/search.go: the links that `SearchReleases` returns, by the files that are searched.
use urlhero.Common.{
  true, false, List, [], ◌∷◌, ◌⊎◌, inl, inr, ◌≡◌, ◌↔◌, refl, sym, ap, ◌∙◌, subst, Bool-cases,
  Outcome, ok, err, panic, hang, Bytes, ok-injective,
}
use urlhero.Beacon.{Link}
use urlhero.Beacon as Beacon
use urlhero.Tinytown.{WalkError, File, DirEntry, next, or_fail}
use urlhero.Tinytown.Releases.{process_project}
use urlhero.Tinytown.Search.{is_project, search_files, search_dirs, search_root, search_releases}
use urlhero.Tinytown.Search.Projects.{
  IsProject, is_project_iff, Selects, Selects-wanted, wanted-Selects,
}
use urlhero.Tinytown.Search.Filter.{collect, wanted, found_of, search_releases-collect}

next-ok :
    {E S : Type 0} (again : S → Outcome (WalkError E) Unit × S) (m : Outcome (WalkError E) Unit × S)
    (s' : S)
    → next again m ≡ (ok tt, s')
    → (s : S) × (m ≡ (ok tt, s)) × (again s ≡ (ok tt, s'))
next-ok again (ok _, s) s' h = (s, refl, h)
next-ok again (err e, s) s' h = cc
next-ok again (panic, s) s' h = cc
next-ok again (hang, s) s' h = cc

or_fail-ok :
    {E S A : Type 0} (s : S) (m : E ⊎ A) (go : A → Outcome (WalkError E) Unit × S) (s' : S)
    → or_fail s m go ≡ (ok tt, s')
    → (a : A) × (m ≡ inr a) × (go a ≡ (ok tt, s'))
or_fail-ok s (inl e) go s' h = cc
or_fail-ok s (inr a) go s' h = (a, refl, h)

module _ {E Meta : Type 0} (open_reader : Bytes → E ⊎ List (File E))
    (decode : Bytes × Beacon.Error → E ⊎ Meta) (read_dir : Bytes → E ⊎ List DirEntry)
    (join : Bytes → Bytes → Bytes) (shortener : Bytes) where
  -- The projects of the shortener among the files of a release are walked in order, each to its end;
  -- the links of all are put after those that there are.
  pub data FilesAdd (dir : Bytes) : List DirEntry → List Link → List Link → Type 0 where
    done : {links : List Link} → FilesAdd dir [] links links
    other :
        {file : DirEntry} {files : List DirEntry} {links links' : List Link}
        → ¬ IsProject shortener file.name
        → FilesAdd dir files links links'
        → FilesAdd dir (file ∷ files) links links'
    project :
        {file : DirEntry} {files : List DirEntry} {links links' links'' : List Link}
        → IsProject shortener file.name
        → process_project collect open_reader decode (join dir file.name) links ≡ (ok tt, links')
        → FilesAdd dir files links' links''
        → FilesAdd dir (file ∷ files) links links''

  -- The same for the releases, which are the directories in the root.
  pub data ReleasesAdd (root : Bytes) : List DirEntry → List Link → List Link → Type 0 where
    done : {links : List Link} → ReleasesAdd root [] links links
    other :
        {entry : DirEntry} {entries : List DirEntry} {links links' : List Link}
        → entry.is_dir ≡ false
        → ReleasesAdd root entries links links'
        → ReleasesAdd root (entry ∷ entries) links links'
    release :
        {entry : DirEntry} {entries files : List DirEntry} {links links' links'' : List Link}
        → entry.is_dir ≡ true
        → read_dir (join root entry.name) ≡ inr files
        → FilesAdd (join root entry.name) files links links'
        → ReleasesAdd root entries links' links''
        → ReleasesAdd root (entry ∷ entries) links links''

  search_files-FilesAdd :
      (dir : Bytes) (files : List DirEntry) (links links' : List Link)
      → search_files open_reader decode read_dir join collect shortener dir files links
        ≡ (ok tt, links')
      → FilesAdd dir files links links'
  unfolding search_files
  search_files-FilesAdd dir [] links links' h = subst (FilesAdd dir [] links) (ap (λ m. m.1) h) done
  search_files-FilesAdd dir (file ∷ files) links links' h =
      elim (Bool-cases (is_project shortener file.name)) [
        | inl e ↦
            let (mid, p, q) =
              next-ok (search_files open_reader decode read_dir join collect shortener dir files)
                (process_project collect open_reader decode (join dir file.name) links) links'
                (rw e at h) in
            project ((is_project_iff shortener file.name).0 e) p
              (search_files-FilesAdd dir files mid links' q)
        | inr e ↦
            other (λ y. let t = (is_project_iff shortener file.name).1 y in cc)
              (search_files-FilesAdd dir files links links' (rw e at h))
      ]

  FilesAdd-search_files :
      (dir : Bytes) {files : List DirEntry} {links links' : List Link}
      → FilesAdd dir files links links'
      → search_files open_reader decode read_dir join collect shortener dir files links
        ≡ (ok tt, links')
  unfolding search_files
  FilesAdd-search_files dir done = refl
  FilesAdd-search_files dir (other {file} n h) =
      elim (Bool-cases (is_project shortener file.name)) [
        | inl e ↦ absurd (n ((is_project_iff shortener file.name).0 e))
        | inr e ↦ rw e (FilesAdd-search_files dir h)
      ]
  FilesAdd-search_files dir (project {file} y p h) =
      rw ((is_project_iff shortener file.name).1 y, p) (FilesAdd-search_files dir h)

  search_dirs-ReleasesAdd :
      (root : Bytes) (entries : List DirEntry) (links links' : List Link)
      → search_dirs open_reader decode read_dir join collect shortener root entries links
        ≡ (ok tt, links')
      → ReleasesAdd root entries links links'
  unfolding search_dirs
  search_dirs-ReleasesAdd root [] links links' h =
      subst (ReleasesAdd root [] links) (ap (λ m. m.1) h) done
  search_dirs-ReleasesAdd root (entry ∷ entries) links links' h =
      let dir = join root entry.name in
      elim (Bool-cases entry.is_dir) [
        | inl e ↦
            let (mid, p, q) =
              next-ok (search_dirs open_reader decode read_dir join collect shortener root entries)
                (or_fail links (read_dir dir) (λ files.
                  search_files open_reader decode read_dir join collect shortener dir files links))
                links' (rw e at h) in
            let (files, r, w) =
              or_fail-ok links (read_dir dir)
                (λ files.
                  search_files open_reader decode read_dir join collect shortener dir files links)
                mid p in
            release e r (search_files-FilesAdd dir files links mid w)
              (search_dirs-ReleasesAdd root entries mid links' q)
        | inr e ↦ other e (search_dirs-ReleasesAdd root entries links links' (rw e at h))
      ]

  ReleasesAdd-search_dirs :
      (root : Bytes) {entries : List DirEntry} {links links' : List Link}
      → ReleasesAdd root entries links links'
      → search_dirs open_reader decode read_dir join collect shortener root entries links
        ≡ (ok tt, links')
  unfolding search_dirs
  ReleasesAdd-search_dirs root done = refl
  ReleasesAdd-search_dirs root (other e h) = rw e (ReleasesAdd-search_dirs root h)
  ReleasesAdd-search_dirs root (release {entry} e r f h) =
      rw (e, r, FilesAdd-search_files (join root entry.name) f) (ReleasesAdd-search_dirs root h)

  found_of-ok :
      (shortcodes : List Bytes) (m : Outcome (WalkError E) Unit × List Link) (links : List Link)
      → found_of shortcodes m ≡ ok links
      → (all : List Link) × (m ≡ (ok tt, all)) × (wanted shortcodes all ≡ links)
  found_of-ok shortcodes (ok _, all) links h = (all, refl, ok-injective h)
  found_of-ok shortcodes (err e, all) links h = cc
  found_of-ok shortcodes (panic, all) links h = cc
  found_of-ok shortcodes (hang, all) links h = cc

  -- `SearchReleases` returns links exactly when the root is listed, each directory in it is listed
  -- and the projects of the shortener in those, whose names begin with its name and a dot and end in
  -- ".zip", are walked to their ends, and the links are those of all of these projects, in order, whose
  -- shortcode is a key of the map.
  pub search_releases_iff :
      (root : Bytes) (shortcodes : List Bytes) (links : List Link)
      → (search_releases open_reader decode read_dir join root shortener shortcodes ≡ ok links) ↔ (
          (releases : List DirEntry) × (all : List Link) × (read_dir root ≡ inr releases)
          × ReleasesAdd root releases [] all
          × Selects shortcodes all links)
  unfolding search_root
  search_releases_iff root shortcodes links =
      let walk = search_root open_reader decode read_dir join collect shortener root [] in
      let same =
        search_releases-collect open_reader decode read_dir join root shortener shortcodes in
      (
        λ h.
            let (all, e, w) = found_of-ok shortcodes walk links (sym same ∙ h) in
            let (releases, r, d) =
              or_fail-ok [] (read_dir root)
                (λ releases.
                  search_dirs open_reader decode read_dir join collect shortener root releases [])
                all e in
            (
              releases,
              all,
              r,
              search_dirs-ReleasesAdd root releases [] all d,
              subst (Selects shortcodes all) w (Selects-wanted shortcodes all),
            ),
        λ (releases, all, r, d, w).
            same ∙ rw (r, ReleasesAdd-search_dirs root d) (ap ok (wanted-Selects shortcodes w)),
      )
