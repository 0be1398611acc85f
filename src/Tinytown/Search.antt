-- ===== src/Tinytown/Search.antt =====
-- tinytown/search.go: the links with given shortcodes in the projects of one shortener. The links
-- that are found are the state of the callback. Parameters are as in `Tinytown.Releases`.
pub mod Images
pub mod Filter
pub mod Projects
pub mod Found
use urlhero.Common.{
  ℕ, Bool, not, ◌&&◌, ◌||◌, Option, none, List, [], ◌∷◌, ◌++◌, ◌⊎◌, Outcome, Bytes, codes, str_eq,
  if◌then◌else◌, has_prefix, has_suffix, ℤ, ok, err, panic, hang, false,
}
use urlhero.Beacon.{Link}
use urlhero.Beacon as Beacon
use urlhero.Tinytown.{WalkError, File, DirEntry, next, or_fail}
use urlhero.Tinytown.Releases.{process_project}

-- whether a shortcode is a key of the map
unfoldable pub in_map : List Bytes → Bytes → Bool
unfolding str_eq
in_map [] c = false
in_map (x ∷ shortcodes) c = str_eq c x || in_map shortcodes c

-- the callback
abbrev pub keep_found :
    {E Meta : Type 0}
    → List Bytes
    → Link
    → Meta
    → ℤ
    → Bytes
    → Bytes
    → List Link
    → Option E × List Link
keep_found shortcodes l meta len filename name links =
    (none, if in_map shortcodes l.source then links ++ l ∷ [] else links)

-- whether a file of a release is a project of the shortener
unfoldable pub is_project : Bytes → Bytes → Bool
unfolding has_prefix has_suffix
is_project shortener name =
    has_prefix name (shortener ++ codes ".") && has_suffix name (codes ".zip")

-- what `SearchReleases` makes of the walk
abbrev pub found :
    {E : Type 0} → Outcome (WalkError E) Unit × List Link → Outcome (WalkError E) (List Link)
found (ok _, links) = ok links
found (err e, links) = err e
found (panic, links) = panic
found (hang, links) = hang

module _ {E Meta : Type 0} (open_reader : Bytes → E ⊎ List (File E))
    (decode : Bytes × Beacon.Error → E ⊎ Meta) (read_dir : Bytes → E ⊎ List DirEntry)
    (join : Bytes → Bytes → Bytes) where
  -- The walk, for any callback.
  module _ {S : Type 0} (fn : Link → Meta → ℤ → Bytes → Bytes → S → Option E × S)
      (shortener : Bytes) where
    unfoldable pub search_files : Bytes → List DirEntry → S → Outcome (WalkError E) Unit × S
    unfolding process_project is_project
    search_files dir [] s = (ok tt, s)
    search_files dir (file ∷ files) s =
        let skip = search_files dir files s in
        if not (is_project shortener file.name)
        then skip
        else next (search_files dir files)
            (process_project fn open_reader decode (join dir file.name) s)

    unfoldable pub search_dirs : Bytes → List DirEntry → S → Outcome (WalkError E) Unit × S
    unfolding search_files
    search_dirs root [] s = (ok tt, s)
    search_dirs root (release ∷ releases) s =
        let skip = search_dirs root releases s in
        let dir = join root release.name in
        if not release.is_dir
        then skip
        else next (search_dirs root releases)
            (or_fail s (read_dir dir) (λ files. search_files dir files s))

    unfoldable pub search_root : Bytes → S → Outcome (WalkError E) Unit × S
    unfolding search_dirs
    search_root root s = or_fail s (read_dir root) (λ releases. search_dirs root releases s)

  -- `SearchReleases`
  unfoldable pub search_releases : Bytes → Bytes → List Bytes → Outcome (WalkError E) (List Link)
  unfolding search_root in_map
  search_releases root shortener shortcodes =
      found (search_root (keep_found shortcodes) shortener root [])
