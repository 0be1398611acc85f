-- ===== src/Tinytown/Search/Filter.antt =====
-- tinytown/search.go: a search finds what a walk that collects every link would find, filtered.
use urlhero.Common.{
  Option, none, List, [], ◌∷◌, ◌++◌, ◌⊎◌, inl, inr, ◌≡◌, refl, ap, ◌∙◌, Bool-cases, Outcome, ok,
  err, panic, hang, Bytes, if◌then◌else◌, ℤ,
}
use urlhero.Beacon.{Link, is_eof}
use urlhero.Beacon as Beacon
use urlhero.Tinytown.{WalkError, File, DirEntry}
use urlhero.Tinytown.Search.{in_map, keep_found, search_root, found, search_releases}
use urlhero.Tinytown.Search.Images.{image, search_root-image}

-- the links whose shortcodes are asked for, in their order
unfoldable pub wanted : List Bytes → List Link → List Link
unfolding in_map
wanted shortcodes [] = []
wanted shortcodes (l ∷ links) =
    let rest = wanted shortcodes links in if in_map shortcodes l.source then l ∷ rest else rest

-- a callback that keeps every link
abbrev pub collect :
    {E Meta : Type 0} → Link → Meta → ℤ → Bytes → Bytes → List Link → Option E × List Link
collect l meta len filename name links = (none, links ++ l ∷ [])

wanted-snoc :
    (shortcodes : List Bytes) (l : Link) (links : List Link)
    → (if in_map shortcodes l.source
        then wanted shortcodes links ++ l ∷ []
        else wanted shortcodes links)
      ≡ wanted shortcodes (links ++ l ∷ [])
unfolding wanted
wanted-snoc shortcodes l [] = refl
wanted-snoc shortcodes l (k ∷ links) = elim (Bool-cases (in_map shortcodes k.source)) [
  | inl q ↦ elim (Bool-cases (in_map shortcodes l.source)) [
    | inl p ↦ rw (q, p) (ap (λ r. k ∷ r) (rw (p) at (wanted-snoc shortcodes l links)))
    | inr p ↦ rw (q, p) (ap (λ r. k ∷ r) (rw (p) at (wanted-snoc shortcodes l links)))
  ]
  | inr q ↦ rw (q) (wanted-snoc shortcodes l links)
]

-- the links of a walk that collects them all, the wanted ones kept
abbrev pub found_of :
    {E : Type 0}
    → List Bytes
    → Outcome (WalkError E) Unit × List Link
    → Outcome (WalkError E) (List Link)
found_of shortcodes (ok _, links) = ok (wanted shortcodes links)
found_of shortcodes (err e, links) = err e
found_of shortcodes (panic, links) = panic
found_of shortcodes (hang, links) = hang

found-image :
    {E : Type 0} (shortcodes : List Bytes) (m : Outcome (WalkError E) Unit × List Link)
    → found (image (wanted shortcodes) m) ≡ found_of shortcodes m
found-image shortcodes (ok _, links) = refl
found-image shortcodes (err e, links) = refl
found-image shortcodes (panic, links) = refl
found-image shortcodes (hang, links) = refl

-- `SearchReleases` comes to what the walk of the shortener's projects with a callback that keeps
-- every link comes to, with the links dropped whose shortcode is not a key of the map.
pub search_releases-collect :
    {E Meta : Type 0} (open_reader : Bytes → E ⊎ List (File E))
    (decode : Bytes × Beacon.Error → E ⊎ Meta) (read_dir : Bytes → E ⊎ List DirEntry)
    (join : Bytes → Bytes → Bytes) (root shortener : Bytes) (shortcodes : List Bytes)
    → search_releases open_reader decode read_dir join root shortener shortcodes
      ≡ found_of shortcodes (search_root open_reader decode read_dir join collect shortener root [])
unfolding search_releases wanted
search_releases-collect open_reader decode read_dir join root shortener shortcodes =
    ap found (
      search_root-image (wanted shortcodes) collect (keep_found shortcodes)
        (λ l meta len filename name links. ap (λ r. (none, r)) (wanted-snoc shortcodes l links))
        open_reader decode read_dir join shortener root [])
    ∙ found-image shortcodes
        (search_root open_reader decode read_dir join collect shortener root [])
