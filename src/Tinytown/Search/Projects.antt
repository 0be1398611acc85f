-- ===== src/Tinytown/Search/Projects.antt =====
-- tinytown/search.go: which files are projects of the shortener, and which links are asked for.
use urlhero.Common.{
  ◌&&◌, true, List, [], ◌∷◌, ◌++◌, inl, inr, ◌≡◌, ◌↔◌, refl, ap, arith, Bool, Bool-cases, Bytes,
  codes, str_eq, str_eq_iff, has_prefix, has_suffix, has_prefix_iff, has_suffix_iff,
}
use mathlib.Core.List.{Memᴰ}
use urlhero.Beacon.{Link}
use urlhero.Tinytown.Search.{in_map, is_project}
use urlhero.Tinytown.Search.Filter.{wanted}

-- The name of a project of the shortener: it begins with the shortener's name and a dot, and ends in
-- ".zip".
abbrev pub IsProject : Bytes → Bytes → Type 0
IsProject shortener name =
    ((rest : Bytes) × (name ≡ shortener ++ codes "." ++ rest))
    × ((start : Bytes) × (name ≡ start ++ codes ".zip"))

and_iff : (a b : Bool) → ((a && b) ≡ true) ↔ ((a ≡ true) × (b ≡ true))
and_iff a b = ground arith

pub is_project_iff :
    (shortener name : Bytes) → (is_project shortener name ≡ true) ↔ IsProject shortener name
unfolding is_project
is_project_iff shortener name =
    let split =
      and_iff (has_prefix name (shortener ++ codes ".")) (has_suffix name (codes ".zip")) in
    let front = has_prefix_iff name (shortener ++ codes ".") in
    let back = has_suffix_iff name (codes ".zip") in
    (λ h. let (p, q) = split.0 h in (front.0 p, back.0 q), λ (p, q). split.1 (front.1 p, back.1 q))

in_map-Mem : (shortcodes : List Bytes) (c : Bytes) → in_map shortcodes c ≡ true → Memᴰ c shortcodes
unfolding in_map
in_map-Mem [] c h = cc
in_map-Mem (x ∷ shortcodes) c h = elim (Bool-cases (str_eq c x)) [
  | inl e ↦ Memᴰ.head ((str_eq_iff c x).0 e)
  | inr e ↦ Memᴰ.tail (in_map-Mem shortcodes c (rw e at h))
]

Mem-in_map : (shortcodes : List Bytes) (c : Bytes) → Memᴰ c shortcodes → in_map shortcodes c ≡ true
unfolding in_map
Mem-in_map [] c m = elim m [ ]
Mem-in_map (x ∷ shortcodes) c (Memᴰ.head e) = rw ((str_eq_iff c x).1 e) refl
Mem-in_map (x ∷ shortcodes) c (Memᴰ.tail m) = let h = Mem-in_map shortcodes c m in ground (arith, h)

-- The links whose shortcodes are among those given, in order.
pub data Selects (shortcodes : List Bytes) : List Link → List Link → Type 0 where
  done : Selects shortcodes [] []
  kept :
      {l : Link} {all links : List Link}
      → Memᴰ l.source shortcodes
      → Selects shortcodes all links
      → Selects shortcodes (l ∷ all) (l ∷ links)
  dropped :
      {l : Link} {all links : List Link}
      → ¬ Memᴰ l.source shortcodes
      → Selects shortcodes all links
      → Selects shortcodes (l ∷ all) links

pub Selects-wanted :
    (shortcodes : List Bytes) (all : List Link) → Selects shortcodes all (wanted shortcodes all)
unfolding wanted
Selects-wanted shortcodes [] = done
Selects-wanted shortcodes (l ∷ all) = elim (Bool-cases (in_map shortcodes l.source)) [
  | inl e ↦ rw e (kept (in_map-Mem shortcodes l.source e) (Selects-wanted shortcodes all))
  | inr e ↦ rw e (
      dropped (λ m. let h = Mem-in_map shortcodes l.source m in cc) (Selects-wanted shortcodes all))
]

pub wanted-Selects :
    (shortcodes : List Bytes) {all links : List Link}
    → Selects shortcodes all links
    → wanted shortcodes all ≡ links
unfolding wanted
wanted-Selects shortcodes done = refl
wanted-Selects shortcodes (kept {l} m h) =
    rw (Mem-in_map shortcodes l.source m) (ap (λ r. l ∷ r) (wanted-Selects shortcodes h))
wanted-Selects shortcodes (dropped {l} m h) = elim (Bool-cases (in_map shortcodes l.source)) [
  | inl e ↦ absurd (m (in_map-Mem shortcodes l.source e))
  | inr e ↦ rw e (wanted-Selects shortcodes h)
]
