-- ===== src/Commands/Grep.antt =====
-- cmd/urlgrep: what is printed, against a walk that collects every link.
use urlhero.Common.{
  Bool, none, List, [], ◌∷◌, ◌++◌, ◌⊎◌, inl, inr, ◌≡◌, refl, ap, Bool-cases, Bytes, if◌then◌else◌,
}
use urlhero.Beacon.{Link}
use urlhero.Beacon as Beacon
use urlhero.Tinytown.{File, DirEntry}
use urlhero.Tinytown.Releases.{process_releases}
use urlhero.Tinytown.Search.Filter.{collect}
use urlhero.Tinytown.Walks.{process_releases-image}
use urlhero.Commands.{grep_link, url_grep}
use urlhero.Commands.Exits.{try}
use urlhero.Commands.Mains.{urlgrep}

-- the targets that match, in the order of the links
abbrev pub matching : (Bytes → Bool) → List Link → List Bytes
matching matches [] = []
matching matches (l ∷ links) =
    let rest = matching matches links in if matches l.target then l.target ∷ rest else rest

matching-snoc :
    (matches : Bytes → Bool) (l : Link) (links : List Link)
    → (if matches l.target then matching matches links ++ l.target ∷ [] else matching matches links)
      ≡ matching matches (links ++ l ∷ [])
matching-snoc matches l [] = refl
matching-snoc matches l (k ∷ links) = elim (Bool-cases (matches k.target)) [
  | inl q ↦ elim (Bool-cases (matches l.target)) [
    | inl p ↦ rw (q, p) (ap (λ r. k.target ∷ r) (rw p at (matching-snoc matches l links)))
    | inr p ↦ rw (q, p) (ap (λ r. k.target ∷ r) (rw p at (matching-snoc matches l links)))
  ]
  | inr q ↦ rw q (matching-snoc matches l links)
]

-- `urlgrep` with a directory and a pattern that compiles prints the targets that match among the links of
-- a walk that collects them all, in their order, and ends as that walk does.
pub urlgrep-collect :
    {E Meta : Type 0} (compile : Bytes → E ⊎ (Bytes → Bool))
    (open_reader : Bytes → E ⊎ List (File E)) (decode : Bytes × Beacon.Error → E ⊎ Meta)
    (read_dir : Bytes → E ⊎ List DirEntry) (join : Bytes → Bytes → Bytes) (dir pattern : Bytes)
    (matches : Bytes → Bool)
    → compile pattern ≡ inr matches
    → urlgrep compile open_reader decode read_dir join (dir ∷ pattern ∷ []) ≡ (
      try (process_releases collect open_reader decode read_dir join dir []).0,
      matching matches (process_releases collect open_reader decode read_dir join dir []).1,
    )
unfolding urlgrep url_grep
urlgrep-collect compile open_reader decode read_dir join dir pattern matches e = rw e (
    ap (λ r. (try r.0, r.1))
      (process_releases-image (matching matches) collect (grep_link compile matches)
        (λ l meta len filename name links. ap (λ r. (none, r)) (matching-snoc matches l links))
        open_reader decode read_dir join dir []))
