-- ===== src/Commands.antt =====
-- cmd/getiashortcodes and cmd/urlgrep: the shortener that an argument names, and the links that match a
-- pattern. `compile` is `regexp.Compile`, which gives an error or a test. The reading of the arguments,
-- the printing and the exits are left out.
pub mod Exits
pub mod Mains
mod Grep
mod Shortcodes
pub mod Dumps
pub mod Downloads
mod Tests
use urlhero.Common.{
  ℕ, Bool, Option, none, some, List, [], ◌∷◌, ◌++◌, ◌⊎◌, inl, inr, Outcome, err, Bytes, codes,
  str_eq, map, ◌==◌, if◌then◌else◌, contains_byte, false, ℤ,
}
use urlhero.Beacon.{Link}
use urlhero.Beacon as Beacon
use urlhero.Shorteners.{Shortener}
use urlhero.Shorteners.Lookup.{Table, lookup}
use urlhero.Tinytown.{WalkError, external, File, DirEntry}
use urlhero.Tinytown.Releases.{process_releases}

-- `strings.ReplaceAll` of one byte by another
abbrev pub replace_all : Bytes → ℕ → ℕ → Bytes
replace_all s old new = map (λ c. if c == old then new else c) s

-- a shortener that is not known: its host, or its name, with the other one made of it
unfoldable pub made_shortener : Bytes → Bytes → Option (Bytes → Bool) → Shortener
unfolding contains_byte
made_shortener shortener alpha pattern =
    let dotted = contains_byte shortener b'.' in
    record {
      name = if dotted then replace_all shortener b'.' b'-' else shortener;
      host = if dotted then shortener else replace_all shortener b'-' b'.';
      pre = [];
      alphabet = alpha;
      pattern = pattern;
      clean_func = none;
      is_vanity_func = none;
      has_vanity = false;
    }

module _ {E : Type 0} (compile : Bytes → E ⊎ (Bytes → Bool)) where
  abbrev pub with_pattern : Bytes → Bytes → E ⊎ (Bytes → Bool) → E ⊎ Shortener
  with_pattern shortener alpha (inl e) = inl e
  with_pattern shortener alpha (inr pattern) = inr (made_shortener shortener alpha (some pattern))

  abbrev pub known_or_made : Bytes → Bytes → Option Shortener → E ⊎ Shortener
  known_or_made shortener alpha (some s) = inr s
  known_or_made shortener alpha none =
      if str_eq alpha []
      then inr (made_shortener shortener alpha none)
      else with_pattern shortener alpha (compile (codes "^[" ++ (alpha ++ codes "]+$")))

  -- the shortener of `getiashortcodes`
  unfoldable pub find_shortener : Table → Bytes → Bytes → E ⊎ Shortener
  unfolding lookup made_shortener str_eq
  find_shortener table shortener alpha = known_or_made shortener alpha (lookup shortener table)

  -- the callback of `urlgrep`, with what it has printed
  abbrev pub grep_link :
      {Meta : Type 0}
      → (Bytes → Bool)
      → Link
      → Meta
      → ℤ
      → Bytes
      → Bytes
      → List Bytes
      → Option E × List Bytes
  grep_link matches l meta len release dump printed =
      (none, if matches l.target then printed ++ l.target ∷ [] else printed)

  module _ {Meta : Type 0} (open_reader : Bytes → E ⊎ List (File E))
      (decode : Bytes × Beacon.Error → E ⊎ Meta) (read_dir : Bytes → E ⊎ List DirEntry)
      (join : Bytes → Bytes → Bytes) where
    abbrev pub grep_compiled : Bytes → E ⊎ (Bytes → Bool) → Outcome (WalkError E) Unit × List Bytes
    grep_compiled dir (inl e) = (err (external e), [])
    grep_compiled dir (inr matches) =
        process_releases (grep_link matches) open_reader decode read_dir join dir []

    -- `urlgrep`
    unfoldable pub url_grep : Bytes → Bytes → Outcome (WalkError E) Unit × List Bytes
    unfolding process_releases
    url_grep dir pattern = grep_compiled dir (compile pattern)
