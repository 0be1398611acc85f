-- ===== src/Shorteners.antt =====
-- shorteners/shorteners.go: the description of a shortener, and how a shortcode is cleaned out of
-- a URL. Of a `url.URL` the package reads the fields given here.
pub mod Collect
pub mod Insertion
pub mod Lookup
pub mod Breaks
pub mod BfyTw
mod Cases
pub mod QrCx
pub mod Sites
pub mod RbGy
pub mod Target
pub mod ShortIm
pub mod Sorted
pub mod Order
pub mod Clean
pub mod All
pub mod Texts
pub mod Patterns
mod Tests
use urlhero.Common.{
  ℕ, Bool, true, false, not, ◌&&◌, ◌||◌, Option, none, some, List, [], ◌∷◌, map, ◌⊎◌, inl, inr,
  Bytes, codes, str_eq, ltb, length, take, ◌==◌, if◌then◌else◌, index, index_any, trim_left,
  trim_right, str_lt,
}
use mathlib.Core.Option as Option

pub record Url : Type 0 where
  pub hostname : Bytes
  pub path : Bytes
  pub query : Bytes → Bytes

-- `Pattern` is what its `MatchString` answers.
pub record Shortener : Type 0 where
  pub name : Bytes
  pub host : Bytes
  pub pre : Bytes
  pub alphabet : Bytes
  pub pattern : Option (Bytes → Bool)
  pub clean_func : Option (Bytes → Url → Bytes)
  pub is_vanity_func : Option (Bytes → Bool)
  pub has_vanity : Bool

pub data CleanError : Type 0 where
  parse_error : Bytes → CleanError
  no_match : Shortener → Bytes → Url → CleanError

abbrev pub singles : Bytes → List Bytes
singles [] = []
singles (c ∷ cs) = (c ∷ []) ∷ singles cs

-- ‹ › « » ‘ ’ “ ” and the two spaces, after the ASCII characters
abbrev pub junk : List Bytes
junk =
    (0xE2 ∷ 0x80 ∷ 0xB9 ∷ [])
    ∷ (0xE2 ∷ 0x80 ∷ 0xBA ∷ [])
    ∷ (0xC2 ∷ 0xAB ∷ [])
    ∷ (0xC2 ∷ 0xBB ∷ [])
    ∷ (0xE2 ∷ 0x80 ∷ 0x98 ∷ [])
    ∷ (0xE2 ∷ 0x80 ∷ 0x99 ∷ [])
    ∷ (0xE2 ∷ 0x80 ∷ 0x9C ∷ [])
    ∷ (0xE2 ∷ 0x80 ∷ 0x9D ∷ [])
    ∷ (0xC2 ∷ 0xA0 ∷ [])
    ∷ (0xE2 ∷ 0x80 ∷ 0x8B ∷ [])
    ∷ (0x00 ∷ [])
    ∷ singles (codes "()[]<>\"'\\& \n")

-- `s[:i]` for an index that was found
abbrev pub upto : Bytes → Option ℕ → Bytes
upto s none = s
upto s (some i) = take i s

unfoldable pub trim_after : Bytes → Bytes → Bytes
unfolding index
trim_after s substr = upto s (index s substr)

unfoldable pub trim_after_any : Bytes → List Bytes → Bytes
unfolding index_any
trim_after_any s chars = upto s (index_any s chars)

unfoldable pub is_common_file : Bytes → Bool
unfolding str_eq
is_common_file s = str_eq s [] || (str_eq s (codes "favicon.ico") || str_eq s (codes "robots.txt"))

-- The shortcode before a `CleanFunc`.
unfoldable pub trim_path : Bytes → Bytes
unfolding trim_after trim_after_any trim_left trim_right
trim_path path =
    let shortcode = trim_after_any (trim_left path (codes "/")) junk in
    let http = trim_after shortcode (codes "http:/") in
    let https = trim_after http (codes "https:/") in
    let www = trim_after https (codes "www.") in
    trim_right (trim_right www (codes ".,;!")) (codes "/")

abbrev pub not_common : Bytes → Bytes
not_common shortcode = if is_common_file shortcode then [] else shortcode

-- `cleanURL`
unfoldable pub clean_url : Url → Option (Bytes → Url → Bytes) → Bytes
unfolding trim_path is_common_file
clean_url u clean =
    let shortcode = trim_path u.path in
    if is_common_file shortcode
    then []
    else elim clean [ none ↦ shortcode | some f ↦ not_common (f shortcode u) ]

-- `Shortener.CleanURL`: the test of `Pattern` comes last.
abbrev pub matches : Option (Bytes → Bool) → Bytes → Bool
matches none s = true
matches (some p) s = p s

unfoldable pub checked_clean_url : Shortener → Url → CleanError ⊎ Bytes
unfolding clean_url
checked_clean_url s u =
    let shortcode = clean_url u s.clean_func in
    if not (str_eq shortcode []) && not (matches s.pattern shortcode)
    then inl (CleanError.no_match s shortcode u)
    else inr shortcode

-- `IsVanity`
unfoldable pub is_vanity : Shortener → Bytes → Bool
is_vanity s shortcode = elim s.is_vanity_func [ none ↦ false | some f ↦ f shortcode ]

abbrev pub shorter : Bytes → Bytes → Bool
shorter a b = (length a == length b && str_lt a b) || ltb (length a) (length b)

abbrev pub bool_eq : Bool → Bool → Bool
bool_eq true b = b
bool_eq false b = not b

-- The order of `Sort`.
unfoldable pub less : Option (Bytes → Bool) → Bytes → Bytes → Bool
unfolding str_lt
less none a b = shorter a b
less (some vanity) a b =
    (bool_eq (vanity a) (vanity b) && shorter a b) || (not (vanity a) && vanity b)

-- whether a key is in the map
unfoldable pub contains : Bytes → List Bytes → Bool
unfolding str_eq
contains c [] = false
contains c (x ∷ xs) = str_eq c x || contains c xs

-- The variables of `CleanURLs`; the map's keys are in the order of their insertion.
pub record Cleaning : Type 0 where
  pub shortcodes_map : List Bytes
  pub shortcodes : List Bytes
  pub errs : List CleanError
