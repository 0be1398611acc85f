-- ===== src/Tinytown/Tracker.antt =====
-- tinytown/tracker.go: the health of the tracker. `http_get` is `http.Get`, `decode` is
-- `jsonutil.Decode`, and a map is the list of its entries.
pub mod Hash
mod Tests
use urlhero.Common.{
  ℕ, ◌+◌, ◌-◌, ◌*◌, Bool, true, false, ◌&&◌, Option, none, some, List, [], ◌∷◌, ◌++◌, ◌⊎◌, inl, inr,
  Outcome, ok, err, panic, hang, ◌>>=◌, Bytes, codes, leb, ◌==◌, if◌then◌else◌, map, ℤ, Source,
}
use urlhero.Web.{Response, WebError, or_external}
use urlhero.Tinytown.Download.{get_ok}

pub record ProjectStats : Type 0 where
  pub found : ℤ
  pub scanned : ℤ

-- the answer of the tracker
pub record RawHealth : Type 0 where
  pub http_status_code : ℤ
  pub http_status_message : Bytes
  pub git_hash : Bytes
  pub projects : List Bytes
  pub project_stats : List (Bytes × (ℤ × ℤ))

pub record Health : Type 0 where
  pub http_status_code : ℤ
  pub http_status_message : Bytes
  pub git_hash : Bytes
  pub projects : List Bytes
  pub project_stats : List (Bytes × ProjectStats)

pub data HealthError (E : Type 0) : Type 0 where
  web : WebError E → HealthError E
  bad_hash : Bytes → HealthError E

abbrev pub as_web : {E A : Type 0} → Outcome (WebError E) A → Outcome (HealthError E) A
as_web (ok a) = ok a
as_web (err e) = err (web e)
as_web panic = panic
as_web hang = hang

abbrev prepend : ℕ → Option Bytes → Option Bytes
prepend c none = none
prepend c (some s) = some (c ∷ s)

-- The text before a quote that ends it.
unfoldable pub before_quote : Bytes → Option Bytes
before_quote [] = none
before_quote (c ∷ []) = if c == b'\'' then some [] else none
before_quote (c ∷ d ∷ s) = prepend c (before_quote (d ∷ s))

abbrev pub or_whole : Bytes → Option Bytes → Bytes
or_whole h none = h
or_whole h (some s) = s

-- Without the `b'` and the quote around it.
unfoldable pub trim_hash : Bytes → Bytes
unfolding before_quote
trim_hash [] = []
trim_hash (a ∷ []) = a ∷ []
trim_hash (a ∷ b ∷ s) =
    if a == b'b' && b == b'\'' then or_whole (a ∷ b ∷ s) (before_quote s) else a ∷ b ∷ s

-- `hex.DecodeString`, `none` for an error
unfoldable pub hex_digit : ℕ → Option ℕ
hex_digit c =
    if leb b'0' c && leb c b'9'
    then some (c - b'0')
    else if leb b'a' c && leb c b'f'
    then some (c - b'a' + 10)
    else if leb b'A' c && leb c b'F'
    then some (c - b'A' + 10)
    else none

abbrev pub hex_byte : Option ℕ → Option ℕ → Option Bytes → Option Bytes
hex_byte none y s = none
hex_byte (some x) none s = none
hex_byte (some x) (some y) none = none
hex_byte (some x) (some y) (some s) = some ((x * 16 + y) ∷ s)

unfoldable pub decode_string : Bytes → Option Bytes
unfolding hex_digit
decode_string [] = some []
decode_string (a ∷ []) = none
decode_string (a ∷ b ∷ s) = hex_byte (hex_digit a) (hex_digit b) (decode_string s)

abbrev pub project_stats_of : Bytes × (ℤ × ℤ) → Bytes × ProjectStats
project_stats_of (project, (found, scanned)) =
    (project, record { found = found; scanned = scanned })

module _ {E : Type 0} where
  abbrev pub with_hash : RawHealth → Option Bytes → Outcome (HealthError E) Health
  with_hash health none = err (bad_hash health.git_hash)
  with_hash health (some hash) = ok (record {
    http_status_code = health.http_status_code;
    http_status_message = health.http_status_message;
    git_hash = hash;
    projects = health.projects;
    project_stats = map project_stats_of health.project_stats;
  })

  -- `GetHealth`
  unfoldable pub get_health :
      (Bytes → E ⊎ Response) → (Source → E ⊎ RawHealth) → Bytes → Outcome (HealthError E) Health
  unfolding get_ok trim_hash decode_string
  get_health http_get decode tracker = do
    resp ← as_web (get_ok http_get (tracker ++ codes "/api/health"))
    health ← as_web (or_external (decode resp.body))
    with_hash health (decode_string (trim_hash health.git_hash))
