-- ===== src/Shorteners/Clean.antt =====
-- shorteners/shorteners.go: a list of URLs. `parse` is `url.Parse`, which gives an error's text or a
-- URL, and `sort_slice less` is what `sort.Slice` makes of a list.
use urlhero.Common.{
  Source, hang, pos, true, Outcome, ok, err, panic, codes, Bool, Option, none, some, List, [], ◌∷◌,
  ◌++◌, ◌⊎◌, inl, inr, Bytes, str_eq, if◌then◌else◌,
}
use urlhero.Ia.Timemap.{TimemapOptions, get_timemap}
use urlhero.Web.{Response, WebError, Values}
use urlhero.Shorteners.{Url, Shortener, CleanError, Cleaning, checked_clean_url, contains, less}

-- the shortcode is added where the map does not have it
unfoldable pub add_shortcode : Cleaning → Bytes → Cleaning
unfolding contains
add_shortcode r shortcode = if contains shortcode r.shortcodes_map then r else record r {
  shortcodes_map = r.shortcodes_map ++ shortcode ∷ [];
  shortcodes = r.shortcodes ++ shortcode ∷ [];
}

-- one round of the loop
unfoldable pub clean_step : Cleaning → CleanError ⊎ Bytes → Cleaning
unfolding add_shortcode str_eq
clean_step r (inl e) = record r { errs = r.errs ++ e ∷ [] }
clean_step r (inr shortcode) = if str_eq shortcode [] then r else add_shortcode r shortcode

-- `link[0]` for each row, `none` where a row is empty and the program panics
unfoldable pub first_column : List (List Bytes) → Option (List Bytes)
first_column [] = some []
first_column ([] ∷ rows) = none
first_column ((x ∷ row) ∷ rows) = elim (first_column rows) [
  | none ↦ none
  | some urls ↦ some (x ∷ urls)
]

-- what `GetIAShortcodes` asks for
abbrev pub shortcode_options : TimemapOptions
shortcode_options = record {
  collapse = codes "original";
  fields = codes "original" ∷ [];
  match_prefix = true;
  limit = pos 100000;
}

module _ (parse : Bytes → Bytes ⊎ Url) where
  -- `Clean`
  unfoldable pub clean : Shortener → Bytes → CleanError ⊎ Bytes
  clean s short_url = elim (parse short_url) [
    | inl e ↦ inl (CleanError.parse_error e)
    | inr u ↦ checked_clean_url s u
  ]

  unfoldable pub clean_loop : Shortener → Cleaning → List Bytes → Cleaning
  unfolding clean_step clean
  clean_loop s r [] = r
  clean_loop s r (u ∷ urls) = clean_loop s (clean_step r (clean s u)) urls

  abbrev pub multi_error : List CleanError → Option (List CleanError)
  multi_error [] = none
  multi_error (e ∷ errs) = some (e ∷ errs)

  -- `CleanURLs`: the shortcodes, and the errors where there are any
  unfoldable pub clean_urls :
      ((Bytes → Bytes → Bool) → List Bytes → List Bytes)
      → Shortener
      → List Bytes
      → List Bytes × Option (List CleanError)
  unfolding clean_loop less
  clean_urls sort_slice s urls =
      let r = clean_loop s (record { shortcodes_map = []; shortcodes = []; errs = [] }) urls in
      (sort_slice (less s.is_vanity_func) r.shortcodes, multi_error r.errs)

  abbrev pub clean_timemap :
      {E : Type 0}
      → (List Bytes → List Bytes × Option (List CleanError))
      → Outcome E (List (List Bytes))
      → Outcome E (List Bytes × Option (List CleanError))
  clean_timemap cleaned (ok timemap) = elim (first_column timemap) [
    | none ↦ panic
    | some urls ↦ ok (cleaned urls)
  ]
  clean_timemap cleaned (err e) = err e
  clean_timemap cleaned panic = panic
  clean_timemap cleaned hang = hang

  -- `GetIAShortcodes`, with the parameters of `GetTimemap`
  unfoldable pub get_ia_shortcodes :
      {E : Type 0}
      → (Bytes → E ⊎ Response)
      → (Values → Bytes)
      → (Source → E ⊎ List (List Bytes))
      → ((Bytes → Bytes → Bool) → List Bytes → List Bytes)
      → Shortener
      → Outcome (WebError E) (List Bytes × Option (List CleanError))
  unfolding clean_urls first_column get_timemap
  get_ia_shortcodes http_get encode decode sort_slice s =
      clean_timemap (clean_urls sort_slice s)
        (get_timemap http_get encode decode s.host (some shortcode_options))
