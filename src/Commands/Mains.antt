-- ===== src/Commands/Mains.antt =====
-- cmd/getiashortcodes, cmd/urlgrep and cmd/shortlookup: the arguments after the program's name, what is
-- printed, and how the program ends. Parameters are as in `Shorteners.Clean` and `Tinytown.Releases`.
use urlhero.Common.{
  Bool, Option, none, some, List, [], ◌∷◌, ◌⊎◌, inl, inr, Outcome, ok, err, panic, hang, Bytes,
  Source,
}
use urlhero.Beacon as Beacon
use urlhero.Web.{Response, WebError, Values}
use urlhero.Shorteners.{Url, Shortener, CleanError}
use urlhero.Shorteners.Clean.{get_ia_shortcodes}
use urlhero.Shorteners.Lookup.{Table}
use urlhero.Tinytown.{WalkError, File, DirEntry}
use urlhero.Tinytown.Search.{search_releases}
use urlhero.Commands.{find_shortener, url_grep}
use urlhero.Commands.Exits.{Ending, exit, crash, endless, try, usage}

module _ {E : Type 0} (compile : Bytes → E ⊎ (Bytes → Bool)) where
  module _ (http_get : Bytes → E ⊎ Response) (encode : Values → Bytes)
      (decode : Source → E ⊎ List (List Bytes)) (parse : Bytes → Bytes ⊎ Url)
      (sort_slice : (Bytes → Bytes → Bool) → List Bytes → List Bytes) (table : Table) where
    -- The shortcodes are printed also where some URLs gave an error.
    abbrev pub print_shortcodes :
        Outcome (WebError E) (List Bytes × Option (List CleanError)) → Ending × List Bytes
    print_shortcodes (ok (shortcodes, none)) = (exit 0, shortcodes)
    print_shortcodes (ok (shortcodes, some errs)) = (exit 1, shortcodes)
    print_shortcodes (err e) = (exit 1, [])
    print_shortcodes panic = (crash, [])
    print_shortcodes hang = (endless, [])

    abbrev pub print_shortener : E ⊎ Shortener → Ending × List Bytes
    print_shortener (inl e) = (exit 1, [])
    print_shortener (inr s) =
        print_shortcodes (get_ia_shortcodes parse http_get encode decode sort_slice s)

    -- `getiashortcodes`
    unfoldable pub getiashortcodes : List Bytes → Ending × List Bytes
    unfolding find_shortener get_ia_shortcodes
    getiashortcodes [] = (usage, [])
    getiashortcodes (shortener ∷ []) = print_shortener (find_shortener compile table shortener [])
    getiashortcodes (shortener ∷ alpha ∷ []) =
        print_shortener (find_shortener compile table shortener alpha)
    getiashortcodes (shortener ∷ alpha ∷ more ∷ args) = (usage, [])

  module _ {Meta : Type 0} (open_reader : Bytes → E ⊎ List (File E))
      (decode : Bytes × Beacon.Error → E ⊎ Meta) (read_dir : Bytes → E ⊎ List DirEntry)
      (join : Bytes → Bytes → Bytes) where
    abbrev pub ended : Outcome (WalkError E) Unit × List Bytes → Ending × List Bytes
    ended (r, printed) = (try r, printed)

    -- `urlgrep`
    unfoldable pub urlgrep : List Bytes → Ending × List Bytes
    unfolding url_grep
    urlgrep [] = (usage, [])
    urlgrep (dir ∷ []) = (usage, [])
    urlgrep (dir ∷ pattern ∷ []) =
        ended (url_grep compile open_reader decode read_dir join dir pattern)
    urlgrep (dir ∷ pattern ∷ more ∷ args) = (usage, [])

module _ {E Meta : Type 0} (open_reader : Bytes → E ⊎ List (File E))
    (decode : Bytes × Beacon.Error → E ⊎ Meta) (read_dir : Bytes → E ⊎ List DirEntry)
    (join : Bytes → Bytes → Bytes) where
  -- `shortlookup`
  unfoldable pub shortlookup : List Bytes → Ending
  unfolding search_releases
  shortlookup [] = usage
  shortlookup (dir ∷ []) = usage
  shortlookup (dir ∷ shortener ∷ []) = usage
  shortlookup (dir ∷ shortener ∷ shortcode ∷ shortcodes) =
      try (search_releases open_reader decode read_dir join dir shortener (shortcode ∷ shortcodes))
