-- ===== src/Commands/Shortcodes.antt =====
-- cmd/getiashortcodes: what is printed where the program succeeds.
use urlhero.Common.{
  Bool, true, Option, none, some, List, [], ◌∷◌, ◌⊎◌, inl, inr, ◌≡◌, ◌≢◌, ◌↔◌, refl, ap, subst,
  arith, Option-cases, Bytes, Outcome, ok, err, panic, hang, ok-injective, Source,
}
use urlhero.Web.{Response, WebError, Values}
use urlhero.Ia.Timemap.{get_timemap}
use urlhero.Ia.Timemap.Query.{Answered, get_timemap_iff}
use urlhero.Shorteners.{Url, Shortener, CleanError, contains, less}
use urlhero.Shorteners.Clean.{
  first_column, clean_urls, clean_timemap, get_ia_shortcodes, shortcode_options,
}
use urlhero.Shorteners.Lookup.{Table}
use urlhero.Shorteners.Sorted.{Ascending, SortsSlices}
use urlhero.Shorteners.Collect.{CleansTo, clean_urls_lem}
use urlhero.Commands.{find_shortener}
use urlhero.Commands.Exits.{exit}
use urlhero.Commands.Mains.{getiashortcodes, print_shortener, print_shortcodes}

module _ {E : Type 0} (compile : Bytes → E ⊎ (Bytes → Bool)) (http_get : Bytes → E ⊎ Response)
    (encode : Values → Bytes) (decode : Source → E ⊎ List (List Bytes))
    (parse : Bytes → Bytes ⊎ Url) {sort_slice : (Bytes → Bytes → Bool) → List Bytes → List Bytes}
    (sorts : SortsSlices sort_slice) (table : Table) where
  -- the shortener that the arguments name
  abbrev pub Names : List Bytes → Shortener → Type 0
  Names [] s = ⊥
  Names (shortener ∷ []) s = find_shortener compile table shortener [] ≡ inr s
  Names (shortener ∷ alpha ∷ []) s = find_shortener compile table shortener alpha ≡ inr s
  Names (shortener ∷ alpha ∷ more ∷ args) s = ⊥

  -- The shortcodes that some URLs are cleaned to, in the order of `Sort`.
  abbrev pub CodesOf : Shortener → List Bytes → List Bytes → Type 0
  CodesOf s urls printed =
      Ascending (less s.is_vanity_func) printed
      × ((c : Bytes) → (contains c printed ≡ true) ↔ ((c ≢ []) × CleansTo parse s c urls))

  -- The shortcodes of the archived URLs of the shortener, as the Internet Archive answers.
  abbrev pub PrintsCodes : Shortener → List Bytes → Type 0
  PrintsCodes s printed =
      (timemap : List (List Bytes)) × (urls : List Bytes) × Answered http_get encode decode s.host
        (some shortcode_options) timemap
      × (first_column timemap ≡ some urls)
      × CodesOf s urls printed

  printed_ok :
      (m : Outcome (WebError E) (List Bytes × Option (List CleanError)))
      → (print_shortcodes compile http_get encode decode parse sort_slice table m).0 ≡ exit 0
      → m ≡ ok ((print_shortcodes compile http_get encode decode parse sort_slice table m).1, none)
  printed_ok (ok (codes, none)) h = refl
  printed_ok (ok (codes, some errs)) h = absurd (ground arith)
  printed_ok (err e) h = absurd (ground arith)
  printed_ok panic h = absurd (ground arith)
  printed_ok hang h = absurd (ground arith)

  timemap_ok :
      (s : Shortener) (answer : Outcome (WebError E) (List (List Bytes))) (printed : List Bytes)
      → get_timemap http_get encode decode s.host (some shortcode_options) ≡ answer
      → clean_timemap parse (clean_urls parse sort_slice s) answer ≡ ok (printed, none)
      → PrintsCodes s printed
  timemap_ok s (err e) printed a h = absurd (ground arith)
  timemap_ok s panic printed a h = absurd (ground arith)
  timemap_ok s hang printed a h = absurd (ground arith)
  timemap_ok s (ok timemap) printed a h = elim (Option-cases (first_column timemap)) [
    | inl n ↦ absurd (panic-ok (rw (clean_timemap, n) at h))
    | inr (urls, e) ↦
        let same = ok-injective (rw (clean_timemap, e) at h) in
        let lem = clean_urls_lem parse sorts s urls in
        let p = ap (λ r. r.0) same in
        (
          timemap,
          urls,
          (get_timemap_iff http_get encode decode s.host (some shortcode_options) timemap).0 a,
          e,
          subst (CodesOf s urls) p lem,
        )
  ]
    where
      panic-ok : {A B : Type 0} {b : B} → ◌≡◌ {A = Outcome A B} panic (ok b) → ⊥
      panic-ok h = ground arith

  get_ok :
      (s : Shortener) (printed : List Bytes)
      → get_ia_shortcodes parse http_get encode decode sort_slice s ≡ ok (printed, none)
      → clean_timemap parse
          (clean_urls parse sort_slice s)
          (get_timemap http_get encode decode s.host (some shortcode_options))
        ≡ ok (printed, none)
  unfolding get_ia_shortcodes
  get_ok s printed h = h

  shortener_ok :
      (o : E ⊎ Shortener)
      → (print_shortener compile http_get encode decode parse sort_slice table o).0 ≡ exit 0
      → (s : Shortener) × (o ≡ inr s)
        × PrintsCodes s (print_shortener compile http_get encode decode parse sort_slice table o).1
  shortener_ok (inl e) h = absurd (ground arith)
  shortener_ok (inr s) h = (
    s,
    refl,
    timemap_ok s (get_timemap http_get encode decode s.host (some shortcode_options)) _ refl
        (get_ok s _ (printed_ok (get_ia_shortcodes parse http_get encode decode sort_slice s) h)),
  )

  -- Where `getiashortcodes` ends with status 0, its arguments name a shortener, and it prints the
  -- shortcodes to which the URLs in the first column of the timemap are cleaned that the Internet Archive
  -- answers for its host, but for the empty one, in the order of `Sort` and without repetition, where
  -- `sort_slice` sorts.
  pub getiashortcodes-PrintsCodes :
      (args : List Bytes)
      → (getiashortcodes compile http_get encode decode parse sort_slice table args).0 ≡ exit 0
      → (s : Shortener) × Names args s
        × PrintsCodes s
            (getiashortcodes compile http_get encode decode parse sort_slice table args).1
  unfolding getiashortcodes
  getiashortcodes-PrintsCodes [] h = absurd (ground arith)
  getiashortcodes-PrintsCodes (shortener ∷ []) h = shortener_ok _ h
  getiashortcodes-PrintsCodes (shortener ∷ alpha ∷ []) h = shortener_ok _ h
  getiashortcodes-PrintsCodes (shortener ∷ alpha ∷ more ∷ args) h = absurd (ground arith)
