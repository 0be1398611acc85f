-- ===== src/Shorteners/Tests.antt =====
-- Runs of the cleaners, and their theorems at concrete inputs.
use urlhero.Common.{
  ℕ, str_eq, true, none, some, List, [], ◌∷◌, ◌≡◌, ◌≢◌, ◌↔◌, ◌⊎◌, inl, inr, refl, arith, Bytes,
  codes, length, ◌≤◌,
}
use urlhero.Shorteners.{Url, CleanError, clean_url, checked_clean_url, less, contains}
use urlhero.Shorteners.Clean.{clean_urls}
use urlhero.Shorteners.Sorted.{Ascending}
use urlhero.Shorteners.Insertion.{insertion_sort, insertion_sort-SortsSlices}
use urlhero.Shorteners.Collect.{CleansTo, clean_urls_lem, clean_urls_unordered}
use urlhero.Shorteners.Sites.{
  rb_gy, red_ht, clean_red_ht, clean_deb_li, clean_a_ll_st, clean_moby_to, all_of, all_bytes,
  is_alnum,
}
use urlhero.Shorteners.Target.{Shrinks, flat-Shrinks}
use urlhero.Shorteners.ShortIm.{api_target, clean_short_im}
use urlhero.Shorteners.ShortIm.Codes.{Cleans, clean_short_im_iff}
use urlhero.Shorteners.RbGy.{checked_clean_url-rb_gy}

abbrev same : Bytes → Bytes
same s = s

-- The text as the path of a URL
abbrev at_path : Bytes → Url
at_path s = record { hostname = []; path = s; query = λ key. [] }

abbrev parse_path : Bytes → Bytes ⊎ Url
parse_path [] = inl (codes "empty url")
parse_path (c ∷ s) = inr (at_path (c ∷ s))

abbrev urls : List Bytes
urls =
    codes "/red-hat"
    ∷ codes "/zeta"
    ∷ codes "/abc)"
    ∷ []
    ∷ codes "/robots.txt"
    ∷ codes "//abc/"
    ∷ []

shortcodes : clean_urls parse_path insertion_sort red_ht urls ≡ (
  codes "abc" ∷ codes "zeta" ∷ codes "red-hat" ∷ [],
  some (CleanError.parse_error (codes "empty url") ∷ []),
)
unfolding clean_urls insertion_sort checked_clean_url clean_red_ht all_of
shortcodes = refl

junk_after : clean_url (at_path (codes "/abc/http://x.org")) none ≡ codes "abc"
unfolding clean_url
junk_after = refl

clean_urls_lem_example :
    Ascending (less red_ht.is_vanity_func) (clean_urls parse_path insertion_sort red_ht urls).0
    × ((c : Bytes)
        → (contains c (clean_urls parse_path insertion_sort red_ht urls).0 ≡ true)
          ↔ ((c ≢ []) × CleansTo parse_path red_ht c urls))
clean_urls_lem_example = clean_urls_lem parse_path insertion_sort-SortsSlices red_ht urls

same_set :
    (u : Bytes)
    → contains u (codes "/a" ∷ codes "/b" ∷ [])
      ≡ contains u (codes "/b" ∷ codes "/a" ∷ codes "/b" ∷ [])
unfolding contains
same_set u = ground arith

either_order :
    (clean_urls parse_path insertion_sort red_ht (codes "/a" ∷ codes "/b" ∷ [])).0
    ≡ (clean_urls parse_path insertion_sort red_ht (codes "/b" ∷ codes "/a" ∷ codes "/b" ∷ [])).0
either_order =
    clean_urls_unordered parse_path insertion_sort-SortsSlices red_ht (codes "/a" ∷ codes "/b" ∷ [])
      (codes "/b" ∷ codes "/a" ∷ codes "/b" ∷ []) same_set

checked_clean_url-rb_gy_example :
    (code : Bytes) × (checked_clean_url (rb_gy same) (at_path (codes "/AbC123xyz+")) ≡ inr code)
    × (all_bytes is_alnum code ≡ true)
    × (length code ≤ 6)
checked_clean_url-rb_gy_example = checked_clean_url-rb_gy same (at_path (codes "/AbC123xyz+"))

scmf_link : clean_a_ll_st (codes "scmf/video/Ab3_x") (at_path []) ≡ codes "Ab3_x"
unfolding clean_a_ll_st
scmf_link = refl

mailing_list : clean_deb_li (codes "4BE7F84D.5040104@bzed.de") (at_path []) ≡ []
unfolding clean_deb_li
mailing_list = refl

preview : clean_deb_li (codes "p/ijEl") (at_path []) ≡ codes "ijEl"
unfolding clean_deb_li
preview = refl

picture_size : clean_moby_to same (codes "Ab1:view") (at_path []) ≡ codes "ab1"
unfolding clean_moby_to
picture_size = refl

-- An API URL; the URL in its query has no query of its own.
abbrev api_url : Url
api_url = record { hostname = codes "short.im"; path = codes "/api.php"; query = λ key. codes "x" }

abbrev flat : Bytes → Url
flat s = record { hostname = codes "www.short.im"; path = codes "/abc"; query = λ key. [] }

abbrev parse_target : Bytes → Bytes ⊎ Url
parse_target s = inr (flat s)

abbrev target_size : Url → ℕ
target_size u = length (api_target u)

-- The URL in a query has no query of its own.
target_smaller : Shrinks parse_target api_target target_size
unfolding api_target str_eq
target_smaller = flat-Shrinks api_target flat (λ s. refl)

short_im_api : clean_short_im parse_target 2 (codes "api.php") api_url ≡ codes "abc"
unfolding clean_short_im
short_im_api = refl

-- The text is not empty.
abc : codes "abc" ≢ []
abc e = cc

clean_short_im_iff_example :
    ((fuel : ℕ) × (clean_short_im parse_target fuel (codes "api.php") api_url ≡ codes "abc"))
    ↔ Cleans parse_target (codes "api.php") api_url (codes "abc")
clean_short_im_iff_example =
    clean_short_im_iff parse_target (codes "api.php") api_url (codes "abc") abc
