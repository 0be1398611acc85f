-- ===== src/Shorteners/ShortIm.antt =====
-- shorteners/short-im.go: a shortcode may stand in a URL in the query of the API. `parse` is
-- `url.Parse`, and `size` measures a URL.
pub mod Codes
use urlhero.Common.{
  ℕ, suc, ◌==◌, none, Bool, true, ◌||◌, some, [], ◌≡◌, ◌⊎◌, refl, Bytes, codes, str_eq,
  if◌then◌else◌, contains_byte,
}
use urlhero.Shorteners.{Url, Shortener}
use urlhero.Shorteners.Sites.{alphanumeric, all_of, is_alnum}
use urlhero.Shorteners.Target.{
  Clean, on_fuel, clean_target, clean_target-same, OnlyTarget, Shrinks, on_fuel-fixed,
}

-- the URL in the query
unfoldable pub api_target : Url → Bytes
unfolding str_eq
api_target u =
    if str_eq (u.query (codes "short")) [] then u.query (codes "url") else u.query (codes "short")

abbrev pub is_api : Bytes → Bool
is_api s = str_eq s (codes "api.php") || str_eq s (codes "api")

abbrev pub is_page : Bytes → Bool
is_page s = str_eq s (codes "donate") || (str_eq s (codes "tos") || str_eq s (codes "warn"))

module _ (parse : Bytes → Bytes ⊎ Url) where
  -- The body of `cleanShortIm`, where `rec` is the recursive call.
  unfoldable pub clean_short_im_by : Clean → Clean
  unfolding str_eq api_target contains_byte clean_target
  clean_short_im_by rec s u =
      if is_api s
      then clean_target parse (codes "short.im") rec (api_target u)
      else if is_page s
      then []
      else if contains_byte s b'.' || contains_byte s b'/'
      then []
      else s

  unfoldable pub clean_short_im : ℕ → Clean
  unfolding on_fuel clean_short_im_by
  clean_short_im fuel = on_fuel clean_short_im_by fuel

  -- The site, with `cleanShortIm` on fuel beyond the size of the URL.
  abbrev pub short_im : (Url → ℕ) → Shortener
  short_im size = record {
    name = codes "short-im";
    host = codes "short.im";
    pre = codes "http://short.im/";
    alphabet = alphanumeric;
    pattern = some (all_of (λ c. is_alnum c || (c == b'-' || c == b'_')));
    clean_func = some (λ s u. clean_short_im (suc (size u)) s u);
    is_vanity_func = none;
    has_vanity = true;
  }

  clean_short_im_by-OnlyTarget : OnlyTarget parse api_target clean_short_im_by
  unfolding clean_short_im_by
  clean_short_im_by-OnlyTarget f g s u h =
      rw (clean_target-same parse (codes "short.im") f g (api_target u) h) refl

  -- With fuel beyond the size of the URL, `clean_short_im` is a solution of the recursive
  -- definition of `cleanShortIm`, where a URL in the query of a URL is smaller than that.
  clean_short_im-fixed :
      {size : Url → ℕ} (smaller : Shrinks parse api_target size) (s : Bytes) (u : Url)
      → clean_short_im (suc (size u)) s u
        ≡ clean_short_im_by (λ s' u'. clean_short_im (suc (size u')) s' u') s u
  unfolding clean_short_im
  clean_short_im-fixed smaller s u = on_fuel-fixed parse smaller clean_short_im_by-OnlyTarget s u
