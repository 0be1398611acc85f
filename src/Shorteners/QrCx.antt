-- ===== src/Shorteners/QrCx.antt =====
-- shorteners/qr-cx.go: a shortcode may stand in a URL in the query of the QR API, and the path of a
-- page may follow it. `parse` is `url.Parse`, and `size` measures a URL.
pub mod Pages
use urlhero.Common.{
  ℕ, suc, Bool, false, ◌||◌, none, some, [], ◌∷◌, ◌⊎◌, ◌≡◌, refl, List, Bytes, codes, str_eq,
  if◌then◌else◌, trim_suffix,
}
use urlhero.Regex.{Regex, dot, begin, end, many, seq, alt, byte, words, replace_all}
use urlhero.Shorteners.{Url, Shortener}
use urlhero.Shorteners.Sites.{all_of, in_range}
use urlhero.Shorteners.Target.{
  Clean, on_fuel, clean_target, clean_target-same, OnlyTarget, Shrinks, on_fuel-fixed,
}

-- `admin|api|api\.php|...`
abbrev pub pages : List Bytes
pages =
    codes "api"
    ∷ codes "api.php"
    ∷ codes "dataset"
    ∷ codes "deleted.php"
    ∷ codes "get"
    ∷ codes "img"
    ∷ codes "piwik.php"
    ∷ codes "qr"
    ∷ codes "twitterjs"
    ∷ []

abbrev pub page : Regex
page = words (codes "admin") pages

-- `qrcxFiles`
abbrev pub files : Regex
files = seq (alt begin (byte b'/')) (seq page (alt end (seq (byte b'/') (many dot))))

-- `[1-9A-HJ-Za-z]`
abbrev pub is_code : ℕ → Bool
is_code c =
    in_range b'1' b'9' c || (in_range b'A' b'H' c || (in_range b'J' b'Z' c || in_range b'a' b'z' c))

module _ (parse : Bytes → Bytes ⊎ Url) where
  -- The body of `cleanQrcx`, where `rec` is the recursive call.
  unfoldable pub clean_qr_cx_by : Clean → Clean
  unfolding str_eq clean_target replace_all trim_suffix
  clean_qr_cx_by rec s u =
      if str_eq s (codes "qr/php/qr_img.php")
      then clean_target parse (codes "qr.cx") rec (u.query (codes "d"))
      else trim_suffix (replace_all files s) (codes "+")

  unfoldable pub clean_qr_cx : ℕ → Clean
  unfolding on_fuel clean_qr_cx_by
  clean_qr_cx fuel = on_fuel clean_qr_cx_by fuel

  -- The site, with `cleanQrcx` on fuel beyond the size of the URL.
  abbrev pub qr_cx : (Url → ℕ) → Shortener
  qr_cx size = record {
    name = codes "qr-cx";
    host = codes "qr.cx";
    pre = codes "http://qr.cx/";
    alphabet = codes "123456789ABCDEFGHJKLMNOPQRSTUVWXYZabcdefghijklmnopqrstuvwxyz";
    pattern = some (all_of is_code);
    clean_func = some (λ s u. clean_qr_cx (suc (size u)) s u);
    is_vanity_func = none;
    has_vanity = false;
  }

  clean_qr_cx_by-OnlyTarget : OnlyTarget parse (λ u. u.query (codes "d")) clean_qr_cx_by
  unfolding clean_qr_cx_by
  clean_qr_cx_by-OnlyTarget f g s u h =
      rw (clean_target-same parse (codes "qr.cx") f g (u.query (codes "d")) h) refl

  -- With fuel beyond the size of the URL, `clean_qr_cx` is a solution of the recursive definition of
  -- `cleanQrcx`, where a URL in the query of a URL is smaller than that.
  clean_qr_cx-fixed :
      {size : Url → ℕ} (smaller : Shrinks parse (λ u. u.query (codes "d")) size) (s : Bytes)
      (u : Url)
      → clean_qr_cx (suc (size u)) s u
        ≡ clean_qr_cx_by (λ s' u'. clean_qr_cx (suc (size u')) s' u') s u
  unfolding clean_qr_cx
  clean_qr_cx-fixed smaller s u = on_fuel-fixed parse smaller clean_qr_cx_by-OnlyTarget s u
