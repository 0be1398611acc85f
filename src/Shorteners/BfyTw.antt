-- ===== src/Shorteners/BfyTw.antt =====
-- shorteners/bfy-tw.go: what is cleaned off the end of a shortcode.
pub mod Cut
mod Words
pub mod Codes
use urlhero.Common.{
  ℕ, zero, suc, ◌==◌, ◌||◌, ◌&&◌, Bool, true, false, none, some, [], ◌∷◌, Bytes, codes,
}
use urlhero.Regex.{
  Regex, one, dot, empty, end, unit, many, seq, alt, byte, literal, maybe, some_of, any_of,
  replace_all,
}
use urlhero.Shorteners.{Url, Shortener}
use urlhero.Shorteners.Sites.{alphanumeric, all_of, is_alnum, is_digit}

-- `\d+`
abbrev pub digits : Regex
digits = some_of (one is_digit)

-- `https?://.+`
abbrev pub address : Regex
address =
    seq (literal (codes "http"))
      (seq (maybe (byte b's')) (seq (literal (codes "://")) (some_of dot)))

-- `[/.].*`
abbrev pub path : Regex
path = seq (unit (one (λ c. c == b'/' || c == b'.'))) (many dot)

-- `favicon.ico`, where the dot is any character
abbrev pub icon : Regex
icon = seq (literal (codes "favicon")) (seq (unit dot) (literal (codes "ico")))

-- `robots.txt`
abbrev pub robots : Regex
robots = seq (literal (codes "robots")) (seq (unit dot) (literal (codes "txt")))

-- `ip\d+\.\d+\.\d+\.\d+`
abbrev pub ip : Regex
ip = seq (literal (codes "ip")) (
    seq digits
      (seq (byte b'.') (seq digits (seq (byte b'.') (seq digits (seq (byte b'.') digits))))))

-- `bfytwTrailing`
abbrev pub trailing : Regex
trailing =
    seq (maybe (byte b'/'))
      (seq (maybe (any_of address (path ∷ icon ∷ robots ∷ ip ∷ []))) (seq (maybe (byte b'=')) end))

unfoldable pub clean_bfy_tw : Bytes → Url → Bytes
unfolding replace_all
clean_bfy_tw shortcode u = replace_all trailing shortcode

abbrev pub bfy_tw : Shortener
bfy_tw = record {
  name = codes "bfy-tw";
  host = codes "bfy.tw";
  pre = codes "https://bfy.tw/";
  alphabet = alphanumeric;
  pattern = some (all_of is_alnum);
  clean_func = some clean_bfy_tw;
  is_vanity_func = none;
  has_vanity = false;
}
