-- ===== src/Shorteners/Sites.antt =====
-- The shorteners of shorteners/*.go that need no URL of their own: their `CleanFunc`, `Pattern` and
-- `IsVanityFunc`. `unicode_lower` is `strings.ToLower` where the string is not ASCII.
use urlhero.Common.{
  after_last, index_byte, ℕ, ◌+◌, Bool, true, false, not, ◌&&◌, ◌||◌, none, some, [], ◌∷◌, Bytes,
  codes, str_eq, leb, ltb, length, take, drop, ◌==◌, if◌then◌else◌, index_any, contains_byte,
  has_prefix, trim_prefix, trim_suffix,
}
use urlhero.Shorteners.{Url, Shortener, singles, trim_after_any, upto}

unfoldable pub trim_after_byte : Bytes → ℕ → Bytes
unfolding index_byte
trim_after_byte s c = upto s (index_byte c s)

abbrev pub in_range : ℕ → ℕ → ℕ → Bool
in_range lo hi c = leb lo c && leb c hi

abbrev pub is_digit : ℕ → Bool
is_digit = in_range b'0' b'9'

abbrev pub is_upper : ℕ → Bool
is_upper = in_range b'A' b'Z'

abbrev pub is_lower : ℕ → Bool
is_lower = in_range b'a' b'z'

-- `[0-9A-Za-z]`
abbrev pub is_alnum : ℕ → Bool
is_alnum c = is_digit c || (is_upper c || is_lower c)

unfoldable pub all_bytes : (ℕ → Bool) → Bytes → Bool
all_bytes p [] = true
all_bytes p (x ∷ s) = p x && all_bytes p s

-- A pattern `^[...]+$`
unfoldable pub all_of : (ℕ → Bool) → Bytes → Bool
unfolding all_bytes
all_of p [] = false
all_of p (x ∷ s) = all_bytes p (x ∷ s)

abbrev pub lower_byte : ℕ → ℕ
lower_byte c = if is_upper c then c + 32 else c

abbrev pub lower_ascii : Bytes → Bytes
lower_ascii [] = []
lower_ascii (x ∷ s) = lower_byte x ∷ lower_ascii s

-- `ReplaceAllLiteralString(s, "")` for a pattern `[^...]+` of ASCII characters
unfoldable pub keep : (ℕ → Bool) → Bytes → Bytes
keep p [] = []
keep p (x ∷ s) = let rest = keep p s in if p x then x ∷ rest else rest

module _ (unicode_lower : Bytes → Bytes) where
  -- `strings.ToLower`
  unfoldable pub to_lower : Bytes → Bytes
  unfolding all_bytes
  to_lower s = if all_bytes (λ c. ltb c 0x80) s then lower_ascii s else unicode_lower s

  unfoldable pub clean_moby_to : Bytes → Url → Bytes
  unfolding to_lower contains_byte index_any
  clean_moby_to s u =
      if contains_byte s b'/' then [] else to_lower (upto s (index_any s (singles (codes ":-+*."))))

  unfoldable pub clean_s_uconn_edu : Bytes → Url → Bytes
  unfolding to_lower contains_byte
  clean_s_uconn_edu s u = if contains_byte s b'/' then [] else to_lower s

  unfoldable pub clean_rb_gy : Bytes → Url → Bytes
  unfolding to_lower trim_after_any keep
  clean_rb_gy s u =
      let kept =
        keep is_alnum (trim_after_any s ((0xE2 ∷ 0x97 ∷ 0x84 ∷ []) ∷ singles (codes "+/._-:$@"))) in
      to_lower (if ltb 6 (length kept) then take 6 kept else kept)

unfoldable pub clean_a_ll_st : Bytes → Url → Bytes
unfolding has_prefix after_last
clean_a_ll_st s u = if has_prefix s (codes "scmf/") then drop (after_last s b'/') s else s

abbrev pub vanity_a_ll_st : Bytes → Bool
vanity_a_ll_st s = not (length s == 6) || contains_byte s b'_'

unfoldable pub clean_deb_li : Bytes → Url → Bytes
unfolding contains_byte trim_prefix
clean_deb_li s u =
    let code = trim_prefix s (codes "p/") in
    if contains_byte s b'@'
    then []
    else if contains_byte code b'/' || contains_byte code b'.'
    then []
    else code

unfoldable pub clean_go_hawaii_edu : Bytes → Url → Bytes
unfolding contains_byte str_eq trim_suffix
clean_go_hawaii_edu s u =
    if contains_byte s b'/'
    then []
    else if str_eq s (codes "admin") || str_eq s (codes "submit")
    then []
    else trim_suffix s (codes "+")

unfoldable pub clean_red_ht : Bytes → Url → Bytes
unfolding contains_byte trim_after_byte
clean_red_ht s u = if contains_byte s b'.' then [] else trim_after_byte s b'@'

abbrev pub vanity_red_ht : Bytes → Bool
vanity_red_ht s = contains_byte s b'-' || contains_byte s b'_'

abbrev pub vanity_s_uconn_edu : Bytes → Bool
vanity_s_uconn_edu s = contains_byte s b'-'

abbrev pub alphanumeric : Bytes
alphanumeric = codes "0123456789ABCDEFGHIJKLMNOPQRSTUVWXYZabcdefghijklmnopqrstuvwxyz"

abbrev pub a_ll_st : Shortener
a_ll_st = record {
  name = codes "a-ll-st";
  host = codes "a.ll.st";
  pre = codes "http://a.ll.st/";
  alphabet = alphanumeric;
  pattern = some (all_of (λ c. is_alnum c || c == b'_'));
  clean_func = some clean_a_ll_st;
  is_vanity_func = some vanity_a_ll_st;
  has_vanity = true;
}

abbrev pub deb_li : Shortener
deb_li = record {
  name = codes "deb-li";
  host = codes "deb.li";
  pre = codes "https://deb.li/";
  alphabet = alphanumeric;
  pattern = some (all_of is_alnum);
  clean_func = some clean_deb_li;
  is_vanity_func = none;
  has_vanity = true;
}

abbrev pub go_hawaii_edu : Shortener
go_hawaii_edu = record {
  name = codes "go-hawaii-edu";
  host = codes "go.hawaii.edu";
  pre = codes "https://go.hawaii.edu/";
  alphabet = alphanumeric;
  pattern = some (all_of is_alnum);
  clean_func = some clean_go_hawaii_edu;
  is_vanity_func = none;
  has_vanity = false;
}

abbrev pub red_ht : Shortener
red_ht = record {
  name = codes "red-ht";
  host = codes "red.ht";
  pre = codes "https://red.ht/";
  alphabet = alphanumeric;
  pattern = some (all_of (λ c. is_alnum c || (c == b'-' || c == b'_')));
  clean_func = some clean_red_ht;
  is_vanity_func = some vanity_red_ht;
  has_vanity = true;
}

module _ (unicode_lower : Bytes → Bytes) where
  abbrev pub moby_to : Shortener
  moby_to = record {
    name = codes "moby-to";
    host = codes "moby.to";
    pre = codes "http://moby.to/";
    alphabet = codes "0123456789abcdefghijklmnopqrstuvwxyz";
    pattern = some (all_of (λ c. is_digit c || is_lower c));
    clean_func = some (clean_moby_to unicode_lower);
    is_vanity_func = none;
    has_vanity = false;
  }

  abbrev pub rb_gy : Shortener
  rb_gy = record {
    name = codes "rb-gy";
    host = codes "rb.gy";
    pre = codes "https://rb.gy/";
    alphabet = alphanumeric;
    pattern = some (all_of is_alnum);
    clean_func = some (clean_rb_gy unicode_lower);
    is_vanity_func = none;
    has_vanity = false;
  }

  abbrev pub s_uconn_edu : Shortener
  s_uconn_edu = record {
    name = codes "s-uconn-edu";
    host = codes "s.uconn.edu";
    pre = codes "https://s.uconn.edu/";
    alphabet = alphanumeric;
    pattern = some (all_of (λ c. is_alnum c || (c == b'-' || c == b'_')));
    clean_func = some (clean_s_uconn_edu unicode_lower);
    is_vanity_func = some vanity_s_uconn_edu;
    has_vanity = true;
  }
