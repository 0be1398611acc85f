-- ===== src/Beacon/Bars.antt =====
-- beacon/reader.go: how `readLinkRFC` and `readLinkURLTeam` split a line at its bars.
use urlhero.Common.{
  index_byte, ℕ, zero, suc, ◌+◌, ◌-◌, false, none, some, [], ◌∷◌, ◌++◌, ◌≡◌, refl, arith, ok, Bytes,
  length, take-length-append, drop-length-append, drop-length-append-cons,
}
use urlhero.Beacon.{Link, byte_is, split_n, link_string}
use urlhero.Beacon.Reader.{Reader, read_line}
use urlhero.Beacon.Links.{link_of_tokens, link_of_line, rfc_link, read_link_rfc}
use urlhero.Beacon.Text.{drop_line_break-append}
use urlhero.Beacon.Dump.{NoNewline}
use urlhero.Beacon.Heads.{read_line_raw-append}

abbrev pub NoBar : Bytes → Type 0
NoBar s = index_byte b'|' s ≡ none

index_byte-append :
    (c : ℕ) (s t : Bytes) → index_byte c s ≡ none → index_byte c (s ++ (c ∷ t)) ≡ some (length s)
unfolding index_byte
index_byte-append c [] t h = ground arith
index_byte-append c (x ∷ s) t h = ground (arith, index_byte-append c s t)

split_n-bar :
    (k : ℕ) (s t : Bytes)
    → NoBar s
    → split_n b'|' (suc (suc k)) (s ++ (b'|' ∷ t)) ≡ s ∷ split_n b'|' (suc k) t
unfolding split_n
split_n-bar k s t h = ground (
  arith,
  index_byte-append b'|' s t h,
  take-length-append s (b'|' ∷ t),
  drop-length-append-cons s b'|' t,
)

split_n-NoBar : (k : ℕ) (s : Bytes) → NoBar s → split_n b'|' (suc k) s ≡ s ∷ []
unfolding split_n
split_n-NoBar zero s h = refl
split_n-NoBar (suc k) s h = ground (arith, h)

tokens-link_string :
    (l : Link) (line : Bytes)
    → NoBar l.source
    → NoBar l.target
    → NoBar l.annotation
    → link_of_tokens line (split_n b'|' 4 (link_string l)) ≡ ok l
unfolding link_of_tokens link_string
tokens-link_string l line hs ht ha = ground (
  arith,
  split_n-bar 2 l.source l.target hs,
  split_n-NoBar 2 l.target ht,
  split_n-bar 2 l.source (l.annotation ++ (b'|' ∷ l.target)) hs,
  split_n-bar 1 l.annotation l.target ha,
  split_n-NoBar 1 l.target ht,
)

-- A line in the form that `Link.String` prints is read back as that link, where no field holds a
-- bar, the line holds no newline and it does not end in "\r".
pub read_link_rfc-link_string :
    (l : Link) (s : Bytes) (r : Reader)
    → NoBar l.source
    → NoBar l.target
    → NoBar l.annotation
    → NoNewline (link_string l)
    → byte_is b'\r' (link_string l) (length (link_string l) - 1) ≡ false
    → r.peek_line ≡ []
    → r.rest ≡ link_string l ++ (b'\n' ∷ s)
    → read_link_rfc r ≡ (ok l, record r { peek_line = []; rest = s; line = r.line + 1 })
unfolding read_link_rfc rfc_link read_line
read_link_rfc-link_string l s r hs ht ha line no_return p e = ground (
  arith,
  read_line_raw-append (link_string l) s r line p e,
  drop_line_break-append (link_string l) no_return,
  tokens-link_string l (link_string l) hs ht ha,
)

-- With no fixed length the shortcode ends at the first bar, and the bar stays in the target.
pub link_of_line-bar :
    (s t : Bytes)
    → NoBar s
    → byte_is b'\r' (b'|' ∷ t) (length (b'|' ∷ t) - 1) ≡ false
    → link_of_line (s ++ (b'|' ∷ (t ++ b'\n' ∷ [])))
      ≡ ok (record { source = s; target = b'|' ∷ t; annotation = [] })
unfolding link_of_line
link_of_line-bar s t h no_return = ground (
  arith,
  index_byte-append b'|' s (t ++ b'\n' ∷ []) h,
  take-length-append s (b'|' ∷ (t ++ b'\n' ∷ [])),
  drop-length-append s (b'|' ∷ (t ++ b'\n' ∷ [])),
  drop_line_break-append (b'|' ∷ t) no_return,
)
