-- ===== src/Tinytown/Tracker/Hash.antt =====
-- tinytown/tracker.go: the commit's hash of the tracker is decoded from its printed forms.
use urlhero.Common.{
  ℕ, ◌+◌, ◌-◌, ◌*◌, ◌/◌, ◌%◌, ◌<◌, Bool, true, false, ◌&&◌, some, [], ◌∷◌, ◌++◌, ◌≡◌, refl, ap, ◌∙◌,
  arith, All, Bytes, ltb, ◌==◌, if◌then◌else◌, codes,
}
use urlhero.Tinytown.Tracker.{prepend, before_quote, or_whole, trim_hash, hex_digit, decode_string}

-- the digit in lower case
unfoldable pub hex_char : ℕ → ℕ
hex_char n = if ltb n 10 then b'0' + n else b'a' + (n - 10)

-- A byte string as Python prints the bytes of a hash in hexadecimal.
unfoldable pub hex : Bytes → Bytes
unfolding hex_char
hex [] = []
hex (x ∷ s) = hex_char (x / 16) ∷ hex_char (x % 16) ∷ hex s

-- a bytes literal of Python
abbrev pub quoted : Bytes → Bytes
quoted s = codes "b'" ++ (s ++ b'\'' ∷ [])

hex_digit-hex_char : (n : ℕ) → n < 16 → hex_digit (hex_char n) ≡ some n
unfolding hex_digit hex_char
hex_digit-hex_char n k = ground arith

hex_char_quote : (n : ℕ) → (hex_char n == b'\'') ≡ false
unfolding hex_char
hex_char_quote n = ground arith

decode_string-hex : (s : Bytes) → All (λ x. x < 256) s → decode_string (hex s) ≡ some s
unfolding decode_string hex
decode_string-hex [] h = refl
decode_string-hex (x ∷ s) (k, h) =
    let whole : x / 16 * 16 + x % 16 ≡ x = omega arith in
    rw
      (
        hex_digit-hex_char (x / 16) (omega arith),
        hex_digit-hex_char (x % 16) (omega arith),
        decode_string-hex s h,
        whole,
      )
      refl

before_quote_lem : (s : Bytes) → before_quote (s ++ b'\'' ∷ []) ≡ some s
unfolding before_quote
before_quote_lem [] = refl
before_quote_lem (c ∷ []) = refl
before_quote_lem (c ∷ d ∷ s) = ap (prepend c) (before_quote_lem (d ∷ s))

trim_hash-quoted : (s : Bytes) → trim_hash (quoted s) ≡ s
unfolding trim_hash
trim_hash-quoted s = ap (or_whole (quoted s)) (before_quote_lem s)

and_false : (b : Bool) → (b && false) ≡ false
and_false true = refl
and_false false = refl

trim_hash-hex : (s : Bytes) → trim_hash (hex s) ≡ hex s
unfolding trim_hash hex
trim_hash-hex [] = refl
trim_hash-hex (x ∷ s) = rw (hex_char_quote (x % 16), and_false (hex_char (x / 16) == b'b')) refl

-- The hash of a commit, in hexadecimal digits, alone or in a bytes literal of Python, is decoded to its
-- bytes.
pub decode_string-trim_hash :
    (s : Bytes)
    → All (λ x. x < 256) s
    → (decode_string (trim_hash (quoted (hex s))) ≡ some s)
      × (decode_string (trim_hash (hex s)) ≡ some s)
decode_string-trim_hash s h = (
  ap decode_string (trim_hash-quoted (hex s)) ∙ decode_string-hex s h,
  ap decode_string (trim_hash-hex s) ∙ decode_string-hex s h,
)
