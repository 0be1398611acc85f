-- ===== src/Ia/Digest.antt =====
-- ia/timemap.go: `DecodeDigest`, the base32 decoder of SHA-1 digests. A byte is a number below
-- 256, and `<<` on a byte keeps its low 8 bits.
pub mod Bits
pub mod Groups
pub mod Base32
pub mod RoundTrip
use Prim.Native.Nat.{bit_or}
use urlhero.Common.{
  ℕ, zero, suc, ◌+◌, ◌-◌, ◌*◌, ◌/◌, ◌%◌, ◌^◌, ◌&&◌, List, [], ◌∷◌, Outcome, ok, err, panic, hang,
  Bytes, leb, ltb, not, ◌==◌, if◌then◌else◌, length,
}

pub data Error : Type 0 where
  wrong_length : Bytes → Error
  illegal_byte : ℕ → Bytes → Error

-- `x << k` on a byte
abbrev pub shl : ℕ → ℕ → ℕ
shl x k = x * 2 ^ k % 256

-- `x >> k`
abbrev pub shr : ℕ → ℕ → ℕ
shr x k = x / 2 ^ k

unfoldable pub digest_alpha : ℕ → Bytes → Outcome Error ℕ
digest_alpha ch digest =
    if leb b'A' ch && leb ch b'Z'
    then ok (ch - b'A')
    else if leb b'2' ch && leb ch b'7'
    then ok (ch - b'2' + 26)
    else err (illegal_byte ch digest)

-- `b[i] |= v`
abbrev pub or_at : Bytes → ℕ → ℕ → Bytes
or_at [] i v = []
or_at (x ∷ b) zero v = bit_or x v ∷ b
or_at (x ∷ b) (suc i) v = x ∷ or_at b i v

-- One round of the loop: the 5-bit digit `x` goes to the bits from `bit` on.
unfoldable pub put_digit : ℕ → ℕ → Bytes → Bytes
put_digit bit x b =
    let x = shl x 3 in
    let b = or_at b (bit / 8) (shr x (bit % 8)) in
    if ltb (bit / 8) 19 then or_at b (bit / 8 + 1) (shl x (8 - bit % 8)) else b

unfoldable pub decode_digits : Bytes → ℕ → Bytes → Bytes → Outcome Error Bytes
decode_digits digest bit b [] = ok b
decode_digits digest bit b (ch ∷ rest) = elim (digest_alpha ch digest) [
  | ok x ↦ decode_digits digest (bit + 5) (put_digit bit x b) rest
  | err e ↦ err e
  | panic ↦ panic
  | hang ↦ hang
]

-- `[20]byte{}`
abbrev pub zeros : Bytes
zeros = 0 ∷ 0 ∷ 0 ∷ 0 ∷ 0 ∷ 0 ∷ 0 ∷ 0 ∷ 0 ∷ 0 ∷ 0 ∷ 0 ∷ 0 ∷ 0 ∷ 0 ∷ 0 ∷ 0 ∷ 0 ∷ 0 ∷ 0 ∷ []

unfoldable pub decode_digest : Bytes → Outcome Error Bytes
unfolding digest_alpha put_digit decode_digits
decode_digest digest =
    if not (length digest == 32)
    then err (wrong_length digest)
    else decode_digits digest 0 zeros digest
