-- ===== src/Common/Space.antt =====
-- `strings.TrimSpace` and `strconv.ParseInt`.
use Prim.Native.Nat.{ℕ, zero, suc, ◌+◌, ◌-◌, ◌*◌, ◌^◌}
use mathlib.Core.Bool.{Bool, true, false, ◌&&◌}
use mathlib.Core.Option.{Option, none, some}
use mathlib.Core.List.{List, [], ◌∷◌}
use urlhero.Common.Tests.{leb, ◌==◌, if◌then◌else◌}
use urlhero.Common.Lists.{length, take, drop}
use urlhero.Common.Strings.{Bytes}
use urlhero.Common.Text.{has_prefix, has_suffix}
use urlhero.Common.Int.{ℤ, pos, negsuc}

-- the white space of Unicode, in UTF-8
abbrev spaces : List Bytes
spaces =
    (b'\t' ∷ [])
    ∷ (b'\n' ∷ [])
    ∷ (0x0b ∷ [])
    ∷ (0x0c ∷ [])
    ∷ (b'\r' ∷ [])
    ∷ (b' ' ∷ [])
    ∷ (0xc2 ∷ 0x85 ∷ [])
    ∷ (0xc2 ∷ 0xa0 ∷ [])
    ∷ (0xe1 ∷ 0x9a ∷ 0x80 ∷ [])
    ∷ (0xe2 ∷ 0x80 ∷ 0x80 ∷ [])
    ∷ (0xe2 ∷ 0x80 ∷ 0x81 ∷ [])
    ∷ (0xe2 ∷ 0x80 ∷ 0x82 ∷ [])
    ∷ (0xe2 ∷ 0x80 ∷ 0x83 ∷ [])
    ∷ (0xe2 ∷ 0x80 ∷ 0x84 ∷ [])
    ∷ (0xe2 ∷ 0x80 ∷ 0x85 ∷ [])
    ∷ (0xe2 ∷ 0x80 ∷ 0x86 ∷ [])
    ∷ (0xe2 ∷ 0x80 ∷ 0x87 ∷ [])
    ∷ (0xe2 ∷ 0x80 ∷ 0x88 ∷ [])
    ∷ (0xe2 ∷ 0x80 ∷ 0x89 ∷ [])
    ∷ (0xe2 ∷ 0x80 ∷ 0x8a ∷ [])
    ∷ (0xe2 ∷ 0x80 ∷ 0xa8 ∷ [])
    ∷ (0xe2 ∷ 0x80 ∷ 0xa9 ∷ [])
    ∷ (0xe2 ∷ 0x80 ∷ 0xaf ∷ [])
    ∷ (0xe2 ∷ 0x81 ∷ 0x9f ∷ [])
    ∷ (0xe3 ∷ 0x80 ∷ 0x80 ∷ [])
    ∷ []

unfoldable space_before : List Bytes → Bytes → Option ℕ
unfolding has_prefix
space_before [] s = none
space_before (w ∷ ws) s = if has_prefix s w then some (length w) else space_before ws s

unfoldable space_after : List Bytes → Bytes → Option ℕ
unfolding has_suffix
space_after [] s = none
space_after (w ∷ ws) s = if has_suffix s w then some (length w) else space_after ws s

-- One rune goes in each round.
unfoldable trim_first : ℕ → Bytes → Bytes
unfolding space_before
trim_first zero s = s
trim_first (suc fuel) s = elim (space_before spaces s) [
  | none ↦ s
  | some n ↦ trim_first fuel (drop n s)
]

unfoldable trim_last : ℕ → Bytes → Bytes
unfolding space_after
trim_last zero s = s
trim_last (suc fuel) s = elim (space_after spaces s) [
  | none ↦ s
  | some n ↦ trim_last fuel (take (length s - n) s)
]

unfoldable pub trim_space : Bytes → Bytes
unfolding trim_first trim_last
trim_space s = let t = trim_first (length s) s in trim_last (length t) t

-- what `strconv.ParseUint` gives
pub data Scanned : Type 0 where
  syntax : Scanned
  range : Scanned
  value : ℕ → Scanned

-- Its loop: a number that does not fit ends it before the rest is looked at.
unfoldable scan_digits : ℕ → Bytes → Scanned
scan_digits n [] = value n
scan_digits n (c ∷ s) =
    let m = n * 10 + (c - b'0') in
    let rest = scan_digits m s in
    if leb b'0' c && leb c b'9' then (if leb (2 ^ 64) m then range else rest) else syntax

unfoldable scan_uint : Bytes → Scanned
unfolding scan_digits
scan_uint [] = syntax
scan_uint (c ∷ s) = scan_digits 0 (c ∷ s)

abbrev max_int : ℕ
max_int = 2 ^ 63 - 1

abbrev positive : Scanned → ℤ × Bool
positive syntax = (pos 0, false)
positive range = (pos max_int, false)
positive (value n) = if leb n max_int then (pos n, true) else (pos max_int, false)

abbrev negative : Scanned → ℤ × Bool
negative syntax = (pos 0, false)
negative range = (negsuc max_int, false)
negative (value zero) = (pos 0, true)
negative (value (suc n)) = if leb n max_int then (negsuc n, true) else (negsuc max_int, false)

-- `strconv.ParseInt s 10 64`: the value, and whether there is no error
unfoldable pub parse_int_value : Bytes → ℤ × Bool
unfolding scan_uint
parse_int_value [] = (pos 0, false)
parse_int_value (c ∷ s) =
    if c == b'-'
    then negative (scan_uint s)
    else if c == b'+'
    then positive (scan_uint s)
    else positive (scan_uint (c ∷ s))

-- the value, where there is no error
unfoldable pub parse_int : Bytes → Option ℤ
unfolding parse_int_value
parse_int s = let (n, fine) = parse_int_value s in if fine then some n else none
