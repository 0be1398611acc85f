-- ===== src/Common/Runes.antt =====
-- The runes of a byte string, as `utf8.DecodeRuneInString` reads them: a byte that begins no valid
-- rune is a rune of its own.
use Prim.Native.Nat.{ℕ, ◌+◌, ◌≤◌, ◌<◌}
use native.Mathlib.Omega.{arith}
use mathlib.Core.Path.{◌≡◌, refl}
use mathlib.Core.Bool.{Bool, false, ◌&&◌, ◌||◌}
use mathlib.Core.List.{[], ◌∷◌, ◌++◌}
use urlhero.Common.Lists.{length}
use urlhero.Common.Strings.{Bytes}
use urlhero.Common.Tests.{leb, ◌==◌, if◌then◌else◌}

abbrev pub within : ℕ → ℕ → ℕ → Bool
within lo hi c = leb lo c && leb c hi

abbrev pub is_tail : ℕ → Bool
is_tail = within 0x80 0xBF

-- The first two bytes of a rune of two, three and four bytes.
abbrev two : ℕ → ℕ → Bool
two a b = within 0xC2 0xDF a && is_tail b

abbrev three : ℕ → ℕ → Bool
three a b =
    (a == 0xE0 && within 0xA0 0xBF b)
    || ((a == 0xED && within 0x80 0x9F b)
        || ((within 0xE1 0xEC a || within 0xEE 0xEF a) && is_tail b))

abbrev four : ℕ → ℕ → Bool
four a b =
    (a == 0xF0 && within 0x90 0xBF b)
    || ((a == 0xF4 && within 0x80 0x8F b) || (within 0xF1 0xF3 a && is_tail b))

-- The number of bytes after the first byte of a rune.
unfoldable pub more_bytes : ℕ → Bytes → ℕ
more_bytes a [] = 0
more_bytes a (b ∷ []) = if two a b then 1 else 0
more_bytes a (b ∷ c ∷ []) = if two a b then 1 else if three a b && is_tail c then 2 else 0
more_bytes a (b ∷ c ∷ d ∷ s) =
    if two a b
    then 1
    else if three a b && is_tail c
    then 2
    else if four a b && (is_tail c && is_tail d)
    then 3
    else 0

within_below : (lo hi c : ℕ) → c < lo → within lo hi c ≡ false
within_below lo hi c h = ground arith

and_false : (b : Bool) → (b && false) ≡ false
and_false b = ground arith

le_refl : (n : ℕ) → n ≤ n
le_refl n = omega arith

none_of_three : (x y z : Bool) → ((x && false) || ((y && false) || (z && false))) ≡ false
none_of_three x y z = ground arith

at_most_one :
    (x y z e : Bool)
    → (if x then 1 else if y && false then 2 else if z && (false && e) then 3 else 0) ≤ 1
at_most_one x y z e = ground arith

at_most_one_of_two : (x y : Bool) → (if x then 1 else if y && false then 2 else 0) ≤ 1
at_most_one_of_two x y = ground arith

at_most_one_of_one : (x : Bool) → (if x then 1 else 0) ≤ 1
at_most_one_of_one x = ground arith

at_most_two :
    (x y z e : Bool)
    → (if x then 1 else if y && e then 2 else if z && (e && false) then 3 else 0) ≤ 2
at_most_two x y z e = ground arith

at_most_three :
    (x y z : Bool) (n : ℕ) → (if x then 1 else if y then 2 else if z then 3 else 0) ≤ 3 + n
at_most_three x y z n = ground arith

module _ (a c : ℕ) (h : c < 0x80) where
  two-ascii : two a c ≡ false
  two-ascii = rw (within_below 0x80 0xBF c h) (and_false _)

  three-ascii : three a c ≡ false
  three-ascii = rw (within_below 0xA0 0xBF c (omega arith)) (
      rw (within_below 0x80 0x9F c (omega arith)) (
        rw (within_below 0x80 0xBF c h)
          (none_of_three (a == 0xE0) (a == 0xED) (within 0xE1 0xEC a || within 0xEE 0xEF a))))

  four-ascii : four a c ≡ false
  four-ascii = rw (within_below 0x90 0xBF c (omega arith)) (
      rw (within_below 0x80 0x8F c (omega arith)) (
        rw (within_below 0x80 0xBF c h)
          (none_of_three (a == 0xF0) (a == 0xF4) (within 0xF1 0xF3 a))))

-- A rune of several bytes holds no ASCII character.
pub more_bytes-ascii : (a c : ℕ) (u v : Bytes) → c < 0x80 → more_bytes a (u ++ c ∷ v) ≤ length u
unfolding more_bytes
more_bytes-ascii a c [] [] h = rw (two-ascii a c h) (le_refl 0)
more_bytes-ascii a c [] (e ∷ []) h = rw (two-ascii a c h) (rw (three-ascii a c h) (le_refl 0))
more_bytes-ascii a c [] (e ∷ f ∷ v) h =
    rw (two-ascii a c h) (rw (three-ascii a c h) (rw (four-ascii a c h) (le_refl 0)))
more_bytes-ascii a c (b ∷ []) [] h = rw (within_below 0x80 0xBF c h) (search at_most_one_of_two)
more_bytes-ascii a c (b ∷ []) (e ∷ v) h = rw (within_below 0x80 0xBF c h) (search at_most_one)
more_bytes-ascii a c (b ∷ e ∷ []) v h = rw (within_below 0x80 0xBF c h) (search at_most_two)
more_bytes-ascii a c (b ∷ e ∷ f ∷ []) v h =
    at_most_three (two a b) (three a b && is_tail e) (four a b && (is_tail e && is_tail f)) 0
more_bytes-ascii a c (b ∷ e ∷ f ∷ g ∷ u) v h =
    let k =
      at_most_three (two a b) (three a b && is_tail e) (four a b && (is_tail e && is_tail f))
        (length (g ∷ u)) in
    omega arith

-- An ASCII character is a rune of one byte.
module _ (a : ℕ) (h : a < 0x80) where
  not_first : (c : ℕ) → 0x80 ≤ c → (a == c) ≡ false
  not_first c k = ground arith

  two-first : (b : ℕ) → two a b ≡ false
  two-first b = rw (within_below 0xC2 0xDF a (omega arith)) refl

  three-first : (b : ℕ) → three a b ≡ false
  three-first b = rw (not_first 0xE0 (omega arith)) (
      rw (not_first 0xED (omega arith)) (
        rw (within_below 0xE1 0xEC a (omega arith))
          (rw (within_below 0xEE 0xEF a (omega arith)) refl)))

  four-first : (b : ℕ) → four a b ≡ false
  four-first b =
      rw (not_first 0xF0 (omega arith))
        (rw (not_first 0xF4 (omega arith)) (rw (within_below 0xF1 0xF3 a (omega arith)) refl))

  pub more_bytes-ascii_first : (s : Bytes) → more_bytes a s ≡ 0
  unfolding more_bytes
  more_bytes-ascii_first [] = refl
  more_bytes-ascii_first (b ∷ []) = rw (two-first b) refl
  more_bytes-ascii_first (b ∷ c ∷ []) = rw (two-first b) (rw (three-first b) refl)
  more_bytes-ascii_first (b ∷ c ∷ d ∷ s) =
      rw (two-first b) (rw (three-first b) (rw (four-first b) refl))
