-- ===== src/Ia/Digest/Bits.antt =====
-- ia/timemap.go: the bits that `DecodeDigest` sets in a group of five bytes.
use Prim.Native.Nat.{bit_or}
use mathlib.Core.Bool.{Bool, true, false}
use urlhero.Common.{
  ℕ, zero, suc, ◌+◌, ◌-◌, ◌*◌, ◌/◌, ◌%◌, ◌^◌, ◌<◌, ◌≡◌, refl, ap₂, ◌∙◌, arith, Bytes, ◌==◌, ==_iff,
  if◌then◌else◌,
}
use urlhero.Ia.Digest.{shl, shr, or_at}

-- A test at each number under a bound, by running it.
every : (ℕ → Bool) → ℕ → Bool
every test zero = true
every test (suc n) = if test n then every test n else false

every-at : (test : ℕ → Bool) (n x : ℕ) → x < n → every test n ≡ true → test x ≡ true
unfolding every
every-at test zero x below h = elim below [ ]
every-at test (suc n) x below h = ground (arith, every-at test n x)

abbrev or_adds : ℕ → ℕ → ℕ → Bool
or_adds k a c = bit_or (a * 2 ^ k) c == a * 2 ^ k + c

abbrev or_adds_low : ℕ → ℕ → Bool
or_adds_low k a = every (or_adds k a) (2 ^ k)

abbrev or_adds_high : ℕ → Bool
or_adds_high k = every (or_adds_low k) (2 ^ (8 - k))

or_table : every or_adds_high 9 ≡ true
unfolding every
or_table = refl

-- `|` adds where no bit is set on both sides.
or_add : (k a c : ℕ) → k < 9 → a < 2 ^ (8 - k) → c < 2 ^ k → bit_or (a * 2 ^ k) c ≡ a * 2 ^ k + c
or_add k a c hk ha hc =
    let high = every-at or_adds_high 9 k hk or_table in
    let low = every-at (or_adds_low k) (2 ^ (8 - k)) a ha high in
    (==_iff _ _).0 (every-at (or_adds k a) (2 ^ k) c hc low)

pub or_zero : (v : ℕ) → v < 256 → bit_or 0 v ≡ v
or_zero v h = or_add 8 0 v (omega arith) (omega arith) (omega arith) ∙ omega arith

-- One digit at bit `o` of the bytes, with no guard.
abbrev pub put_local : ℕ → ℕ → Bytes → Bytes
put_local o x ys =
    or_at (or_at ys (o / 8) (shr (shl x 3) (o % 8))) (o / 8 + 1) (shl (shl x 3) (8 - o % 8))

or_step :
    (k a c : ℕ) {u v : ℕ}
    → k < 9
    → a < 2 ^ (8 - k)
    → c < 2 ^ k
    → u ≡ a * 2 ^ k
    → v ≡ c
    → bit_or u v ≡ a * 2 ^ k + c
or_step k a c hk ha hc p q = ap₂ bit_or p q ∙ or_add k a c hk ha hc

module _ (x y : ℕ) (hx : x < 32) (hy : y < 32) where
  -- Five bits, then three.
  pub five_three : bit_or (bit_or 0 (shr (shl x 3) 0)) (shr (shl y 3) 5) ≡ x * 8 + y / 4
  five_three =
      or_step 3 x (y / 4) (omega arith) (omega arith) (omega arith)
        (or_zero _ (omega arith) ∙ omega arith) (omega arith)

  -- Four bits of each.
  pub four_four : bit_or (bit_or 0 (shl (shl x 3) 1)) (shr (shl y 3) 4) ≡ x % 16 * 16 + y / 2
  four_four =
      or_step 4 (x % 16) (y / 2) (omega arith) (omega arith) (omega arith)
        (or_zero _ (omega arith) ∙ omega arith) (omega arith)

  -- Three bits, then five.
  pub three_five : bit_or (bit_or 0 (shl (shl x 3) 2)) (shr (shl y 3) 3) ≡ x % 8 * 32 + y
  three_five =
      or_step 5 (x % 8) y (omega arith) (omega arith) (omega arith)
        (or_zero _ (omega arith) ∙ omega arith) (omega arith)

module _ (x y z : ℕ) (hx : x < 32) (hy : y < 32) (hz : z < 32) where
  -- Two bits, five, then one.
  pub two_five_one :
      bit_or (bit_or (bit_or 0 (shl (shl x 3) 3)) (shr (shl y 3) 2)) (shr (shl z 3) 7)
      ≡ x % 4 * 64 + y * 2 + z / 16
  two_five_one =
      or_step 1 (x % 4 * 32 + y) (z / 16) (omega arith) (omega arith) (omega arith)
        (or_step 6 (x % 4) (y * 2) (omega arith) (omega arith) (omega arith)
            (or_zero _ (omega arith) ∙ omega arith) (omega arith)
          ∙ omega arith)
        (omega arith)
      ∙ omega arith

  -- One bit, five, then two.
  pub one_five_two :
      bit_or (bit_or (bit_or 0 (shl (shl x 3) 4)) (shr (shl y 3) 1)) (shr (shl z 3) 6)
      ≡ x % 2 * 128 + y * 4 + z / 8
  one_five_two =
      or_step 2 (x % 2 * 32 + y) (z / 8) (omega arith) (omega arith) (omega arith)
        (or_step 7 (x % 2) (y * 4) (omega arith) (omega arith) (omega arith)
            (or_zero _ (omega arith) ∙ omega arith) (omega arith)
          ∙ omega arith)
        (omega arith)
      ∙ omega arith
