-- ===== src/Ia/Digest/Groups.antt =====
-- ia/timemap.go: eight digits of `DecodeDigest` fill five bytes, wherever the group stands.
use Prim.Native.Nat.{bit_or}
use urlhero.Common.{
  ℕ, zero, suc, ◌+◌, ◌-◌, ◌*◌, ◌/◌, ◌%◌, ◌<◌, ◌≤◌, ◌≡◌, refl, ap, ◌∙◌, arith, List, [], ◌∷◌, ◌++◌,
  Bytes, length,
}
use urlhero.Ia.Digest.{shl, shr, or_at, put_digit}
use urlhero.Ia.Digest.Bits.{
  put_local, or_zero, five_three, four_four, three_five, two_five_one, one_five_two,
}

-- The loop over digits that have been read.
abbrev pub put_digits : ℕ → List ℕ → Bytes → Bytes
put_digits bit [] b = b
put_digits bit (x ∷ xs) b = put_digits (bit + 5) xs (put_digit bit x b)

abbrev pub put_locals : ℕ → List ℕ → Bytes → Bytes
put_locals o [] ys = ys
put_locals o (x ∷ xs) ys = put_locals (o + 5) xs (put_local o x ys)

length-or_at : (b : Bytes) (i v : ℕ) → length (or_at b i v) ≡ length b
length-or_at [] i v = refl
length-or_at (x ∷ b) zero v = refl
length-or_at (x ∷ b) (suc i) v = ap suc (length-or_at b i v)

or_at_beyond : (b : Bytes) (i v : ℕ) → length b ≤ i → or_at b i v ≡ b
or_at_beyond [] i v h = refl
or_at_beyond (x ∷ b) zero v h = absurd (omega arith)
or_at_beyond (x ∷ b) (suc i) v h = ap (◌∷◌ x) (or_at_beyond b i v (omega arith))

or_at-append :
    (before ys : Bytes) (i k v : ℕ)
    → i ≡ length before + k
    → or_at (before ++ ys) i v ≡ before ++ or_at ys k v
or_at-append [] ys i k v e = ap (λ i. or_at ys i v) (omega arith)
or_at-append (x ∷ before) ys zero k v e = absurd (omega arith)
or_at-append (x ∷ before) ys (suc i) k v e = ap (◌∷◌ x) (or_at-append before ys i k v (omega arith))

length-put_local : (o x : ℕ) (ys : Bytes) → length (put_local o x ys) ≡ length ys
length-put_local o x ys =
    length-or_at (or_at ys (o / 8) (shr (shl x 3) (o % 8))) _ _ ∙ length-or_at ys _ _

-- The guard only keeps the last byte's neighbour, which is not there, from being written.
put_digit-append :
    (before ys : Bytes) (bit o x : ℕ)
    → bit ≡ length before * 8 + o
    → length before + length ys ≡ 20
    → length before + o / 8 ≤ 19
    → put_digit bit x (before ++ ys) ≡ before ++ put_local o x ys
unfolding put_digit
put_digit-append before ys bit o x e len fits =
    let at : bit / 8 ≡ length before + o / 8 = omega arith in
    let off : bit % 8 ≡ o % 8 = omega arith in
    rw off (
      ground (
        arith,
        at,
        or_at-append before ys (bit / 8) (o / 8) (shr (shl x 3) (o % 8)) at,
        or_at-append before (or_at ys (o / 8) (shr (shl x 3) (o % 8))) (bit / 8 + 1) (o / 8 + 1)
            (shl (shl x 3) (8 - o % 8)) (omega arith),
        length-or_at ys (o / 8) (shr (shl x 3) (o % 8)),
        or_at_beyond (or_at ys (o / 8) (shr (shl x 3) (o % 8))) (o / 8 + 1)
            (shl (shl x 3) (8 - o % 8)),
      ))

pub put_digits-append :
    (xs : List ℕ) (before ys : Bytes) (bit o : ℕ)
    → bit ≡ length before * 8 + o
    → length before + length ys ≡ 20
    → length before ≤ 15
    → o + 5 * length xs ≤ 40
    → put_digits bit xs (before ++ ys) ≡ before ++ put_locals o xs ys
put_digits-append [] before ys bit o e len fits room = refl
put_digits-append (x ∷ xs) before ys bit o e len fits room =
    ap (put_digits (bit + 5) xs) (put_digit-append before ys bit o x e len (omega arith))
    ∙ put_digits-append xs before (put_local o x ys) (bit + 5) (o + 5) (omega arith)
        (omega (arith, length-put_local o x ys)) fits (omega arith)

abbrev pub pack : ℕ → ℕ → ℕ → ℕ → ℕ → ℕ → ℕ → ℕ → Bytes
pack x0 x1 x2 x3 x4 x5 x6 x7 =
    (x0 * 8 + x1 / 4)
    ∷ (x1 % 4 * 64 + x2 * 2 + x3 / 16)
    ∷ (x3 % 16 * 16 + x4 / 2)
    ∷ (x4 % 2 * 128 + x5 * 4 + x6 / 8)
    ∷ (x6 % 8 * 32 + x7)
    ∷ []

module _ (x0 x1 x2 x3 x4 x5 x6 x7 : ℕ) (h0 : x0 < 32) (h1 : x1 < 32) (h2 : x2 < 32) (h3 : x3 < 32)
    (h4 : x4 < 32) (h5 : x5 < 32) (h6 : x6 < 32) (h7 : x7 < 32) where
  no_carry :
      (bit_or 0 (shl (shl x0 3) 8) ≡ 0)
      × (bit_or 0 (shl (shl x2 3) 6) ≡ 0)
      × (bit_or 0 (shl (shl x5 3) 7) ≡ 0)
      × (bit_or 0 (shl (shl x7 3) 5) ≡ 0)
  no_carry = (
    or_zero _ (omega arith) ∙ omega arith,
    or_zero _ (omega arith) ∙ omega arith,
    or_zero _ (omega arith) ∙ omega arith,
    or_zero _ (omega arith) ∙ omega arith,
  )

  pub put_locals-last :
      put_locals 0 (x0 ∷ x1 ∷ x2 ∷ x3 ∷ x4 ∷ x5 ∷ x6 ∷ x7 ∷ []) (0 ∷ 0 ∷ 0 ∷ 0 ∷ 0 ∷ [])
      ≡ pack x0 x1 x2 x3 x4 x5 x6 x7
  put_locals-last = ground (
    arith,
    no_carry,
    five_three x0 x1 h0 h1,
    two_five_one x1 x2 x3 h1 h2 h3,
    four_four x3 x4 h3 h4,
    one_five_two x4 x5 x6 h4 h5 h6,
    three_five x6 x7 h6 h7,
  )

  pub put_locals-next :
      (ys : Bytes)
      → put_locals 0 (x0 ∷ x1 ∷ x2 ∷ x3 ∷ x4 ∷ x5 ∷ x6 ∷ x7 ∷ []) (0 ∷ 0 ∷ 0 ∷ 0 ∷ 0 ∷ 0 ∷ ys)
        ≡ pack x0 x1 x2 x3 x4 x5 x6 x7 ++ 0 ∷ ys
  put_locals-next ys = ground (
    arith,
    no_carry,
    five_three x0 x1 h0 h1,
    two_five_one x1 x2 x3 h1 h2 h3,
    four_four x3 x4 h3 h4,
    one_five_two x4 x5 x6 h4 h5 h6,
    three_five x6 x7 h6 h7,
  )
