-- ===== src/Ia/Digest/RoundTrip.antt =====
-- ia/timemap.go: `DecodeDigest` inverts base32.
use urlhero.Common.{
  ℕ, zero, suc, ◌+◌, ◌*◌, ◌<◌, ◌≡◌, ◌↔◌, inl, inr, refl, sym, ap, ap₂, ◌∙◌, subst, arith, List, [],
  ◌∷◌, ◌++◌, map, Bytes, ◌==◌, ==_iff, length, All, Outcome, ok, err, panic, hang, Bool-cases,
}
use urlhero.Ia.Digest.{Error, zeros, put_digit, digest_alpha, decode_digits, decode_digest}
use urlhero.Ia.Digest.Groups.{put_digits}
use urlhero.Ia.Digest.Base32.{
  letter, Group, IsGroup, flat, packs, unpacks, base32, unpack-IsGroup, pack-unpack, unpacks-packs,
  put_digits-zeros,
}

digest_alpha-letter : (x : ℕ) (digest : Bytes) → x < 32 → digest_alpha (letter x) digest ≡ ok x
unfolding digest_alpha
digest_alpha-letter x digest h = ground arith

digest_alpha-ok :
    (ch : ℕ) (digest : Bytes) {x : ℕ} → digest_alpha ch digest ≡ ok x → (x < 32) × (ch ≡ letter x)
unfolding digest_alpha
digest_alpha-ok ch digest {x} h = ground arith

decode_digits-letter :
    (digest : Bytes) (xs : List ℕ) (bit : ℕ) (b : Bytes)
    → All (λ x. x < 32) xs
    → decode_digits digest bit b (map letter xs) ≡ ok (put_digits bit xs b)
unfolding decode_digits
decode_digits-letter digest [] bit b h = refl
decode_digits-letter digest (x ∷ xs) bit b h = ground (
  arith,
  digest_alpha-letter x digest h.0,
  decode_digits-letter digest xs (bit + 5) (put_digit bit x b) h.1,
)

-- The digits that a successful run has read.
record DigitsRead (chars : Bytes) (bit : ℕ) (b result : Bytes) : Type 0 where
  digits : List ℕ
  below : All (λ x. x < 32) digits
  chars_are : chars ≡ map letter digits
  result_is : result ≡ put_digits bit digits b

decode_digits-ok :
    (digest chars : Bytes) (bit : ℕ) (b : Bytes) {result : Bytes}
    → decode_digits digest bit b chars ≡ ok result
    → DigitsRead chars bit b result
unfolding decode_digits
decode_digits-ok digest [] bit b h = record {
  digits = [];
  below = tt;
  chars_are = refl;
  result_is = cc;
}
decode_digits-ok digest (ch ∷ chars) bit b {result} h =
    go (digest_alpha ch digest) refl
      (λ x r. decode_digits-ok digest chars (bit + 5) (put_digit bit x b) r) h
  where
    go :
        (o : Outcome Error ℕ)
        → digest_alpha ch digest ≡ o
        → ((x : ℕ)
            → decode_digits digest (bit + 5) (put_digit bit x b) chars ≡ ok result
            → DigitsRead chars (bit + 5) (put_digit bit x b) result)
        → (elim o as (λ _. Outcome Error Bytes) [
          | ok x ↦ decode_digits digest (bit + 5) (put_digit bit x b) chars
          | err e ↦ err e
          | panic ↦ panic
          | hang ↦ hang
        ])
          ≡ ok result
        → DigitsRead (ch ∷ chars) bit b result
    go (ok x) e later r =
        let rest = later x r in
        let (small, is_letter) = digest_alpha-ok ch digest e in
        record {
          digits = x ∷ rest.digits;
          below = (small, rest.below);
          chars_are = ap₂ ◌∷◌ is_letter rest.chars_are;
          result_is = rest.result_is;
        }
    go (err x) e later r = cc
    go panic e later r = cc
    go hang e later r = cc

-- Digits come in groups of eight.
record Grouped (n : ℕ) (xs : List ℕ) : Type 0 where
  groups : List Group
  are : xs ≡ flat groups
  count : length groups ≡ n
  bounded : All IsGroup groups

group_digits : (n : ℕ) (xs : List ℕ) → length xs ≡ 8 * n → All (λ x. x < 32) xs → Grouped n xs
group_digits zero [] e h = record { groups = []; are = refl; count = refl; bounded = tt }
group_digits zero (x ∷ xs) e h = absurd (omega arith)
group_digits (suc n) (x0 ∷ x1 ∷ x2 ∷ x3 ∷ x4 ∷ x5 ∷ x6 ∷ x7 ∷ xs) e
      (h0, (h1, (h2, (h3, (h4, (h5, (h6, (h7, h)))))))) =
    let rest = group_digits n xs (omega arith) h in
    record {
      groups =
          record { d0 = x0; d1 = x1; d2 = x2; d3 = x3; d4 = x4; d5 = x5; d6 = x6; d7 = x7 }
          ∷ rest.groups;
      are = ap (λ l. x0 ∷ x1 ∷ x2 ∷ x3 ∷ x4 ∷ x5 ∷ x6 ∷ x7 ∷ l) rest.are;
      count = ap suc rest.count;
      bounded = (
        record { h0 = h0; h1 = h1; h2 = h2; h3 = h3; h4 = h4; h5 = h5; h6 = h6; h7 = h7 },
        rest.bounded,
      );
    }
group_digits (suc n) _ e h = absurd (omega arith)

abbrev IsByte : ℕ → Type 0
IsByte x = x < 256

packs-IsByte : (gs : List Group) → All IsGroup gs → All IsByte (packs gs)
packs-IsByte [] h = tt
packs-IsByte (g ∷ gs) (k, h) =
    (omega arith, (omega arith, (omega arith, (omega arith, (omega arith, packs-IsByte gs h)))))

length-packs : (gs : List Group) → length (packs gs) ≡ 5 * length gs
length-packs [] = omega arith
length-packs (g ∷ gs) = omega (arith, length-packs gs)

length-map : (f : ℕ → ℕ) (xs : List ℕ) → length (map f xs) ≡ length xs
length-map f [] = refl
length-map f (x ∷ xs) = ap suc (length-map f xs)

flat-below : (gs : List Group) → All IsGroup gs → All (λ x. x < 32) (flat gs)
flat-below [] h = tt
flat-below (g ∷ gs) (k, h) =
    (k.h0, (k.h1, (k.h2, (k.h3, (k.h4, (k.h5, (k.h6, (k.h7, flat-below gs h))))))))

length-flat : (gs : List Group) → length (flat gs) ≡ 8 * length gs
length-flat [] = omega arith
length-flat (g ∷ gs) = omega (arith, length-flat gs)

-- Bytes come in groups of five.
record Unpacked (n : ℕ) (b : Bytes) : Type 0 where
  packs_are : packs (unpacks b) ≡ b
  count : length (unpacks b) ≡ n
  bounded : All IsGroup (unpacks b)

unpack_bytes : (n : ℕ) (b : Bytes) → length b ≡ 5 * n → All IsByte b → Unpacked n b
unpack_bytes zero [] e h = record { packs_are = refl; count = refl; bounded = tt }
unpack_bytes zero (x ∷ b) e h = absurd (omega arith)
unpack_bytes (suc n) (b0 ∷ b1 ∷ b2 ∷ b3 ∷ b4 ∷ b) e (h0, (h1, (h2, (h3, (h4, h))))) =
    let rest = unpack_bytes n b (omega arith) h in
    record {
      packs_are = ap₂ ◌++◌ (pack-unpack b0 b1 b2 b3 b4 h0 h1 h2 h3 h4) rest.packs_are;
      count = ap suc rest.count;
      bounded = (unpack-IsGroup b0 b1 b2 b3 b4 h0 h1 h2 h3 h4, rest.bounded);
    }
unpack_bytes (suc n) _ e h = absurd (omega arith)

decode_digest_long :
    (digest : Bytes)
    → length digest ≡ 32
    → decode_digest digest ≡ decode_digits digest 0 zeros digest
unfolding decode_digest
decode_digest_long digest e = rw e

decode_digest-ok :
    (digest : Bytes) {b : Bytes}
    → decode_digest digest ≡ ok b
    → (length digest ≡ 32) × (decode_digits digest 0 zeros digest ≡ ok b)
unfolding decode_digest
decode_digest-ok digest h = elim (Bool-cases (length digest == 32)) [
  | inl same ↦ let e = (==_iff _ _).0 same in (e, sym (decode_digest_long digest e) ∙ h)
  | inr other ↦ absurd (ground arith)
]

decode_digest-base32 : (b : Bytes) → length b ≡ 20 → All IsByte b → decode_digest (base32 b) ≡ ok b
decode_digest-base32 b len h =
    let u = unpack_bytes 4 b len h in
    decode_digest_long (base32 b)
      (omega (arith, length-map letter (flat (unpacks b)), length-flat (unpacks b), u.count))
    ∙ decode_digits-letter (base32 b) (flat (unpacks b)) 0 zeros (flat-below (unpacks b) u.bounded)
    ∙ ap ok (put_digits-zeros (unpacks b) u.count u.bounded ∙ u.packs_are)

base32-decode_digest :
    (digest : Bytes) {b : Bytes}
    → decode_digest digest ≡ ok b
    → (length b ≡ 20) × All IsByte b × (base32 b ≡ digest)
base32-decode_digest digest {b} h =
    let (len, run) = decode_digest-ok digest h in
    let r = decode_digits-ok digest digest 0 zeros run in
    let g =
      group_digits 4 r.digits (omega (arith, ap length r.chars_are, length-map letter r.digits))
        r.below in
    let packed : packs g.groups ≡ b = sym (
      r.result_is
      ∙ ap (λ xs. put_digits 0 xs zeros) g.are
      ∙ put_digits-zeros g.groups g.count g.bounded) in
    (
      omega (arith, ap length packed, length-packs g.groups, g.count),
      subst (All IsByte) packed (packs-IsByte g.groups g.bounded),
      ap base32 (sym packed)
          ∙ ap (map letter) (unpacks-packs g.groups g.bounded ∙ sym g.are)
          ∙ sym r.chars_are,
    )

-- `decode_digest` returns `b` exactly when `b` is 20 bytes whose base32 form is the digest: it
-- accepts the 32-letter digests of the alphabet that some 20 bytes encode to, and no others.
pub decode_digest_iff :
    (digest b : Bytes)
    → (decode_digest digest ≡ ok b) ↔ ((length b ≡ 20) × All (λ x. x < 256) b × (base32 b ≡ digest))
decode_digest_iff digest b = (
  base32-decode_digest digest,
  λ (len, bytes, e). ap decode_digest (sym e) ∙ decode_digest-base32 b len bytes,
)
