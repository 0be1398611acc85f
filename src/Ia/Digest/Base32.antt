-- ===== src/Ia/Digest/Base32.antt =====
-- Base32 without padding, as RFC 4648 has it for whole groups: five bytes are eight letters. This
-- is what `DecodeDigest` of ia/timemap.go inverts.
use urlhero.Common.{
  ℕ, zero, suc, ◌+◌, ◌-◌, ◌*◌, ◌/◌, ◌%◌, ◌<◌, ◌≡◌, refl, sym, ap, ap₂, ◌∙◌, arith, List, [], ◌∷◌,
  ◌++◌, map, Bytes, ltb, if◌then◌else◌, length, length-append, append_assoc, All,
}
use urlhero.Ia.Digest.{zeros}
use urlhero.Ia.Digest.Groups.{
  put_digits, put_locals, put_digits-append, pack, put_locals-last, put_locals-next,
}

-- The alphabet "ABCDEFGHIJKLMNOPQRSTUVWXYZ234567".
abbrev pub letter : ℕ → ℕ
letter x = if ltb x 26 then b'A' + x else b'2' + (x - 26)

-- Eight digits of five bits.
pub record Group : Type 0 where
  pub d0 : ℕ
  pub d1 : ℕ
  pub d2 : ℕ
  pub d3 : ℕ
  pub d4 : ℕ
  pub d5 : ℕ
  pub d6 : ℕ
  pub d7 : ℕ

pub record IsGroup (g : Group) : Type 0 where
  pub h0 : g.d0 < 32
  pub h1 : g.d1 < 32
  pub h2 : g.d2 < 32
  pub h3 : g.d3 < 32
  pub h4 : g.d4 < 32
  pub h5 : g.d5 < 32
  pub h6 : g.d6 < 32
  pub h7 : g.d7 < 32

abbrev pub flat : List Group → List ℕ
flat [] = []
flat (g ∷ gs) = g.d0 ∷ g.d1 ∷ g.d2 ∷ g.d3 ∷ g.d4 ∷ g.d5 ∷ g.d6 ∷ g.d7 ∷ flat gs

abbrev pub pack_group : Group → Bytes
pack_group g = pack g.d0 g.d1 g.d2 g.d3 g.d4 g.d5 g.d6 g.d7

abbrev pub packs : List Group → Bytes
packs [] = []
packs (g ∷ gs) = pack_group g ++ packs gs

abbrev pub unpack : ℕ → ℕ → ℕ → ℕ → ℕ → Group
unpack b0 b1 b2 b3 b4 = record {
  d0 = b0 / 8;
  d1 = b0 % 8 * 4 + b1 / 64;
  d2 = b1 / 2 % 32;
  d3 = b1 % 2 * 16 + b2 / 16;
  d4 = b2 % 16 * 2 + b3 / 128;
  d5 = b3 / 4 % 32;
  d6 = b3 % 4 * 8 + b4 / 32;
  d7 = b4 % 32;
}

abbrev pub unpacks : Bytes → List Group
unpacks (b0 ∷ b1 ∷ b2 ∷ b3 ∷ b4 ∷ rest) = unpack b0 b1 b2 b3 b4 ∷ unpacks rest
unpacks _ = []

abbrev pub base32 : Bytes → Bytes
base32 b = map letter (flat (unpacks b))

pub unpack-IsGroup :
    (b0 b1 b2 b3 b4 : ℕ)
    → b0 < 256
    → b1 < 256
    → b2 < 256
    → b3 < 256
    → b4 < 256
    → IsGroup (unpack b0 b1 b2 b3 b4)
unpack-IsGroup b0 b1 b2 b3 b4 h0 h1 h2 h3 h4 = omega arith

pub pack-unpack :
    (b0 b1 b2 b3 b4 : ℕ)
    → b0 < 256
    → b1 < 256
    → b2 < 256
    → b3 < 256
    → b4 < 256
    → pack_group (unpack b0 b1 b2 b3 b4) ≡ b0 ∷ b1 ∷ b2 ∷ b3 ∷ b4 ∷ []
pack-unpack b0 b1 b2 b3 b4 h0 h1 h2 h3 h4 = ap₂ ◌∷◌ (omega arith) (
    ap₂ ◌∷◌ (omega arith)
      (ap₂ ◌∷◌ (omega arith) (ap₂ ◌∷◌ (omega arith) (ap₂ ◌∷◌ (omega arith) refl))))

pub unpacks-packs : (gs : List Group) → All IsGroup gs → flat (unpacks (packs gs)) ≡ flat gs
unpacks-packs [] h = refl
unpacks-packs (g ∷ gs) (k, h) = ap₂ ◌∷◌ (omega arith) (
    ap₂ ◌∷◌ (omega arith) (
      ap₂ ◌∷◌ (omega arith) (
        ap₂ ◌∷◌ (omega arith) (
          ap₂ ◌∷◌ (omega arith) (
            ap₂ ◌∷◌ (omega arith)
              (ap₂ ◌∷◌ (omega arith) (ap₂ ◌∷◌ (omega arith) (unpacks-packs gs h))))))))

abbrev zero_groups : ℕ → Bytes
zero_groups zero = []
zero_groups (suc n) = 0 ∷ 0 ∷ 0 ∷ 0 ∷ 0 ∷ zero_groups n

put_group :
    (g : Group) (n : ℕ)
    → IsGroup g
    → put_locals 0 (flat (g ∷ [])) (zero_groups (suc n)) ≡ pack_group g ++ zero_groups n
put_group g zero h =
    put_locals-last g.d0 g.d1 g.d2 g.d3 g.d4 g.d5 g.d6 g.d7 h.h0 h.h1 h.h2 h.h3 h.h4 h.h5 h.h6 h.h7
put_group g (suc n) h =
    put_locals-next g.d0 g.d1 g.d2 g.d3 g.d4 g.d5 g.d6 g.d7 h.h0 h.h1 h.h2 h.h3 h.h4 h.h5 h.h6 h.h7
      (0 ∷ 0 ∷ 0 ∷ 0 ∷ zero_groups n)

length-zero_groups : (n : ℕ) → length (zero_groups n) ≡ 5 * n
length-zero_groups zero = omega arith
length-zero_groups (suc n) = omega (arith, length-zero_groups n)

-- The loop fills the array group by group.
pub put_digits-groups :
    (gs : List Group) (before : Bytes) (bit : ℕ)
    → bit ≡ length before * 8
    → length before + 5 * length gs ≡ 20
    → All IsGroup gs
    → put_digits bit (flat gs) (before ++ zero_groups (length gs)) ≡ before ++ packs gs
put_digits-groups [] before bit e len h = refl
put_digits-groups (g ∷ gs) before bit e len (k, h) =
    ap₂ (λ b xs. put_digits b (flat gs) xs) (omega arith)
      (put_digits-append (flat (g ∷ [])) before (zero_groups (suc (length gs))) bit 0 (omega arith)
          (omega (arith, length-zero_groups (length gs))) (omega arith) (omega arith)
        ∙ ap (λ ys. before ++ ys) (put_group g (length gs) k)
        ∙ sym (append_assoc before (pack_group g) (zero_groups (length gs))))
    ∙ put_digits-groups gs (before ++ pack_group g) (bit + 40)
        (omega (arith, length-append before (pack_group g)))
        (omega (arith, length-append before (pack_group g))) h
    ∙ append_assoc before (pack_group g) (packs gs)

pub put_digits-zeros :
    (gs : List Group) → length gs ≡ 4 → All IsGroup gs → put_digits 0 (flat gs) zeros ≡ packs gs
put_digits-zeros gs e h =
    ap (λ n. put_digits 0 (flat gs) (zero_groups n)) (sym e)
    ∙ put_digits-groups gs [] 0 (omega arith) (omega arith) h
