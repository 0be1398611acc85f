-- ===== src/Ia/Tests.antt =====
-- Runs of the decoder, and each theorem of the package at a concrete input.
use urlhero.Common.{
  IoError, eof, Source, chunks_content, ◌⊎◌, inr, ◌++◌, ◌≡◌, ◌↔◌, ◌<◌, refl, [], ◌∷◌, ok, err,
  Bytes, codes, length, All, List, drop, ◌-◌,
}
use urlhero.Ia.Digest.{decode_digest, wrong_length}
use urlhero.Ia.Digest.Base32.{base32}
use urlhero.Ia.Validate.Item.{
  FileMeta, IsValid, meta_name, read_file_meta, validate_item, validate_item_iff,
}
use urlhero.Ia.Validate.{validate_file}
use urlhero.Ia.Validate.Sums.{IsSum, validate_file_iff}
use urlhero.Ia.Digest.RoundTrip.{decode_digest_iff}

abbrev digest : Bytes
digest = codes "TS3WOHL6SGIAF7FIMPABIV7CO27YXCM7"

abbrev sha1 : Bytes
sha1 =
    0x9c ∷ 0xb7 ∷ 0x67 ∷ 0x1d ∷ 0x7e ∷ 0x91 ∷ 0x90 ∷ 0x02 ∷ 0xfc ∷ 0xa8 ∷ 0x63 ∷ 0xc0 ∷ 0x14 ∷ 0x57
    ∷ 0xe2 ∷ 0x76 ∷ 0xbf ∷ 0x8b ∷ 0x89 ∷ 0x9f ∷ []

-- The first case of `TestDecodeDigest`.
decode_first : decode_digest digest ≡ ok sha1
unfolding decode_digest
decode_first = refl

decode_short : decode_digest (codes "ABC") ≡ err (wrong_length (codes "ABC"))
unfolding decode_digest
decode_short = refl

decode_digest_iff_example :
    (decode_digest digest ≡ ok sha1)
    ↔ ((length sha1 ≡ 20) × All (λ x. x < 256) sha1 × (base32 sha1 ≡ digest))
decode_digest_iff_example = decode_digest_iff digest sha1

-- Stands for a hash: the last four bytes.
abbrev tail : Bytes → Bytes
tail text = drop (length text - 4) text

abbrev pieces : List Bytes
pieces = codes "ab" ∷ codes "cde" ∷ []

validate_file_iff_example :
    (validate_file tail tail tail
        (record { chunks = pieces; last = codes "f"; final = eof })
        (codes "name")
        (codes "cdef")
        []
        (codes "cdee")
      ≡ ok tt)
    ↔ ((eof ≡ eof)
        × IsSum tail (codes "cdef") (chunks_content pieces (codes "f"))
        × IsSum tail [] (chunks_content pieces (codes "f"))
        × IsSum tail (codes "cdee") (chunks_content pieces (codes "f")))
validate_file_iff_example =
    validate_file_iff tail tail tail (codes "name") (codes "cdef") [] (codes "cdee") pieces
      (codes "f") eof

valid :
    validate_file tail tail tail
      (record { chunks = pieces; last = codes "f"; final = eof })
      (codes "name")
      (codes "cdef")
      []
      []
    ≡ ok tt
unfolding validate_file
valid = refl

abbrev join : Bytes → Bytes → Bytes
join dir name = dir ++ (b'/' ∷ name)

abbrev open_file : Bytes → IoError ⊎ Source
open_file path = inr (record { chunks = pieces; last = codes "f"; final = eof })

abbrev listing : List FileMeta
listing =
    record { name = codes "it_files.xml"; md5 = codes "none"; sha1 = []; crc32 = [] }
    ∷ record { name = codes "a"; md5 = codes "cdef"; sha1 = []; crc32 = [] }
    ∷ []

abbrev decode : Source → IoError ⊎ List FileMeta
decode f = inr listing

item_valid : validate_item tail tail tail join open_file decode (codes "x/it") ≡ ok tt
unfolding validate_item
item_valid = refl

validate_item_iff_example :
    (validate_item tail tail tail join open_file decode (codes "x/it") ≡ ok tt) ↔ (
      (files : List FileMeta) × (read_file_meta tail tail tail join open_file decode (codes "x/it")
        ≡ inr files)
      × All
          (λ fm.
            (fm.name ≡ meta_name (codes "x/it"))
            ⊎ IsValid tail tail tail join open_file decode (codes "x/it") fm)
          files)
validate_item_iff_example = validate_item_iff tail tail tail join open_file decode (codes "x/it")
