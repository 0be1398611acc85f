-- ===== src/Ia/Validate.antt =====
-- ia/validate.go: the reader that hashes what it reads and compares the sums at the end. `md5`,
-- `sha1` and `crc32` give the sum of all that was written to a hash of that kind. The input behind
-- the reader is the pieces that its reads return, and then a last piece together with the error
-- that ends it, which later reads return alone.
pub mod Sums
pub mod Item
use urlhero.Common.{
  IoError, eof, other, Source, ℕ, zero, suc, ◌+◌, Bool, true, false, Option, none, some, List, [],
  ◌∷◌, ◌++◌, Outcome, ok, err, hang, Bytes, str_eq, if◌then◌else◌, length,
}

pub data Kind : Type 0 where
  md5_kind : Kind
  sha1_kind : Kind
  crc32_kind : Kind

-- `bad_sum kind name s sum`: the sum is `s` instead of `sum`.
pub data ValidateError : Type 0 where
  io : IoError → ValidateError
  bad_sum : Kind → Bytes → Bytes → Bytes → ValidateError

-- A hash is what was written to it, `none` for nil.
pub record ReadValidator : Type 0 where
  pub source : Source
  pub name : Bytes
  pub md5_hash : Option Bytes
  pub sha1_hash : Option Bytes
  pub crc32_hash : Option Bytes
  pub md5_sum : Bytes
  pub sha1_sum : Bytes
  pub crc32_sum : Bytes

-- a new hash where a sum is given
abbrev pub new_hash : Bytes → Option Bytes
new_hash [] = none
new_hash (x ∷ sum) = some []

-- The three tee readers are the three hashes.
abbrev pub new_read_validator : Source → Bytes → Bytes → Bytes → Bytes → ReadValidator
new_read_validator source name md5_sum sha1_sum crc32_sum = record {
  source = source;
  name = name;
  md5_hash = new_hash md5_sum;
  sha1_hash = new_hash sha1_sum;
  crc32_hash = new_hash crc32_sum;
  md5_sum = md5_sum;
  sha1_sum = sha1_sum;
  crc32_sum = crc32_sum;
}

-- What a tee reader has read goes to its hash.
abbrev pub tee : Bytes → Option Bytes → Option Bytes
tee piece none = none
tee piece (some written) = some (written ++ piece)

abbrev pub written : Bytes → Source → ReadValidator → ReadValidator
written piece source rv = record rv {
  source = source;
  md5_hash = tee piece rv.md5_hash;
  sha1_hash = tee piece rv.sha1_hash;
  crc32_hash = tee piece rv.crc32_hash;
}

-- `if err := e; err != nil { return err }`, and then `e'`
abbrev pub first_error : Option ValidateError → Option ValidateError → Option ValidateError
first_error (some e) e' = some e
first_error none e' = e'

-- the error of a `Read` that ends with an error, after `rv.validate()`
abbrev pub end_error : Option ValidateError → IoError → ValidateError
end_error v (other n) = io (other n)
end_error none eof = io eof
end_error (some e) eof = e

-- `io.Copy(io.Discard, rv)`, for which the end of the input is no error
abbrev pub copy_end : ValidateError → Outcome ValidateError Unit
copy_end (io eof) = ok tt
copy_end (io (other n)) = err (io (other n))
copy_end (bad_sum kind name s sum) = err (bad_sum kind name s sum)

unfoldable pub validate_sum :
    Bytes → Kind → (Bytes → Bytes) → Option Bytes → Bytes → Option ValidateError
unfolding str_eq
validate_sum name kind hash none sum = none
validate_sum name kind hash (some data_written) sum =
    if str_eq (hash data_written) sum
    then none
    else some (bad_sum kind name (hash data_written) sum)

module _ (md5 sha1 crc32 : Bytes → Bytes) where
  unfoldable pub validate : ReadValidator → Option ValidateError
  unfolding validate_sum
  validate rv = first_error (validate_sum rv.name md5_kind md5 rv.md5_hash rv.md5_sum) (
      first_error (validate_sum rv.name sha1_kind sha1 rv.sha1_hash rv.sha1_sum)
        (validate_sum rv.name crc32_kind crc32 rv.crc32_hash rv.crc32_sum))

  -- `Read`, of a reader whose pieces are `chunks`
  abbrev pub read_piece :
      ReadValidator → List Bytes → (Bytes × Option ValidateError) × ReadValidator
  read_piece rv [] =
      let rv' = written rv.source.last (record rv.source { last = [] }) rv in
      ((rv.source.last, some (end_error (validate rv') rv.source.final)), rv')
  read_piece rv (c ∷ chunks) = ((c, none), written c (record rv.source { chunks = chunks }) rv)

  unfoldable pub read : ReadValidator → (Bytes × Option ValidateError) × ReadValidator
  unfolding validate
  read rv = read_piece rv rv.source.chunks

  unfoldable pub copy_discard : ℕ → ReadValidator → Outcome ValidateError Unit
  unfolding read
  copy_discard zero rv = hang
  copy_discard (suc fuel) rv =
      let ((piece, e), rv') = read rv in
      (elim e [ none ↦ copy_discard fuel rv' | some e' ↦ copy_end e' ])

  -- `ValidateFile` on a file that was opened
  unfoldable pub validate_file : Source → Bytes → Bytes → Bytes → Bytes → Outcome ValidateError Unit
  unfolding copy_discard
  validate_file source name md5_sum sha1_sum crc32_sum =
      copy_discard (suc (length source.chunks))
        (new_read_validator source name md5_sum sha1_sum crc32_sum)
