-- ===== src/Beacon.antt =====
-- beacon/reader.go: the data of a link dump, its errors, and the functions on one line of text.
pub mod Reader
pub mod Header
pub mod Links
pub mod Text
pub mod Lines
pub mod Progress
pub mod Dump
pub mod Heads
pub mod Gather
pub mod RoundTrip
pub mod Bars
pub mod Panics
mod Tests
use urlhero.Common.{
  index_byte, ℕ, zero, suc, ◌+◌, ◌-◌, Bool, true, false, ◌&&◌, ◌||◌, Option, none, some, List, [],
  ◌∷◌, ◌++◌, Outcome, ok, err, Bytes, codes, leb, ltb, ◌==◌, if◌then◌else◌, length, get_elem?, take,
  drop,
}

pub record MetaField : Type 0 where
  pub name : Bytes
  pub value : Bytes

pub record Link : Type 0 where
  pub source : Bytes
  pub target : Bytes
  pub annotation : Bytes

pub data Format : Type 0 where
  rfc urlteam : Format

-- `io.EOF`, an error of the underlying reader, and the errors that the package makes.
-- `at_line` is the wrapping `beacon: line %d: %w`.
pub data Error : Type 0 where
  eof : Error
  io : ℕ → Error
  invalid_character : ℕ → Bytes → Error
  meta_missing_value : Bytes → Error
  too_many_bars : Bytes → Error
  missing_bar : Bytes → Error
  wrong_length : ℕ → Bytes → Error
  at_line : ℕ → Error → Error

-- `err == io.EOF`
abbrev pub is_eof : Error → Bool
is_eof eof = true
is_eof _ = false

-- `s[i] == c`, where `i` is in range
abbrev pub byte_is : ℕ → Bytes → ℕ → Bool
byte_is c s i = elim (get_elem? s i) [ none ↦ false | some b ↦ b == c ]

-- Without the final "\n" or "\r\n".
unfoldable pub drop_line_break : Bytes → Bytes
drop_line_break line =
    let n = length line in
    if ltb 0 n && byte_is b'\n' line (n - 1)
    then take (n - (if ltb 1 n && byte_is b'\r' line (n - 2) then 2 else 1)) line
    else line

abbrev pub is_space : ℕ → Bool
is_space c = c == b' ' || c == b'\t'

unfoldable pub trim_left_space : Bytes → Bytes
trim_left_space [] = []
trim_left_space (c ∷ s) = if is_space c then trim_left_space s else c ∷ s

abbrev pub is_upper : ℕ → Bool
is_upper c = leb b'A' c && leb c b'Z'

-- The loop of `splitMeta` at byte `i`. A rune beyond ASCII ends it as each of its bytes would.
unfoldable pub split_meta_at : Bytes → ℕ → Bytes → Outcome Error MetaField
split_meta_at meta i [] = err (meta_missing_value meta)
split_meta_at meta i (c ∷ cs) =
    if is_upper c
    then split_meta_at meta (i + 1) cs
    else if c == b':' || is_space c
    then ok (record { name = take i meta; value = trim_left_space (drop (i + 1) meta) })
    else err (invalid_character i meta)

unfoldable pub split_meta : Bytes → Outcome Error MetaField
unfolding split_meta_at trim_left_space
split_meta meta = split_meta_at meta 0 meta

-- `strings.SplitN` at a single byte
unfoldable pub split_n : ℕ → ℕ → Bytes → List Bytes
split_n sep zero s = []
split_n sep (suc zero) s = s ∷ []
split_n sep (suc (suc k)) s = elim (index_byte sep s) [
  | none ↦ s ∷ []
  | some i ↦ take i s ∷ split_n sep (suc k) (drop (i + 1) s)
]

-- `MetaField.String`
unfoldable pub meta_field_string : MetaField → Bytes
meta_field_string m = codes "#" ++ (m.name ++ (codes ": " ++ m.value))

-- `Link.String`
unfoldable pub link_string : Link → Bytes
link_string l = elim l.annotation [
  | [] ↦ l.source ++ (codes "|" ++ l.target)
  | x ∷ xs ↦ l.source ++ (codes "|" ++ ((x ∷ xs) ++ (codes "|" ++ l.target)))
]
