-- ===== src/Common/Text.antt =====
-- Functions of Go's package strings on byte strings. `index` and its kin return `none` where Go
-- returns -1. A set of characters is a list of their UTF-8 encodings: no encoding begins inside
-- another one, so a search through the bytes finds what a search through the characters finds.
use Prim.Native.Nat.{ℕ, zero, suc, ◌+◌, ◌-◌, ◌/◌, ◌%◌}
use mathlib.Core.Bool.{Bool, true, false, ◌&&◌, ◌||◌}
use mathlib.Core.List.{List, [], ◌∷◌, ◌++◌}
use mathlib.Core.Option.{Option, none, some}
use mathlib.Core.Option as Option
use urlhero.Common.Tests.{◌==◌, leb, ltb, if◌then◌else◌}
use urlhero.Common.Lists.{length, take, drop}
use urlhero.Common.Strings.{Bytes, str_eq}

-- `strings.HasPrefix s pre`
unfoldable pub has_prefix : Bytes → Bytes → Bool
has_prefix s [] = true
has_prefix [] (y ∷ pre) = false
has_prefix (x ∷ s) (y ∷ pre) = x == y && has_prefix s pre

-- `strings.HasSuffix s suf`
unfoldable pub has_suffix : Bytes → Bytes → Bool
unfolding str_eq
has_suffix s suf = leb (length suf) (length s) && str_eq (drop (length s - length suf) s) suf

-- `strings.Index s sub`
unfoldable pub index : Bytes → Bytes → Option ℕ
unfolding has_prefix
index [] sub = if has_prefix [] sub then some 0 else none
index (x ∷ s) sub =
    let rest = index s sub in if has_prefix (x ∷ s) sub then some 0 else Option.map suc rest

-- whether one of the characters stands in front
unfoldable pub any_prefix : Bytes → List Bytes → Bool
unfolding has_prefix
any_prefix s [] = false
any_prefix s (c ∷ chars) = has_prefix s c || any_prefix s chars

-- `strings.IndexAny s chars`
unfoldable pub index_any : Bytes → List Bytes → Option ℕ
unfolding any_prefix
index_any [] chars = none
index_any (x ∷ s) chars =
    let rest = index_any s chars in if any_prefix (x ∷ s) chars then some 0 else Option.map suc rest

-- whether a byte of the string is `c`: `strings.ContainsRune s c` for an ASCII `c`
unfoldable pub contains_byte : Bytes → ℕ → Bool
contains_byte [] c = false
contains_byte (x ∷ s) c = x == c || contains_byte s c

-- `strings.TrimLeft s cutset`, for an ASCII cutset
unfoldable pub trim_left : Bytes → Bytes → Bytes
unfolding contains_byte
trim_left [] cutset = []
trim_left (x ∷ s) cutset =
    let rest = trim_left s cutset in if contains_byte cutset x then rest else x ∷ s

-- what stands before trimmed text: `x` goes with it where nothing is left and `x` is cut
unfoldable pub trim_cons : Bytes → ℕ → Bytes → Bytes
unfolding contains_byte
trim_cons cutset x [] = if contains_byte cutset x then [] else x ∷ []
trim_cons cutset x (y ∷ s) = x ∷ y ∷ s

-- `strings.TrimRight s cutset`, for an ASCII cutset
unfoldable pub trim_right : Bytes → Bytes → Bytes
unfolding trim_cons
trim_right [] cutset = []
trim_right (x ∷ s) cutset = trim_cons cutset x (trim_right s cutset)

-- `strings.TrimPrefix`
unfoldable pub trim_prefix : Bytes → Bytes → Bytes
unfolding has_prefix
trim_prefix s pre = if has_prefix s pre then drop (length pre) s else s

-- `strings.TrimSuffix`
unfoldable pub trim_suffix : Bytes → Bytes → Bytes
unfolding has_suffix
trim_suffix s suf = if has_suffix s suf then take (length s - length suf) s else s

-- `a < b` on strings
unfoldable pub str_lt : Bytes → Bytes → Bool
str_lt a [] = false
str_lt [] (y ∷ b) = true
str_lt (x ∷ a) (y ∷ b) = let rest = str_lt a b in if x == y then rest else ltb x y

-- `strings.IndexByte`, `none` for -1
unfoldable pub index_byte : ℕ → Bytes → Option ℕ
index_byte c [] = none
index_byte c (x ∷ s) =
    if x == c then some 0 else elim (index_byte c s) [ none ↦ none | some i ↦ some (i + 1) ]

-- `strings.LastIndexByte s c + 1`, which is 0 where the byte is missing
unfoldable pub after_last : Bytes → ℕ → ℕ
unfolding contains_byte
after_last [] c = 0
after_last (x ∷ s) c =
    let rest = after_last s c in if contains_byte s c then suc rest else if x == c then 1 else 0

-- `filepath.Base` where the separator is a slash
unfoldable pub base : Bytes → Bytes
unfolding trim_right after_last str_eq
base path =
    let name = trim_right path (b'/' ∷ []) in
    if str_eq path []
    then b'.' ∷ []
    else if str_eq name []
    then b'/' ∷ []
    else drop (after_last name b'/') name

-- `strings.Join parts sep`
unfoldable pub join : List Bytes → Bytes → Bytes
join [] sep = []
join (s ∷ []) sep = s
join (s ∷ t ∷ parts) sep = s ++ (sep ++ join (t ∷ parts) sep)

decimal : ℕ → ℕ → Bytes → Bytes
decimal zero n digits = digits
decimal (suc fuel) n digits =
    let rest = decimal fuel (n / 10) ((b'0' + n % 10) ∷ digits) in if n == 0 then digits else rest

-- `strconv.Itoa` of a number that is not negative
unfoldable pub itoa : ℕ → Bytes
unfolding decimal
itoa n = if n == 0 then b'0' ∷ [] else decimal n n []
