-- ===== src/Regex.antt =====
-- The regular expressions of the package regexp that the shorteners use. A match is searched for from
-- left to right, a choice tries its first branch first, and a repetition is greedy.
pub mod Spec
pub mod First
pub mod Breaks
pub mod Line
pub mod Words
pub mod Places
pub mod Delete
use urlhero.Common.{
  ℕ, ◌+◌, List, zero, suc, Bool, true, false, Option, none, some, [], ◌∷◌, ◌++◌, Bytes, ◌==◌,
  if◌then◌else◌, length, take, drop, more_bytes,
}

-- What takes one rune: a class of ASCII characters, or any rune but a line break.
pub data Step : Type 0 where
  one : (ℕ → Bool) → Step
  dot : Step

pub data Regex : Type 0 where
  empty : Regex
  begin : Regex
  end : Regex
  unit : Step → Regex
  many : Step → Regex
  seq : Regex → Regex → Regex
  alt : Regex → Regex → Regex

-- what is left after one rune
unfoldable pub step : Step → Bytes → Option Bytes
unfolding more_bytes
step x [] = none
step (one p) (c ∷ s) = if p c then some s else none
step dot (c ∷ s) = if c == b'\n' then none else some (drop (more_bytes c s) s)

-- what is done at a place: whether it is the start of the text, and the text from there on
abbrev pub Next : Type 0
Next = Bool → Bytes → Option Bytes

abbrev pub or_else : Option Bytes → Option Bytes → Option Bytes
or_else none rest = rest
or_else (some t) rest = some t

abbrev pub and_then : Option Bytes → (Bytes → Option Bytes) → Option Bytes
and_then none rest = none
and_then (some t) rest = rest t

abbrev pub at_end : Bytes → Option Bytes → Option Bytes
at_end [] rest = rest
at_end (c ∷ s) rest = none

-- A repetition. Each round takes a byte at least.
unfoldable pub repeat : ℕ → Step → Next → Next
unfolding step
repeat zero x next b s = next b s
repeat (suc fuel) x next b s = or_else (and_then (step x s) (repeat fuel x next false)) (next b s)

unfoldable pub run : Regex → Next → Next
unfolding repeat
run empty next b s = next b s
run begin next b s = if b then next b s else none
run end next b s = at_end s (next b s)
run (unit x) next b s = and_then (step x s) (next false)
run (many x) next b s = repeat (length s) x next b s
run (seq q r) next b s = run q (run r next) b s
run (alt q r) next b s = or_else (run q next b s) (run r next b s)

abbrev pub done : Next
done b s = some s

-- Where the match of a search begins, and what is left after it.
pub record Found : Type 0 where
  pub before : Bytes
  pub here : Bytes
  pub after : Bytes

abbrev pub push : Bytes → Option Found → Option Found
push rune none = none
push rune (some f) = some (record f { before = rune ++ f.before })

-- a match here, or else the first one further on
abbrev pub found_here : Bytes → Option Bytes → Option Found → Option Found
found_here s none further = further
found_here s (some t) further = some (record { before = []; here = s; after = t })

-- The first match. Each round skips a byte at least.
unfoldable pub find : ℕ → Regex → Bool → Bytes → Option Found
unfolding run more_bytes
find zero r b s = found_here s (run r done b s) none
find (suc fuel) r b [] = found_here [] (run r done b []) none
find (suc fuel) r b (c ∷ s) =
    let n = more_bytes c s in
    found_here (c ∷ s) (run r done b (c ∷ s)) (push (c ∷ take n s) (find fuel r false (drop n s)))

-- `MatchString`
abbrev pub is_found : Option Found → Bool
is_found none = false
is_found (some f) = true

unfoldable pub match_string : Regex → Bytes → Bool
unfolding find
match_string r s = is_found (find (length s) r true s)

-- `delete` is what is done after the match. After a match of no bytes one rune is kept.
unfoldable pub delete_here : (Bytes → Bytes) → Bytes → Bytes → Bytes
unfolding more_bytes
delete_here delete [] t = []
delete_here delete (c ∷ s) t =
    let n = more_bytes c s in
    if length t == length (c ∷ s) then c ∷ (take n s ++ delete (drop n s)) else delete t

abbrev pub delete_found : (Bytes → Bytes) → Bytes → Option Found → Bytes
unfolding delete_here
delete_found delete s none = s
delete_found delete s (some f) = f.before ++ delete_here delete f.here f.after

-- The text with each match left out.
unfoldable pub delete_all : ℕ → Regex → Bool → Bytes → Bytes
unfolding find delete_here
delete_all zero r b s = s
delete_all (suc fuel) r b s = delete_found (delete_all fuel r false) s (find (length s) r b s)

-- `ReplaceAllLiteralString(s, "")`
unfoldable pub replace_all : Regex → Bytes → Bytes
unfolding delete_all
replace_all r s = delete_all (length s + 1) r true s

-- The forms that the patterns of the shorteners are made of.
abbrev pub byte : ℕ → Regex
byte c = unit (one (λ d. d == c))

abbrev pub literal : Bytes → Regex
literal [] = empty
literal (c ∷ s) = seq (byte c) (literal s)

-- `w|v|...`
abbrev pub words : Bytes → List Bytes → Regex
words w [] = literal w
words w (v ∷ ws) = alt (literal w) (words v ws)

-- `r?`
abbrev pub maybe : Regex → Regex
maybe r = alt r empty

-- `x+`
abbrev pub some_of : Step → Regex
some_of x = seq (unit x) (many x)

-- `r|q|...`
abbrev pub any_of : Regex → List Regex → Regex
any_of r [] = r
any_of r (q ∷ rs) = alt r (any_of q rs)
