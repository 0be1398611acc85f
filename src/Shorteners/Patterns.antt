-- ===== src/Shorteners/Patterns.antt =====
-- shorteners/*.go: the patterns `^[...]+$` of the sites, which `all_of` tests, as regular expressions.
use urlhero.Common.{
  ℕ, Bool, true, false, Option, none, some, [], ◌∷◌, ◌≡◌, inl, inr, refl, sym, subst, arith, Bytes,
  Bool-cases, length,
}
use urlhero.Regex.{
  Regex, one, begin, end, many, seq, some_of, step, done, Found, is_found, match_string,
}
use urlhero.Regex.Spec.{Matches, at_begin, at_stop, takes, stops, goes_on, both, run_sound}
use urlhero.Regex.First.{Boundary, at_once, MatchesAt, IsFirst, find-IsFirst}
use urlhero.Regex.Places.{Boundary-begin}
use urlhero.Shorteners.Sites.{all_bytes, all_of}

-- `^[...]+$`
abbrev pub whole : (ℕ → Bool) → Regex
whole p = seq begin (seq (some_of (one p)) end)

many-Matches :
    (p : ℕ → Bool) (b : Bool) (s : Bytes)
    → all_bytes p s ≡ true
    → (c : Bool) × Matches (many (one p)) b s c []
unfolding all_bytes step
many-Matches p b [] h = (b, stops)
many-Matches p b (x ∷ s) h = elim (Bool-cases (p x)) [
  | inl e ↦ let (c, m) = many-Matches p false s (rw e at h) in (c, goes_on (rw e refl) m)
  | inr e ↦ absurd (ground arith)
]

all_of-MatchesAt : (p : ℕ → Bool) (s : Bytes) → all_of p s ≡ true → MatchesAt (whole p) true s
unfolding all_of all_bytes step
all_of-MatchesAt p [] h = absurd (ground arith)
all_of-MatchesAt p (x ∷ s) h = elim (Bool-cases (p x)) [
  | inl e ↦
      let (c, m) = many-Matches p false s (rw e at h) in
      (c, [], both at_begin (both (both (takes (rw e refl)) m) at_stop))
  | inr e ↦ absurd (ground arith)
]

pub step-takes :
    (p : ℕ → Bool) (x : ℕ) (s t : Bytes) → step (one p) (x ∷ s) ≡ some t → (p x ≡ true) × (s ≡ t)
unfolding step
step-takes p x s t e = elim (Bool-cases (p x)) [
  | inl k ↦ (k, ground arith)
  | inr k ↦ absurd (ground arith)
]

-- What the repetition takes up to the end is in the class.
Matches-many :
    (p : ℕ → Bool) {b c : Bool} (s : Bytes) → Matches (many (one p)) b s c [] → all_bytes p s ≡ true
unfolding all_bytes step
Matches-many p [] m = refl
Matches-many p (x ∷ s) (goes_on {t = t} e m) =
    let (k, same) = step-takes p x s t e in
    rw k (subst (λ u. all_bytes p u ≡ true) (sym same) (Matches-many p t m))

MatchesAt-all_of : (p : ℕ → Bool) (s : Bytes) → MatchesAt (whole p) true s → all_of p s ≡ true
unfolding all_of all_bytes step
MatchesAt-all_of p [] (_, _, both at_begin (both (both (takes e) m) at_stop)) =
    absurd (ground arith)
MatchesAt-all_of p (x ∷ s) (_, _, both at_begin (both (both (takes {t = t} e) m) at_stop)) =
    let (k, same) = step-takes p x s t e in
    rw k (subst (λ u. all_bytes p u ≡ true) (sym same) (Matches-many p t m))

-- A match of the pattern begins at the start of the text.
starts :
    (p : ℕ → Bool) {b : Bool} {s t : Bytes}
    → Boundary true s b t
    → MatchesAt (whole p) b t
    → MatchesAt (whole p) true s
starts p l (c, u, both at_begin m) =
    let (_, same) = Boundary-begin l in
    subst (MatchesAt (whole p) true) (sym same) (c, u, both at_begin m)

is_found-all_of :
    (p : ℕ → Bool) (s : Bytes) (o : Option Found)
    → IsFirst (whole p) true s o
    → is_found o ≡ all_of p s
is_found-all_of p s none h = elim (Bool-cases (all_of p s)) [
  | inl e ↦ absurd (h true s at_once (all_of-MatchesAt p s e))
  | inr e ↦ sym e
]
is_found-all_of p s (some f) (_, (b, l, e), _) =
    let (c, t, m, _) = run_sound (whole p) done b f.here f.after e in
    sym (MatchesAt-all_of p s (starts p l (c, t, m)))

-- `MatchString` of a pattern `^[...]+$` tells whether a text has a character, and all of them in the
-- class.
match_string-whole : (p : ℕ → Bool) (s : Bytes) → match_string (whole p) s ≡ all_of p s
unfolding match_string
match_string-whole p s =
    is_found-all_of p s _ (find-IsFirst (length s) (whole p) true s (omega arith))
