-- ===== src/Regex/Line.antt =====
-- Patterns whose match goes up to the end of a text without line breaks.
use urlhero.Common.{
  ℕ, zero, suc, ◌≤◌, ◌==◌, Bool, false, some, [], ◌∷◌, ◌≡◌, inl, inr, refl, subst, arith, Bytes,
  length, drop, more_bytes, length-drop, Bool-cases, contains_byte,
}
use urlhero.Regex.{Regex, Step, one, dot, end, many, step, Next, or_else, run, repeat, done}
use urlhero.Regex.Spec.{
  Matches, nothing, at_begin, at_stop, takes, stops, goes_on, both, left, right, or_else-some,
  run_sound,
}
use urlhero.Regex.Delete.{MatchesToEnd, Boundary-suffix}
use urlhero.Regex.Breaks.{Lacks, Lacks-drop, Lacks-append, or_false}

Lacks-step : (x : Step) (s t : Bytes) (c : ℕ) → step x s ≡ some t → Lacks s c → Lacks t c
unfolding step contains_byte
Lacks-step (one p) [] t c e h = ground arith
Lacks-step dot [] t c e h = ground arith
Lacks-step (one p) (x ∷ s) t c e h = elim (Bool-cases (p x)) [
  | inl k ↦ ground arith
  | inr k ↦ ground arith
]
Lacks-step dot (x ∷ s) t c e h = elim (Bool-cases (x == b'\n')) [
  | inl k ↦ ground arith
  | inr k ↦
      let l = Lacks-drop (more_bytes x s) s c (or_false (x == c) (contains_byte s c) h).1 in
      ground arith
]

-- A match leaves no byte that was not there before.
Lacks-Matches :
    (r : Regex) {b d : Bool} {s t : Bytes} (c : ℕ) → Matches r b s d t → Lacks s c → Lacks t c
Lacks-Matches r c nothing h = h
Lacks-Matches r c at_begin h = h
Lacks-Matches r c at_stop h = h
Lacks-Matches r {s = s} {t = t} c (takes {x = x} e) h = Lacks-step x s t c e h
Lacks-Matches r c stops h = h
Lacks-Matches r {s = s} c (goes_on {x = x} {t = t} e m) h =
    Lacks-Matches (many x) c m (Lacks-step x s t c e h)
Lacks-Matches r c (both {q = q} {r = r'} m n) h = Lacks-Matches r' c n (Lacks-Matches q c m h)
Lacks-Matches r c (left {q = q} m) h = Lacks-Matches q c m h
Lacks-Matches r c (right {r = r'} m) h = Lacks-Matches r' c m h

-- What goes up to the end of a text without line breaks.
abbrev pub EndsLine : Next → Type 0
EndsLine next = (b : Bool) (s z : Bytes) → Lacks s b'\n' → next b s ≡ some z → z ≡ []

pub EndsLine-end : EndsLine (run end done)
unfolding run
EndsLine-end b [] z h e = ground arith
EndsLine-end b (c ∷ s) z h e = ground arith

pub EndsLine-run : (r : Regex) (next : Next) → EndsLine next → EndsLine (run r next)
EndsLine-run r next h b s z k e =
    let (c, t, m, l) = run_sound r next b s z e in h c t z (Lacks-Matches r b'\n' m k) l

pub EndsLine-or_else :
    (f g : Next) → EndsLine f → EndsLine g → EndsLine (λ b s. or_else (f b s) (g b s))
EndsLine-or_else f g h k b s z l e = elim (or_else-some (f b s) (g b s) z e) [
  | inl m ↦ h b s z l m
  | inr m ↦ k b s z l m
]

repeat-dot :
    (fuel : ℕ) (b : Bool) (s : Bytes)
    → length s ≤ fuel
    → Lacks s b'\n'
    → repeat fuel dot done b s ≡ some []
unfolding repeat step contains_byte
repeat-dot zero b [] l h = refl
repeat-dot (suc fuel) b [] l h = refl
repeat-dot zero b (c ∷ s) l h = absurd (omega arith)
repeat-dot (suc fuel) b (c ∷ s) l h =
    let (differs, rest) = or_false (c == b'\n') (contains_byte s b'\n') h in
    let k = length-drop (more_bytes c s) s in
    let go =
      repeat-dot fuel false (drop (more_bytes c s) s) (omega arith)
        (Lacks-drop (more_bytes c s) s b'\n' rest) in
    rw differs (rw go refl)

-- `.*` takes what is left
pub EndsLine-dots : EndsLine (run (many dot) done)
unfolding run
EndsLine-dots b s z h e = let k = repeat-dot (length s) b s (omega arith) h in ground arith

pub MatchesToEnd-line :
    (r : Regex) (s : Bytes) → EndsLine (run r done) → Lacks s b'\n' → MatchesToEnd r s
MatchesToEnd-line r s h k b t z l e =
    let (u, split) = Boundary-suffix l in
    h b t z (Lacks-append u t b'\n' (subst (λ v. Lacks v b'\n') split k)).1 e
