-- ===== src/Regex/Spec.antt =====
-- What a regular expression matches, apart from the order of the search: the search finds a match
-- where there is one.
use urlhero.Common.{
  ℕ, zero, suc, ◌≤◌, ◌<◌, ◌==◌, Bool, true, false, Option, none, some, [], ◌∷◌, ◌≡◌, ◌⊎◌, inl, inr,
  refl, arith, Bytes, length, drop, more_bytes, Bool-cases, length-drop,
}
use urlhero.Regex.{
  Step, one, dot, Regex, empty, begin, end, unit, many, seq, alt, step, Next, or_else, and_then,
  repeat, run,
}

-- `Matches r b s c t`: from `s`, which is the start of the text where `b`, `r` can take what is before `t`.
pub data Matches : Regex → Bool → Bytes → Bool → Bytes → Type 0 where
  nothing : {b : Bool} {s : Bytes} → Matches empty b s b s
  at_begin : {s : Bytes} → Matches begin true s true s
  at_stop : {b : Bool} → Matches end b [] b []
  takes : {x : Step} {b : Bool} {s t : Bytes} → step x s ≡ some t → Matches (unit x) b s false t
  stops : {x : Step} {b : Bool} {s : Bytes} → Matches (many x) b s b s
  goes_on :
      {x : Step} {b c : Bool} {s t u : Bytes}
      → step x s ≡ some t
      → Matches (many x) false t c u
      → Matches (many x) b s c u
  both :
      {q r : Regex} {b c d : Bool} {s t u : Bytes}
      → Matches q b s c t
      → Matches r c t d u
      → Matches (seq q r) b s d u
  left : {q r : Regex} {b c : Bool} {s t : Bytes} → Matches q b s c t → Matches (alt q r) b s c t
  right : {q r : Regex} {b c : Bool} {s t : Bytes} → Matches r b s c t → Matches (alt q r) b s c t

-- What goes on with `next` after a match of `r`, with the result `z`.
abbrev pub Leads : Regex → Next → Bool → Bytes → Bytes → Type 0
Leads r next b s z = (c : Bool) × (t : Bytes) × Matches r b s c t × (next c t ≡ some z)

pub or_else-some :
    (o rest : Option Bytes) (z : Bytes) → or_else o rest ≡ some z → (o ≡ some z) ⊎ (rest ≡ some z)
or_else-some none rest z e = inr e
or_else-some (some t) rest z e = inl e

and_then-some :
    (o : Option Bytes) (rest : Bytes → Option Bytes) (z : Bytes)
    → and_then o rest ≡ some z
    → (t : Bytes) × (o ≡ some t) × (rest t ≡ some z)
and_then-some none rest z e = ground arith
and_then-some (some t) rest z e = (t, refl, e)

drop_shorter : (n : ℕ) (s : Bytes) → length (drop n s) ≤ length s
drop_shorter n s = omega (arith, length-drop n s)

-- A step takes a byte at least.
pub length-step : (x : Step) (s t : Bytes) → step x s ≡ some t → length t < length s
unfolding step
length-step (one p) [] t e = ground arith
length-step dot [] t e = ground arith
length-step (one p) (c ∷ s) t e = elim (Bool-cases (p c)) [
  | inl h ↦ grind arith
  | inr h ↦ grind arith
]
length-step dot (c ∷ s) t e = elim (Bool-cases (c == b'\n')) [
  | inl h ↦ grind arith
  | inr h ↦ let k = drop_shorter (more_bytes c s) s in grind arith
]

repeat_sound :
    (fuel : ℕ) (x : Step) (next : Next) (b : Bool) (s z : Bytes)
    → repeat fuel x next b s ≡ some z
    → Leads (many x) next b s z
unfolding repeat
repeat_sound zero x next b s z e = (b, s, stops, e)
repeat_sound (suc fuel) x next b s z e = elim (or_else-some _ (next b s) z e) [
  | inl k ↦
      let (t, h, l) = and_then-some (step x s) (repeat fuel x next false) z k in
      let (c, u, m, n) = repeat_sound fuel x next false t z l in (c, u, goes_on h m, n)
  | inr k ↦ (b, s, stops, k)
]

pub run_sound :
    (r : Regex) (next : Next) (b : Bool) (s z : Bytes)
    → run r next b s ≡ some z
    → Leads r next b s z
unfolding run
run_sound empty next b s z e = (b, s, nothing, e)
run_sound begin next true s z e = (true, s, at_begin, e)
run_sound begin next false s z e = ground arith
run_sound end next b [] z e = (b, [], at_stop, e)
run_sound end next b (c ∷ s) z e = ground arith
run_sound (unit x) next b s z e =
    let (t, h, l) = and_then-some (step x s) (next false) z e in (false, t, takes h, l)
run_sound (many x) next b s z e = repeat_sound (length s) x next b s z e
run_sound (seq q r) next b s z e =
    let (c, t, m, h) = run_sound q (run r next) b s z e in
    let (d, u, n, k) = run_sound r next c t z h in (d, u, both m n, k)
run_sound (alt q r) next b s z e = elim (or_else-some (run q next b s) (run r next b s) z e) [
  | inl k ↦ let (c, t, m, h) = run_sound q next b s z k in (c, t, left m, h)
  | inr k ↦ let (c, t, m, h) = run_sound r next b s z k in (c, t, right m, h)
]

abbrev pub Succeeds : Option Bytes → Type 0
Succeeds o = (z : Bytes) × (o ≡ some z)

or_else-right : (o rest : Option Bytes) → Succeeds rest → Succeeds (or_else o rest)
or_else-right none rest h = h
or_else-right (some t) rest h = (t, refl)

or_else-left : (o rest : Option Bytes) → Succeeds o → Succeeds (or_else o rest)
or_else-left o rest h = rw (h.1) (h.0, refl)

and_then-step :
    {o : Option Bytes} {t : Bytes} (rest : Bytes → Option Bytes)
    → o ≡ some t
    → Succeeds (rest t)
    → Succeeds (and_then o rest)
and_then-step rest e h = rw e h

repeat_complete :
    (fuel : ℕ) (x : Step) (next : Next) {b c : Bool} {s t : Bytes}
    → length s ≤ fuel
    → Matches (many x) b s c t
    → Succeeds (next c t)
    → Succeeds (repeat fuel x next b s)
unfolding repeat
repeat_complete zero x next l stops k = k
repeat_complete (suc fuel) x next l stops k = or_else-right _ _ k
repeat_complete zero x next {s = s} l (goes_on {t = t} e m) k =
    let h = length-step x s t e in absurd (omega arith)
repeat_complete (suc fuel) x next {s = s} l (goes_on {t = t} e m) k =
    let h = length-step x s t e in
    or_else-left _ _
      (and_then-step (repeat fuel x next false) e (repeat_complete fuel x next (omega arith) m k))

pub run_complete :
    (r : Regex) (next : Next) {b c : Bool} {s t : Bytes}
    → Matches r b s c t
    → Succeeds (next c t)
    → Succeeds (run r next b s)
unfolding run
run_complete _ next nothing k = k
run_complete _ next at_begin k = k
run_complete _ next at_stop k = k
run_complete _ next (takes e) k = and_then-step (next false) e k
run_complete (many x) next {s = s} stops k = repeat_complete (length s) x next (omega arith) stops k
run_complete (many x) next {s = s} (goes_on e m) k =
    repeat_complete (length s) x next (omega arith) (goes_on e m) k
run_complete (seq q r) next (both {c = c} {t = t} m n) k =
    run_complete q (run r next) m (run_complete r next n k)
run_complete (alt q r) next (left m) k = or_else-left _ _ (run_complete q next m k)
run_complete (alt q r) next (right m) k = or_else-right _ _ (run_complete r next m k)
