-- ===== src/Regex/Breaks.antt =====
-- A text without line breaks, where `.*` takes what is left.
use urlhero.Common.{
  ℕ, zero, suc, ◌≤◌, ◌<◌, ◌||◌, Bool, true, false, [], ◌∷◌, ◌++◌, ◌≡◌, inl, inr, refl, sym, ap, ◌∙◌,
  subst, arith, Bytes, length, drop, more_bytes, length-drop, length-append, Bool-cases,
  contains_byte, ◌==◌, ==_iff, append_assoc,
}
use urlhero.Regex.{Regex, dot, many, step}
use urlhero.Regex.First.{Boundary, MatchesAt}
use urlhero.Regex.Places.{Boundary-ascii}
use urlhero.Regex.Delete.{IsCut}
use urlhero.Regex.Spec.{Matches, stops, goes_on}

-- The text has no such byte.
abbrev pub Lacks : Bytes → ℕ → Type 0
Lacks s c = contains_byte s c ≡ false

pub Lacks-append : (u v : Bytes) (c : ℕ) → Lacks (u ++ v) c → Lacks u c × Lacks v c
unfolding contains_byte
Lacks-append [] v c h = (refl, h)
Lacks-append (x ∷ u) v c h = ground (arith, Lacks-append u v c)

pub Lacks-drop : (n : ℕ) (s : Bytes) (c : ℕ) → Lacks s c → Lacks (drop n s) c
unfolding contains_byte
Lacks-drop zero s c h = h
Lacks-drop (suc n) [] c h = h
Lacks-drop (suc n) (x ∷ s) c h = ground (arith, Lacks-drop n s c)

-- A byte that the text has stands somewhere in it.
pub split_at_byte :
    (s : Bytes) (c : ℕ) → contains_byte s c ≡ true → (u : Bytes) × (v : Bytes) × (s ≡ u ++ c ∷ v)
unfolding contains_byte
split_at_byte [] c h = ground arith
split_at_byte (x ∷ s) c h = elim (Bool-cases (x == c)) [
  | inl e ↦ ([], s, ap (λ y. y ∷ s) ((==_iff x c).0 e))
  | inr e ↦ let (u, v, k) = split_at_byte s c (ground arith) in (x ∷ u, v, ap (◌∷◌ x) k)
]

pub Lacks-tail : (v : Bytes) (c : ℕ) (w : Bytes) (d : ℕ) → Lacks (v ++ c ∷ w) d → Lacks w d
unfolding contains_byte
Lacks-tail v c w d h = (Lacks-append (c ∷ []) w d (Lacks-append v (c ∷ w) d h).1).1

-- What matches at each such byte leaves none.
pub IsCut-Lacks :
    (r : Regex) (s u : Bytes) (c : ℕ)
    → c < 0x80
    → IsCut r s u
    → ((b : Bool) (v w : Bytes) → s ≡ v ++ c ∷ w → MatchesAt r b (c ∷ w))
    → Lacks u c
IsCut-Lacks r s u c a cut everywhere = elim (Bool-cases (contains_byte u c)) [
  | inr e ↦ e
  | inl e ↦
      let (v, w, split) = split_at_byte u c e in
      elim cut [
        | inl (same, misses) ↦
            let whole = sym same ∙ split in
            let (b, l) = Boundary-ascii true c v w a in
            absurd (
              misses b (c ∷ w) (subst (λ t. Boundary true t b (c ∷ w)) (sym whole) l)
                (everywhere b v w whole))
        | inr (rest, same, misses) ↦
            let whole = same ∙ ap (λ t. t ++ rest) split ∙ append_assoc v (c ∷ w) rest in
            let (b, l) = Boundary-ascii true c v (w ++ rest) a in
            absurd (
              misses b (c ∷ (w ++ rest))
                (subst (λ t. Boundary true t b (c ∷ (w ++ rest))) (sym whole) l)
                (omega (arith, length-append w rest)) (everywhere b v (w ++ rest) whole))
      ]
]

pub or_false : (a b : Bool) → (a || b) ≡ false → (a ≡ false) × (b ≡ false)
or_false a b h = ground arith

dots_fuel :
    (fuel : ℕ) (b : Bool) (s : Bytes)
    → length s ≤ fuel
    → Lacks s b'\n'
    → (c : Bool) × Matches (many dot) b s c []
unfolding step contains_byte
dots_fuel fuel b [] l h = (b, stops)
dots_fuel zero b (c ∷ s) l h = absurd (omega arith)
dots_fuel (suc fuel) b (c ∷ s) l h =
    let (differs, rest) = or_false (c == b'\n') (contains_byte s b'\n') h in
    let k = length-drop (more_bytes c s) s in
    let (d, m) =
      dots_fuel fuel false (drop (more_bytes c s) s) (omega arith)
        (Lacks-drop (more_bytes c s) s b'\n' rest) in
    (d, goes_on (rw differs refl) m)

-- `.*` matches all that is left of the line
pub dots : (b : Bool) (s : Bytes) → Lacks s b'\n' → (c : Bool) × Matches (many dot) b s c []
dots b s h = dots_fuel (length s) b s (omega arith) h
