-- ===== src/Regex/First.antt =====
-- The search for the first match, among the places where a rune begins.
use urlhero.Common.{
  ℕ, zero, suc, ◌≤◌, ◌<◌, Bool, false, Option, none, some, [], ◌∷◌, ◌++◌, ◌≡◌, inl, inr, refl, sym,
  ap, ◌∙◌, arith, Bytes, length, take, drop, more_bytes, length-drop, take-append-drop,
  Option-cases, append_assoc,
}
use urlhero.Regex.{Regex, run, done, Found, push, found_here, find}
use urlhero.Regex.Spec.{Matches, run_complete}

-- `Boundary b s b' t`: `t` is what is left of `s` where some runes are gone, at the start of the text where `b'`.
pub data Boundary : Bool → Bytes → Bool → Bytes → Type 0 where
  at_once : {b : Bool} {s : Bytes} → Boundary b s b s
  later :
      {b b' : Bool} {c : ℕ} {s t : Bytes}
      → Boundary false (drop (more_bytes c s) s) b' t
      → Boundary b (c ∷ s) b' t

pub Boundary-length : {b b' : Bool} {s t : Bytes} → Boundary b s b' t → length t ≤ length s
Boundary-length at_once = omega arith
Boundary-length (later {c = c} {s = s} h) =
    let k = Boundary-length h in let l = length-drop (more_bytes c s) s in omega arith

-- `r` matches at the start of `s`.
abbrev pub MatchesAt : Regex → Bool → Bytes → Type 0
MatchesAt r b s = (c : Bool) × (t : Bytes) × Matches r b s c t

-- What a search for `r` in `s` promises: there is no match before the one that it finds.
abbrev pub IsFirst : Regex → Bool → Bytes → Option Found → Type 0
IsFirst r b s none = (b' : Bool) (t : Bytes) → Boundary b s b' t → ¬ MatchesAt r b' t
IsFirst r b s (some f) =
    (s ≡ f.before ++ f.here)
    × ((b' : Bool) × Boundary b s b' f.here × (run r done b' f.here ≡ some f.after))
    × ((b' : Bool) (t : Bytes) → Boundary b s b' t → length f.here < length t → ¬ MatchesAt r b' t)

MatchesAt-run : {r : Regex} {b : Bool} {s : Bytes} → run r done b s ≡ none → ¬ MatchesAt r b s
MatchesAt-run {r = r} e (c, t, m) = let (z, k) = run_complete r done m (t, refl) in ground arith

found_here-IsFirst :
    (r : Regex) (b : Bool) (s t : Bytes) (o : Option Found)
    → run r done b s ≡ some t
    → IsFirst r b s (found_here s (some t) o)
found_here-IsFirst r b s t o e =
    (refl, (b, at_once, e), λ b' u h l. let k = Boundary-length h in absurd (omega arith))

pub rebuild :
    (n : ℕ) (s before here : Bytes) → drop n s ≡ before ++ here → s ≡ (take n s ++ before) ++ here
rebuild n s before here e =
    sym (take-append-drop n s)
    ∙ ap (λ t. take n s ++ t) e
    ∙ sym (append_assoc (take n s) before here)

push-IsFirst :
    (r : Regex) (b : Bool) (c : ℕ) (s : Bytes) (o : Option Found)
    → ¬ MatchesAt r b (c ∷ s)
    → IsFirst r false (drop (more_bytes c s) s) o
    → IsFirst r b (c ∷ s) (push (c ∷ take (more_bytes c s) s) o)
push-IsFirst r b c s none misses h = none_here
  where
    none_here : (b' : Bool) (t : Bytes) → Boundary b (c ∷ s) b' t → ¬ MatchesAt r b' t
    none_here b' t at_once = misses
    none_here b' t (later k) = h b' t k
push-IsFirst r b c s (some f) misses (e, (b', k, m), h) =
    (ap (◌∷◌ c) (rebuild (more_bytes c s) s f.before f.here e), (b', later k, m), none_before)
  where
    none_before :
        (b' : Bool) (t : Bytes)
        → Boundary b (c ∷ s) b' t
        → length f.here < length t
        → ¬ MatchesAt r b' t
    none_before b' t at_once l = misses
    none_before b' t (later k) l = h b' t k l

empty-IsFirst :
    (r : Regex) (b : Bool) (o : Option Bytes)
    → run r done b [] ≡ o
    → IsFirst r b [] (found_here [] o none)
empty-IsFirst r b (some t) e = found_here-IsFirst r b [] t none e
empty-IsFirst r b none e = none_here
  where
    none_here : (b' : Bool) (t : Bytes) → Boundary b [] b' t → ¬ MatchesAt r b' t
    none_here b' t at_once = MatchesAt-run e

-- The search finds the first match, or there is none.
pub find-IsFirst :
    (fuel : ℕ) (r : Regex) (b : Bool) (s : Bytes)
    → length s ≤ fuel
    → IsFirst r b s (find fuel r b s)
unfolding find
find-IsFirst zero r b [] l = empty-IsFirst r b _ refl
find-IsFirst zero r b (c ∷ s) l = absurd (omega arith)
find-IsFirst (suc fuel) r b [] l = empty-IsFirst r b _ refl
find-IsFirst (suc fuel) r b (c ∷ s) l =
    let k = length-drop (more_bytes c s) s in
    let further = find fuel r false (drop (more_bytes c s) s) in
    elim (Option-cases (run r done b (c ∷ s))) [
      | inl e ↦
          rw e
            (push-IsFirst r b c s _ (MatchesAt-run e) (find-IsFirst fuel r false _ (omega arith)))
      | inr (t, e) ↦
          rw e (found_here-IsFirst r b (c ∷ s) t (push (c ∷ take (more_bytes c s) s) further) e)
    ]
