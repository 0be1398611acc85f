-- ===== src/Regex/Delete.antt =====
-- The text with the matches left out, for a pattern that matches up to the end of the text.
use urlhero.Common.{
  ℕ, zero, suc, ◌<◌, Bool, true, false, Option, none, some, [], ◌∷◌, ◌++◌, ◌≡◌, ◌⊎◌, inl, inr, refl,
  sym, ap, ◌==◌, ◌∙◌, subst, arith, Bytes, length, take, more_bytes, length-append, Option-cases,
  append-nil, take-length-append,
}
use urlhero.Regex.{Regex, run, done, Found, find, delete_here, delete_all, replace_all}
use urlhero.Regex.First.{Boundary, at_once, later, MatchesAt, IsFirst, find-IsFirst, rebuild}
use urlhero.Regex.Spec.{run_sound}
use native.Mathlib.Numerals.{add-one}

delete_all-nil : (fuel : ℕ) (r : Regex) (b : Bool) → delete_all fuel r b [] ≡ []
unfolding delete_all find delete_here
delete_all-nil zero r b = refl
delete_all-nil (suc fuel) r b = elim (Option-cases (run r done b [])) [
  | inl e ↦ rw e refl
  | inr (t, e) ↦ rw e refl
]

delete_here-nil :
    (delete : Bytes → Bytes) (s : Bytes) → delete [] ≡ [] → delete_here delete s [] ≡ []
unfolding delete_here
delete_here-nil delete [] e = refl
delete_here-nil delete (c ∷ s) e = rw (not_zero (length s)) e
  where
    not_zero : (n : ℕ) → (0 == suc n) ≡ false
    not_zero n = ground arith

-- A match up to the end of the text is the last one.
pub replace_all-found :
    (r : Regex) (s : Bytes) (f : Found)
    → find (length s) r true s ≡ some f
    → f.after ≡ []
    → replace_all r s ≡ f.before
unfolding replace_all delete_all
replace_all-found r s f e h = rw add-one (
    rw e (
      rw h (
        ap (λ t. f.before ++ t)
          (delete_here-nil (delete_all (length s) r false) f.here
            (delete_all-nil (length s) r false))
        ∙ append-nil f.before)))

-- What is left of a text where only `before` is gone.
pub Boundary-suffix : {b b' : Bool} {s t : Bytes} → Boundary b s b' t → (u : Bytes) × (s ≡ u ++ t)
Boundary-suffix at_once = ([], refl)
Boundary-suffix (later {c = c} {s = s} h) =
    let (u, e) = Boundary-suffix h in
    (c ∷ (take (more_bytes c s) s ++ u), ap (◌∷◌ c) (rebuild (more_bytes c s) s u _ e))

before_same :
    (before u here rest : Bytes)
    → length here ≡ length rest
    → before ++ here ≡ u ++ rest
    → before ≡ u
before_same before u here rest l e =
    let n : length before ≡ length u =
      omega (arith, length-append before here, length-append u rest, ap length e) in
    sym (take-length-append before here)
    ∙ ap (take (length before)) e
    ∙ ap (λ k. take k (u ++ rest)) n
    ∙ take-length-append u rest

order : (m n : ℕ) → (m < n) ⊎ ((n < m) ⊎ (m ≡ n))
order m n = ground arith

module _ (r : Regex) {b : Bool} {rest : Bytes} (u : Bytes) (h : Boundary true (u ++ rest) b rest)
    (m : MatchesAt r b rest)
    (misses : (b' : Bool) (t : Bytes)
      → Boundary true (u ++ rest) b' t
      → length rest < length t
      → ¬ MatchesAt r b' t) where
  first_at :
      (o : Option Found)
      → IsFirst r true (u ++ rest) o
      → (f : Found) × (o ≡ some f) × (f.before ≡ u)
  first_at none k = absurd (k b rest h m)
  first_at (some f) (e, (b', l, k), before) = elim (order (length f.here) (length rest)) [
    | inl n ↦ absurd (before b rest h n m)
    | inr (inl n) ↦
        let (c, t, found, _) = run_sound r done b' f.here f.after k in
        absurd (misses b' f.here l n (c, t, found))
    | inr (inr n) ↦ (f, refl, before_same f.before u f.here rest n (sym e))
  ]

  -- Where there is a match at `rest` and no match before that, the first match is the one at `rest`.
  pub find_at :
      (f : Found) × (find (length (u ++ rest)) r true (u ++ rest) ≡ some f) × (f.before ≡ u)
  find_at = first_at _ (find-IsFirst (length (u ++ rest)) r true (u ++ rest) (omega arith))

-- Where each match goes up to the end of the text.
abbrev pub MatchesToEnd : Regex → Bytes → Type 0
MatchesToEnd r s = (b : Bool) (t z : Bytes) → Boundary true s b t → run r done b t ≡ some z → z ≡ []

-- What is left of a text: all of it, where nothing matches, or else what is before the first match.
abbrev pub IsCut : Regex → Bytes → Bytes → Type 0
IsCut r s u =
    ((u ≡ s) × ((b : Bool) (t : Bytes) → Boundary true s b t → ¬ MatchesAt r b t))
    ⊎ ((rest : Bytes) × (s ≡ u ++ rest)
        × ((b : Bool) (t : Bytes)
            → Boundary true s b t
            → length rest < length t
            → ¬ MatchesAt r b t))

replace_all-none : (r : Regex) (s : Bytes) → find (length s) r true s ≡ none → replace_all r s ≡ s
unfolding replace_all delete_all
replace_all-none r s e = rw add-one (rw e refl)

delete_found-IsCut :
    (r : Regex) (s : Bytes) (o : Option Found)
    → find (length s) r true s ≡ o
    → MatchesToEnd r s
    → IsFirst r true s o
    → IsCut r s (replace_all r s)
delete_found-IsCut r s none e h k = inl (replace_all-none r s e, k)
delete_found-IsCut r s (some f) e h (split, (b, l, m), misses) =
    rw (replace_all-found r s f e (h b f.here f.after l m)) (inr (f.here, split, misses))

pub replace_all-IsCut : (r : Regex) (s : Bytes) → MatchesToEnd r s → IsCut r s (replace_all r s)
replace_all-IsCut r s h =
    delete_found-IsCut r s _ refl h (find-IsFirst (length s) r true s (omega arith))

-- The text is cut at `rest` where there is a match, and none before that.
pub replace_all_at :
    (r : Regex) {b : Bool} {rest : Bytes} (u : Bytes)
    → MatchesToEnd r (u ++ rest)
    → Boundary true (u ++ rest) b rest
    → MatchesAt r b rest
    → ((b' : Bool) (t : Bytes)
        → Boundary true (u ++ rest) b' t
        → length rest < length t
        → ¬ MatchesAt r b' t)
    → replace_all r (u ++ rest) ≡ u
replace_all_at r {rest = rest} u ends h m misses =
    let (f, e, same) = find_at r u h m misses in
    let first =
      subst (IsFirst r true (u ++ rest)) e
        (find-IsFirst (length (u ++ rest)) r true (u ++ rest) (omega arith)) in
    let (_, (c, l, k), _) = first in
    replace_all-found r (u ++ rest) f e (ends c f.here f.after l k) ∙ same
