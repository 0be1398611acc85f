-- ===== src/Regex/Words.antt =====
-- What a list of words matches.
use urlhero.Common.{
  ℕ, ◌==◌, ==_iff, Bool, true, false, ◌||◌, some, List, [], ◌∷◌, ◌++◌, ◌≡◌, inl, inr, refl, sym, ap,
  ap₂, ◌∙◌, subst, arith, Bytes, Bool-cases, str_eq, str_eq_iff, contains_byte,
}
use urlhero.Regex.{one, step, literal, words}
use urlhero.Regex.Spec.{Matches, nothing, takes, both, left, right}
use urlhero.Regex.Breaks.{Lacks, or_false}

-- The text is one of the words.
unfoldable pub is_word : Bytes → Bytes → List Bytes → Bool
unfolding str_eq
is_word v w [] = str_eq v w
is_word v w (x ∷ ws) = str_eq v w || is_word v x ws

pub byte-takes : (c : ℕ) (s t : Bytes) → step (one (λ d. d == c)) s ≡ some t → s ≡ c ∷ t
unfolding step
byte-takes c [] t e = ground arith
byte-takes c (x ∷ s) t e = elim (Bool-cases (x == c)) [
  | inl k ↦ let l = (==_iff x c).0 k in ground arith
  | inr k ↦ ground arith
]

same_byte : (c : ℕ) → (c == c) ≡ true
same_byte c = (==_iff c c).1 refl

pub literal_sound :
    (w : Bytes) {b d : Bool} {s t : Bytes} → Matches (literal w) b s d t → s ≡ w ++ t
literal_sound [] nothing = refl
literal_sound (c ∷ w) {s = s} (both {t = t} (takes e) m) =
    byte-takes c s t e ∙ ap (◌∷◌ c) (literal_sound w m)

pub literal_complete :
    (w : Bytes) (b : Bool) (s : Bytes) → (d : Bool) × Matches (literal w) b (w ++ s) d s
unfolding step
literal_complete [] b s = (b, nothing)
literal_complete (c ∷ w) b s =
    let (d, m) = literal_complete w false s in (d, both (takes (rw (same_byte c) refl)) m)

pub words_sound :
    (w : Bytes) (ws : List Bytes) {b d : Bool} {s t : Bytes}
    → Matches (words w ws) b s d t
    → (v : Bytes) × (is_word v w ws ≡ true) × (s ≡ v ++ t)
unfolding is_word
words_sound w [] m = (w, (str_eq_iff w w).1 refl, literal_sound w m)
words_sound w (x ∷ ws) (left m) = (w, rw ((str_eq_iff w w).1 refl) refl, literal_sound w m)
words_sound w (x ∷ ws) (right m) =
    let (v, k, e) = words_sound x ws m in (v, or_right (str_eq v w) k, e)
  where
    or_right : (a : Bool) {b : Bool} → b ≡ true → (a || b) ≡ true
    or_right a h = ground arith

literal_same :
    (v w : Bytes) (b : Bool) (s : Bytes)
    → str_eq v w ≡ true
    → (d : Bool) × Matches (literal w) b (v ++ s) d s
literal_same v w b s h =
    subst (λ x. (d : Bool) × Matches (literal w) b (x ++ s) d s) (sym ((str_eq_iff v w).0 h))
      (literal_complete w b s)

pub words_complete :
    (v w : Bytes) (ws : List Bytes) (b : Bool) (s : Bytes)
    → is_word v w ws ≡ true
    → (d : Bool) × Matches (words w ws) b (v ++ s) d s
unfolding is_word
words_complete v w [] b s h = literal_same v w b s h
words_complete v w (x ∷ ws) b s h = elim (Bool-cases (str_eq v w)) [
  | inl e ↦ let (d, m) = literal_same v w b s e in (d, left m)
  | inr e ↦ let (d, m) = words_complete v x ws b s (ground arith) in (d, right m)
]

pub cons_same : {x y : ℕ} {s t : Bytes} → x ∷ s ≡ y ∷ t → (x ≡ y) × (s ≡ t)
cons_same e = ground arith

head_not : (x c : ℕ) (s : Bytes) → x ≡ c → Lacks (x ∷ s) c → ⊥
unfolding contains_byte
head_not x c s e h = let k = (==_iff x c).1 e in ground arith

-- A text is cut at the first such byte in one way.
pub split_unique :
    (u v : Bytes) (c : ℕ) (s t : Bytes) → Lacks u c → Lacks v c → u ++ c ∷ s ≡ v ++ c ∷ t → u ≡ v
unfolding contains_byte
split_unique [] [] c s t h k e = refl
split_unique [] (y ∷ v) c s t h k e = absurd (head_not y c v (sym (cons_same e).0) k)
split_unique (x ∷ u) [] c s t h k e = absurd (head_not x c u (cons_same e).0 h)
split_unique (x ∷ u) (y ∷ v) c s t h k e =
    let (same, rest) = cons_same e in
    let l =
      split_unique u v c s t (or_false (x == c) (contains_byte u c) h).1
        (or_false (y == c) (contains_byte v c) k).1 rest in
    ap₂ ◌∷◌ same l

-- No word has such a byte.
unfoldable pub all_lack : Bytes → List Bytes → ℕ → Bool
unfolding contains_byte
all_lack w [] c = contains_byte w c
all_lack w (x ∷ ws) c = contains_byte w c || all_lack x ws c

pub word-Lacks :
    (v w : Bytes) (ws : List Bytes) (c : ℕ)
    → is_word v w ws ≡ true
    → all_lack w ws c ≡ false
    → Lacks v c
unfolding is_word all_lack
word-Lacks v w [] c h k = subst (λ x. Lacks x c) (sym ((str_eq_iff v w).0 h)) k
word-Lacks v w (x ∷ ws) c h k = elim (Bool-cases (str_eq v w)) [
  | inl e ↦
      subst (λ y. Lacks y c) (sym ((str_eq_iff v w).0 e))
        (or_false (contains_byte w c) (all_lack x ws c) k).0
  | inr e ↦ word-Lacks v x ws c (ground arith) (or_false (contains_byte w c) (all_lack x ws c) k).1
]
