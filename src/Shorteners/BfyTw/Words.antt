-- ===== src/Shorteners/BfyTw/Words.antt =====
-- shorteners/bfy-tw.go: the texts that parts of the expression match.
use urlhero.Common.{
  ℕ, ◌<◌, ◌==◌, ==_iff, Bool, true, false, ◌||◌, ◌&&◌, some, [], ◌∷◌, ◌++◌, ◌≡◌, ◌⊎◌, inl, inr,
  refl, sym, ap, ◌∙◌, subst, arith, Bytes, Bool-cases, contains_byte, length, length-append, codes,
  has_prefix, more_bytes-ascii_first, false-true,
}
use urlhero.Regex.{one, dot, end, many, seq, maybe, byte, step}
use urlhero.Regex.Spec.{Matches, nothing, at_stop, takes, stops, goes_on, both, left, right}
use urlhero.Regex.Words.{byte-takes, cons_same}
use urlhero.Shorteners.Patterns.{step-takes}
use urlhero.Regex.Breaks.{Lacks}
use urlhero.Shorteners.Sites.{all_bytes, is_alnum, is_digit}

pub and_parts : (a b : Bool) → (a && b) ≡ true → (a ≡ true) × (b ≡ true)
and_parts a b h = ground arith

module _ (p : ℕ → Bool) where
  -- A text of a class ends at the first character beyond it.
  pub class_end :
      (u v : Bytes) (c d : ℕ) (s t : Bytes)
      → all_bytes p u ≡ true
      → all_bytes p v ≡ true
      → p c ≡ false
      → p d ≡ false
      → u ++ c ∷ s ≡ v ++ d ∷ t
      → c ≡ d
  unfolding all_bytes
  class_end [] [] c d s t h k m n e = (cons_same e).0
  class_end [] (y ∷ v) c d s t h k m n e =
      let same = subst (λ z. p z ≡ false) (cons_same e).0 m in ground arith
  class_end (x ∷ u) [] c d s t h k m n e =
      let same = subst (λ z. p z ≡ true) (cons_same e).0 ((and_parts (p x) (all_bytes p u) h).0) in
      ground arith
  class_end (x ∷ u) (y ∷ v) c d s t h k m n e =
      class_end u v c d s t (and_parts (p x) (all_bytes p u) h).1
        (and_parts (p y) (all_bytes p v) k).1 m n (cons_same e).1

  -- What is left of a text of the class and the rest, where less than the text is gone.
  pub inside :
      (code u r t : Bytes)
      → all_bytes p code ≡ true
      → code ++ r ≡ u ++ t
      → length r < length t
      → (x : ℕ) × (w : Bytes) × (all_bytes p (x ∷ w) ≡ true) × (t ≡ x ∷ (w ++ r))
  unfolding all_bytes
  inside [] [] r t h e l = let k = ap length e in absurd (omega arith)
  inside (x ∷ w) [] r t h e l = (x, w, h, sym e)
  inside [] (y ∷ u) r t h e l = let k = ap length e in absurd (omega (arith, length-append u t))
  inside (x ∷ code) (y ∷ u) r t h e l =
      inside code u r t (and_parts (p x) (all_bytes p code) h).1 (cons_same e).1 l

-- After the group there is at most an equals sign.
pub data Rest : Bytes → Type 0 where
  bare : Rest []
  equals : Rest (b'=' ∷ [])

pub Rest-Lacks : {s : Bytes} → Rest s → Lacks s b'/'
unfolding contains_byte
Rest-Lacks bare = refl
Rest-Lacks equals = refl

pub has_prefix-append : (u v : Bytes) → has_prefix (u ++ v) u ≡ true
unfolding has_prefix
has_prefix-append [] v = refl
has_prefix-append (x ∷ u) v = rw ((==_iff x x).1 refl) (has_prefix-append u v)

-- `.` takes an ASCII character
pub dot_takes : (c : ℕ) (s t : Bytes) → c < 0x80 → step dot (c ∷ s) ≡ some t → s ≡ t
unfolding step
dot_takes c s t h e = elim (Bool-cases (c == b'\n')) [
  | inl k ↦ ground arith
  | inr k ↦ let next = rw (k, more_bytes-ascii_first c h s) at e in ground arith
]

pub all_word :
    {v : Bytes} → (v ≡ codes "favicon") ⊎ (v ≡ codes "robots") → all_bytes is_alnum v ≡ true
unfolding all_bytes
all_word (inl e) = rw e refl
all_word (inr e) = rw e refl

pub lacks_word : {v : Bytes} → (v ≡ codes "ico") ⊎ (v ≡ codes "txt") → Lacks v b'/'
unfolding contains_byte
lacks_word (inl e) = rw e refl
lacks_word (inr e) = rw e refl

pub alnum-Lacks : (s : Bytes) → all_bytes is_alnum s ≡ true → Lacks s b'\n'
unfolding all_bytes contains_byte
alnum-Lacks [] h = refl
alnum-Lacks (x ∷ s) h = elim (Bool-cases (x == b'\n')) [
  | inl e ↦
      let l =
        subst (λ c. is_alnum c ≡ true) ((==_iff x b'\n').0 e)
          (and_parts (is_alnum x) (all_bytes is_alnum s) h).0 in
      absurd (false-true l)
  | inr e ↦ rw e (alnum-Lacks s (and_parts (is_alnum x) (all_bytes is_alnum s) h).1)
]

pub Rest-match : {b d : Bool} {s t : Bytes} → Matches (seq (maybe (byte b'=')) end) b s d t → Rest s
Rest-match (both (right nothing) at_stop) = bare
Rest-match {s = s} (both (left (takes e)) at_stop) =
    subst Rest (sym (byte-takes b'=' s [] e)) equals

-- A class takes one character.
pub taken :
    (p : ℕ → Bool) (s t : Bytes) → step (one p) s ≡ some t → (c : ℕ) × (p c ≡ true) × (s ≡ c ∷ t)
unfolding step
taken p [] t e = ground arith
taken p (c ∷ s) t e = let (h, same) = step-takes p c s t e in (c, h, ap (◌∷◌ c) same)

pub digit_alnum : (c : ℕ) → is_digit c ≡ true → is_alnum c ≡ true
digit_alnum c h = rw h refl

-- `\d+`
pub digits-all :
    {b d : Bool} {s t : Bytes}
    → Matches (many (one is_digit)) b s d t
    → (u : Bytes) × (all_bytes is_alnum u ≡ true) × (s ≡ u ++ t)
unfolding all_bytes step
digits-all stops = ([], refl, refl)
digits-all {s = s} (goes_on {t = v} e m) =
    let (u, h, k) = digits-all m in
    let (c, l, n) = taken is_digit s v e in (c ∷ u, rw (digit_alnum c l) h, n ∙ ap (◌∷◌ c) k)

pub not_alnum : (c : ℕ) → (c == b'/' || c == b'.') ≡ true → is_alnum c ≡ false
not_alnum c h = elim (Bool-cases (c == b'/')) [
  | inl e ↦ subst (λ d. is_alnum d ≡ false) (sym ((==_iff c b'/').0 e)) refl
  | inr e ↦ subst (λ d. is_alnum d ≡ false) (sym ((==_iff c b'.').0 (rw e at h))) refl
]
