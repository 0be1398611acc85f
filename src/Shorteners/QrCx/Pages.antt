-- ===== src/Shorteners/QrCx/Pages.antt =====
-- shorteners/qr-cx.go: the path of a page is no shortcode and is cut off after one.
use urlhero.Common.{
  ℕ, suc, ◌≤◌, ◌<◌, ◌==◌, ==_iff, Bool, true, false, [], ◌∷◌, ◌++◌, ◌≡◌, ◌≢◌, ◌⊎◌, inl, inr, refl,
  sym, ap, ◌∙◌, subst, arith, Bytes, Bool-cases, contains_byte, length, length-append, append-nil,
  codes, str_eq, str_eq_iff, trim_suffix,
}
use urlhero.Regex.{begin, end, dot, run, done, seq, alt, many, byte, step, replace_all}
use urlhero.Regex.Spec.{Matches, at_begin, at_stop, takes, both, left, right}
use urlhero.Regex.First.{Boundary, at_once, MatchesAt, Boundary-length}
use urlhero.Regex.Places.{Boundary-begin, Boundary-ascii}
use urlhero.Regex.Delete.{Boundary-suffix, replace_all_at}
use urlhero.Regex.Breaks.{Lacks, dots, or_false}
use urlhero.Regex.Line.{
  EndsLine, EndsLine-end, EndsLine-run, EndsLine-dots, EndsLine-or_else, MatchesToEnd-line,
}
use urlhero.Regex.Words.{
  is_word, words_sound, words_complete, byte-takes, split_unique, cons_same, all_lack, word-Lacks,
}
use urlhero.Shorteners.{Url}
use urlhero.Shorteners.QrCx.{pages, page, files, clean_qr_cx, clean_qr_cx_by}
use urlhero.Shorteners.Target.{on_fuel}

abbrev pub is_page : Bytes → Bool
is_page v = is_word v (codes "admin") pages

-- what may follow the name of a page
pub data IsTail : Bytes → Type 0 where
  bare : IsTail []
  deeper : {s : Bytes} → Lacks s b'\n' → IsTail (b'/' ∷ s)

-- Any match goes up to the end.
files-EndsLine : EndsLine (run files done)
unfolding run
files-EndsLine =
    let deep = EndsLine-run (byte b'/') (run (many dot) done) EndsLine-dots in
    let tail =
      EndsLine-or_else (run end done) (run (seq (byte b'/') (many dot)) done) EndsLine-end deep in
    EndsLine-run (alt begin (byte b'/')) _
      (EndsLine-run page (run (alt end (seq (byte b'/') (many dot))) done) tail)

page-Lacks : (v : Bytes) → is_page v ≡ true → Lacks v b'/'
unfolding all_lack contains_byte
page-Lacks v h = word-Lacks v (codes "admin") pages b'/' h refl

IsTail-Matches :
    (b : Bool) (t : Bytes)
    → IsTail t
    → (d : Bool) × Matches (alt end (seq (byte b'/') (many dot))) b t d []
unfolding step
IsTail-Matches b t bare = (b, left at_stop)
IsTail-Matches b t (deeper {s = s} h) =
    let (d, m) = dots false s h in (d, right (both (takes refl) m))

-- `files` matches at a slash that a page follows.
files-MatchesAt :
    (b : Bool) (v t : Bytes) → is_page v ≡ true → IsTail t → MatchesAt files b (b'/' ∷ (v ++ t))
unfolding step
files-MatchesAt b v t h k =
    let (c, m) = words_complete v (codes "admin") pages false t h in
    let (d, n) = IsTail-Matches c t k in (d, [], both (right (takes refl)) (both m n))

files-MatchesAt_begin : (v t : Bytes) → is_page v ≡ true → IsTail t → MatchesAt files true (v ++ t)
files-MatchesAt_begin v t h k =
    let (c, m) = words_complete v (codes "admin") pages true t h in
    let (d, n) = IsTail-Matches c t k in (d, [], both (left at_begin) (both m n))

-- A match at the start of a text begins with a page that ends at the end or at a slash.
page_first :
    (s : Bytes) {d : Bool} {t : Bytes}
    → Matches (seq page (alt end (seq (byte b'/') (many dot)))) true s d t
    → (v : Bytes) × (is_page v ≡ true) × ((s ≡ v) ⊎ ((w : Bytes) × (s ≡ v ++ b'/' ∷ w)))
page_first s (both m n) = let (v, k, e) = words_sound (codes "admin") pages m in (v, k, tail v e n)
  where
    tail :
        (v : Bytes) {c d : Bool} {t t' : Bytes}
        → s ≡ v ++ t
        → Matches (alt end (seq (byte b'/') (many dot))) c t d t'
        → (s ≡ v) ⊎ ((w : Bytes) × (s ≡ v ++ b'/' ∷ w))
    tail v e (left at_stop) = inl (e ∙ append-nil v)
    tail v {t = t} e (right (both {t = w} (takes k) _)) =
        inr (w, e ∙ ap (λ x. v ++ x) (byte-takes b'/' t w k))

pub contains-append : (u : Bytes) (c : ℕ) (s : Bytes) → contains_byte (u ++ c ∷ s) c ≡ true
unfolding contains_byte
contains-append [] c s = rw ((==_iff c c).1 refl) refl
contains-append (x ∷ u) c s = ground (arith, contains-append u c s)

-- The first such byte comes no later than another one.
first_byte :
    (u v : Bytes) (c : ℕ) (s t : Bytes) → Lacks u c → u ++ c ∷ s ≡ v ++ c ∷ t → length u ≤ length v
unfolding contains_byte
first_byte [] v c s t h e = omega arith
first_byte (x ∷ u) [] c s t h e = let k = (==_iff x c).1 ((cons_same e).0) in ground arith
first_byte (x ∷ u) (y ∷ v) c s t h e =
    let k = first_byte u v c s t (or_false (x == c) (contains_byte u c) h).1 (cons_same e).1 in
    omega arith

module _ (code : Bytes) (no_slash : Lacks code b'/') (no_page : is_page code ≡ false)
    (rest : Bytes) where
  code_not :
      (v : Bytes)
      → is_page v ≡ true
      → (code ++ b'/' ∷ rest ≡ v) ⊎ ((w : Bytes) × (code ++ b'/' ∷ rest ≡ v ++ b'/' ∷ w))
      → ⊥
  code_not v h (inl e) =
      let k = contains-append code b'/' rest in
      let l = subst (λ t. Lacks t b'/') (sym e) (page-Lacks v h) in ground arith
  code_not v h (inr (w, e)) =
      let same = split_unique code v b'/' rest w no_slash (page-Lacks v h) e in
      let k = subst (λ t. is_page t ≡ true) (sym same) h in ground arith

  -- No match begins in the code.
  code_misses :
      (b : Bool) (t : Bytes)
      → Boundary true (code ++ b'/' ∷ rest) b t
      → length (b'/' ∷ rest) < length t
      → ¬ MatchesAt files b t
  code_misses b t l k (_, _, both (left at_begin) m) =
      let (_, same) = Boundary-begin l in
      let (v, h, e) = page_first t m in
      code_not v h (subst (λ x. (x ≡ v) ⊎ ((w : Bytes) × (x ≡ v ++ b'/' ∷ w))) (sym same) e)
  code_misses b t l k (_, _, both {t = w} (right (takes e)) m) =
      let (u, split) = Boundary-suffix l in
      let slash = byte-takes b'/' t w e in
      let n = first_byte code u b'/' rest w no_slash (split ∙ ap (λ x. u ++ x) slash) in
      let lengths = ap length split in
      absurd (omega (arith, length-append code (b'/' ∷ rest), length-append u t))

page-no_break : (v : Bytes) → is_page v ≡ true → Lacks v b'\n'
unfolding all_lack contains_byte
page-no_break v h = word-Lacks v (codes "admin") pages b'\n' h refl

tail-no_break : (t : Bytes) → IsTail t → Lacks t b'\n'
unfolding contains_byte
tail-no_break t bare = refl
tail-no_break t (deeper h) = h

pub Lacks-both : (u v : Bytes) (c : ℕ) → Lacks u c → Lacks v c → Lacks (u ++ v) c
unfolding contains_byte
Lacks-both [] v c h k = k
Lacks-both (x ∷ u) v c h k = ground (arith, Lacks-both u v c)

-- the path of the QR API
abbrev pub qr_img : Bytes
qr_img = codes "qr/php/qr_img.php"

module _ (v t : Bytes) (named : is_page v ≡ true) (tail : IsTail t) where
  line : Lacks (v ++ t) b'\n'
  line = Lacks-both v t b'\n' (page-no_break v named) (tail-no_break t tail)

  files-page : replace_all files (v ++ t) ≡ []
  files-page =
      replace_all_at files [] (MatchesToEnd-line files (v ++ t) files-EndsLine line) at_once
        (files-MatchesAt_begin v t named tail)
        (λ b w l k _. let n = Boundary-length l in absurd (omega arith))

  files-code :
      (code : Bytes)
      → Lacks code b'/'
      → Lacks code b'\n'
      → is_page code ≡ false
      → replace_all files (code ++ b'/' ∷ (v ++ t)) ≡ code
  unfolding contains_byte
  files-code code h k no_page =
      let (b, l) = Boundary-ascii true b'/' code (v ++ t) (omega arith) in
      replace_all_at files code
        (MatchesToEnd-line files _ files-EndsLine (Lacks-both code (b'/' ∷ (v ++ t)) b'\n' k line))
        l (files-MatchesAt b v t named tail) (code_misses code h no_page (v ++ t))

module _ (parse : Bytes → Bytes ⊎ Url) where
  other_branch :
      (fuel : ℕ) (s : Bytes) (u : Url)
      → s ≢ qr_img
      → clean_qr_cx parse (suc fuel) s u ≡ trim_suffix (replace_all files s) (codes "+")
  unfolding clean_qr_cx on_fuel clean_qr_cx_by
  other_branch fuel s u h = elim (Bool-cases (str_eq s qr_img)) [
    | inl e ↦ absurd (h ((str_eq_iff s qr_img).0 e))
    | inr e ↦ rw e refl
  ]

  -- A path that begins with the name of a page, which ends there or at a slash, is no shortcode, but
  -- for the path of the QR API. After a code without slashes and line breaks that is no such name
  -- itself, such a path is cut off with its slash, and then a plus sign at the end of the code.
  pub clean_qr_cx-page :
      (fuel : ℕ) (code v t : Bytes) (u : Url)
      → Lacks code b'/'
      → Lacks code b'\n'
      → is_page code ≡ false
      → is_page v ≡ true
      → IsTail t
      → v ++ t ≢ qr_img
      → (clean_qr_cx parse (suc fuel) (v ++ t) u ≡ [])
        × (clean_qr_cx parse (suc fuel) (code ++ b'/' ∷ (v ++ t)) u ≡ trim_suffix code (codes "+"))
  unfolding trim_suffix contains_byte is_word str_eq
  clean_qr_cx-page fuel code v t u slash break no_page named tail differs = (
    other_branch fuel (v ++ t) u differs
        ∙ ap (λ s. trim_suffix s (codes "+")) (files-page v t named tail),
    other_branch fuel (code ++ b'/' ∷ (v ++ t)) u not_api
        ∙ ap (λ s. trim_suffix s (codes "+")) (files-code v t named tail code slash break no_page),
  )
    where
      not_api : code ++ b'/' ∷ (v ++ t) ≢ qr_img
      not_api e =
          let k =
            split_unique code (codes "qr") b'/' (v ++ t) (codes "php/qr_img.php") slash refl e in
          let l : is_page code ≡ true = subst (λ c. is_page c ≡ true) (sym k) refl in ground arith
