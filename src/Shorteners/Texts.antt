-- ===== src/Shorteners/Texts.antt =====
-- shorteners/shorteners.go: the text of a `multiError`, of the texts of its errors.
use urlhero.Common.{
  List, [], ◌∷◌, ◌++◌, ◌≡◌, refl, sym, ap, ap₂, ◌∙◌, arith, Bytes, codes, All, length,
  drop-length-append, drop,
}
use urlhero.Regex.Breaks.{Lacks}
use urlhero.Regex.Words.{split_unique, cons_same}

-- one line for each error
unfoldable pub error_lines : List Bytes → Bytes
error_lines [] = []
error_lines (e ∷ errs) = b'\t' ∷ (e ++ b'\n' ∷ error_lines errs)

unfoldable pub after_tag : List Bytes → Bytes
unfolding error_lines
after_tag [] = []
after_tag (e ∷ []) = codes ": " ++ e
after_tag (e ∷ f ∷ errs) = codes ":\n" ++ error_lines (e ∷ f ∷ errs)

-- `Error`
unfoldable pub error_text : Bytes → List Bytes → Bytes
unfolding after_tag
error_text tag errs = tag ++ after_tag errs

-- A text of one line
abbrev pub OneLine : Bytes → Type 0
OneLine s = Lacks s b'\n'

same_rest : (u : Bytes) (s t : Bytes) → u ++ s ≡ u ++ t → s ≡ t
same_rest u s t e = sym (drop-length-append u s) ∙ ap (drop (length u)) e ∙ drop-length-append u t

error_lines-injective :
    (es fs : List Bytes)
    → All OneLine es
    → All OneLine fs
    → error_lines es ≡ error_lines fs
    → es ≡ fs
unfolding error_lines
error_lines-injective [] [] h k p = refl
error_lines-injective [] (f ∷ fs) h k p = ground arith
error_lines-injective (e ∷ es) [] h k p = ground arith
error_lines-injective (e ∷ es) (f ∷ fs) h k p =
    let rest = (cons_same p).1 in
    let same = split_unique e f b'\n' (error_lines es) (error_lines fs) h.0 k.0 rest in
    let more = same_rest f _ _ (ap (λ x. x ++ b'\n' ∷ error_lines es) (sym same) ∙ rest) in
    ap₂ ◌∷◌ same (error_lines-injective es fs h.1 k.1 (cons_same more).1)

after_tag-injective :
    (es fs : List Bytes) → All OneLine es → All OneLine fs → after_tag es ≡ after_tag fs → es ≡ fs
unfolding after_tag
after_tag-injective [] [] h k p = refl
after_tag-injective [] (f ∷ []) h k p = ground arith
after_tag-injective [] (f ∷ g ∷ fs) h k p = ground arith
after_tag-injective (e ∷ []) [] h k p = ground arith
after_tag-injective (e ∷ []) (f ∷ []) h k p = ap (λ x. x ∷ []) (same_rest (codes ": ") e f p)
after_tag-injective (e ∷ []) (f ∷ g ∷ fs) h k p = ground arith
after_tag-injective (d ∷ e ∷ es) [] h k p = ground arith
after_tag-injective (d ∷ e ∷ es) (f ∷ []) h k p = ground arith
after_tag-injective (d ∷ e ∷ es) (f ∷ g ∷ fs) h k p =
    error_lines-injective (d ∷ e ∷ es) (f ∷ g ∷ fs) h k (same_rest (codes ":\n") _ _ p)

-- A `multiError` with other errors has another text, where the text of each error is one line.
error_text-injective :
    (tag : Bytes) (es fs : List Bytes)
    → All OneLine es
    → All OneLine fs
    → error_text tag es ≡ error_text tag fs
    → es ≡ fs
unfolding error_text
error_text-injective tag es fs h k p = after_tag-injective es fs h k (same_rest tag _ _ p)
