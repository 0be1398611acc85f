-- ===== src/Shorteners/BfyTw/Codes.antt =====
-- shorteners/bfy-tw.go: a code before a slash.
use urlhero.Common.{
  ℕ, ◌==◌, Bool, true, false, ◌||◌, some, [], ◌∷◌, ◌++◌, ◌≡◌, ◌⊎◌, inl, inr, refl, sym, ap, ◌∙◌,
  subst, arith, Bytes, contains_byte, codes, has_prefix, false-true, ltb→lt,
}
use urlhero.Regex.{dot, unit, seq, step, literal}
use urlhero.Regex.Spec.{Matches, nothing, takes, both, left, right}
use urlhero.Regex.First.{MatchesAt}
use urlhero.Regex.Places.{Boundary-ascii}
use urlhero.Regex.Delete.{Boundary-suffix, replace_all_at}
use urlhero.Regex.Words.{literal_sound, byte-takes, cons_same}
use urlhero.Regex.Line.{MatchesToEnd-line}
use urlhero.Shorteners.{Url}
use urlhero.Shorteners.BfyTw.Cut.{trailing-EndsLine, trailing-MatchesAt}
use urlhero.Shorteners.BfyTw.{trailing, address, path, ip, clean_bfy_tw}
use urlhero.Shorteners.QrCx.Pages.{contains-append, Lacks-both}
use urlhero.Shorteners.Patterns.{step-takes}
use urlhero.Shorteners.RbGy.{alnum_ascii}
use urlhero.Regex.Breaks.{Lacks}
use urlhero.Shorteners.Sites.{all_bytes, is_alnum, is_digit}
use urlhero.Shorteners.BfyTw.Words.{
  Rest, and_parts, class_end, inside, Rest-Lacks, has_prefix-append, dot_takes, all_word,
  lacks_word, alnum-Lacks, Rest-match, taken, digit_alnum, digits-all, not_alnum,
}

-- The text before the slash, and what follows that.
module _ (x : ℕ) (w junk : Bytes) (alnum : all_bytes is_alnum (x ∷ w) ≡ true) where
  abbrev text : Bytes
  text = x ∷ (w ++ b'/' ∷ junk)

  has_slash : (u : Bytes) → contains_byte (u ++ b'/' ∷ junk) b'/' ≡ true
  has_slash u = contains-append u b'/' junk

  -- After a word there is a character of the text, or the slash.
  no_end :
      (u : Bytes) (d : ℕ) (s : Bytes)
      → all_bytes is_alnum u ≡ true
      → is_alnum d ≡ false
      → (b'/' ≡ d → ⊥)
      → text ≡ u ++ d ∷ s
      → ⊥
  no_end u d s h k differs e = differs (class_end is_alnum (x ∷ w) u b'/' d junk s alnum h refl k e)

  first_alnum : is_alnum x ≡ true
  unfolding all_bytes
  first_alnum = (and_parts (is_alnum x) (all_bytes is_alnum w) alnum).0

  no_address : {b d : Bool} {t : Bytes} → Matches address b text d t → ⊥
  unfolding all_bytes
  no_address (both {t = t1} h (both (left (takes {t = t2} e)) (both {t = t3} m _))) =
      no_end (codes "https") b':' (codes "//" ++ t3) refl refl (λ q. omega arith)
        (literal_sound (codes "http") h
          ∙ ap (λ z. codes "http" ++ z)
              (byte-takes b's' t1 t2 e ∙ ap (◌∷◌ b's') (literal_sound (codes "://") m)))
  no_address (both h (both (right nothing) (both {t = t3} m _))) =
      no_end (codes "http") b':' (codes "//" ++ t3) refl refl (λ q. omega arith)
        (literal_sound (codes "http") h
          ∙ ap (λ z. codes "http" ++ z) (literal_sound (codes "://") m))

  no_path : {b d : Bool} {t : Bytes} → Matches path b text d t → ⊥
  no_path (both (takes {t = t1} e) _) =
      let (k, _) = step-takes (λ c. c == b'/' || c == b'.') x (w ++ b'/' ∷ junk) t1 e in
      let l = not_alnum x k in let m = first_alnum in ground arith

  no_ip : {b d : Bool} {t : Bytes} → Matches ip b text d t → ⊥
  unfolding all_bytes
  no_ip (both {t = t1} h (both (both (takes {t = t2} e) m) (both {s = t3} (takes {t = t4} k) _))) =
      let (c, l, n) = taken is_digit t1 t2 e in
      let (u, all, split) = digits-all m in
      no_end (codes "ip" ++ c ∷ u) b'.' t4 (rw (digit_alnum c l) all) refl (λ q. omega arith)
        (literal_sound (codes "ip") h
          ∙ ap (λ z. codes "ip" ++ z)
              (n ∙ ap (◌∷◌ c) (split ∙ ap (λ z. u ++ z) (byte-takes b'.' _ t4 k))))

  -- A word that the text begins with ends at the slash, or within what is before that.
  word_split :
      (v word t : Bytes)
      → all_bytes is_alnum v ≡ true
      → all_bytes is_alnum word ≡ true
      → v ++ b'/' ∷ junk ≡ word ++ t
      → (t ≡ b'/' ∷ junk)
        ⊎ ((z : ℕ) × (rest : Bytes) × (is_alnum z ≡ true) × (t ≡ z ∷ (rest ++ b'/' ∷ junk)))
  unfolding all_bytes
  word_split [] [] t h k e = inl (sym e)
  word_split (z ∷ rest) [] t h k e =
      inr (z, rest, (and_parts (is_alnum z) (all_bytes is_alnum rest) h).0, sym e)
  word_split [] (y ∷ word) t h k e =
      let l =
        subst (λ c. is_alnum c ≡ true) (sym (cons_same e).0)
          (and_parts (is_alnum y) (all_bytes is_alnum word) k).0 in
      absurd (false-true l)
  word_split (z ∷ v) (y ∷ word) t h k e =
      word_split v word t (and_parts (is_alnum z) (all_bytes is_alnum v) h).1
        (and_parts (is_alnum y) (all_bytes is_alnum word) k).1 (cons_same e).1

  no_file :
      (word suffix : Bytes) {b d : Bool} {q : Bytes}
      → all_bytes is_alnum word ≡ true
      → Lacks suffix b'/'
      → has_prefix junk suffix ≡ false
      → Matches (seq (literal word) (seq (unit dot) (literal suffix))) b text d q
      → Rest q
      → ⊥
  no_file word suffix {q = q} h k l (both {t = t1} m (both (takes {t = t2} e) n)) r =
      elim (word_split (x ∷ w) word t1 alnum h (literal_sound word m)) [
        | inl same ↦
            let next =
              dot_takes b'/' junk t2 (omega arith) (subst (λ v. step dot v ≡ some t2) same e) in
            let found =
              subst (λ v. has_prefix v suffix ≡ true) (sym (next ∙ literal_sound suffix n))
                (has_prefix-append suffix q) in
            ground arith
        | inr (z, rest, a, same) ↦
            let ascii = ltb→lt z 0x80 (alnum_ascii z a) in
            let next =
              dot_takes z (rest ++ b'/' ∷ junk) t2 ascii
                (subst (λ v. step dot v ≡ some t2) same e) in
            let lacks =
              subst (λ v. Lacks v b'/') (sym (next ∙ literal_sound suffix n))
                (Lacks-both suffix q b'/' k (Rest-Lacks r)) in
            let has = has_slash rest in ground arith
      ]

  -- No match begins before the slash.
  no_match :
      (b : Bool)
      → has_prefix junk (codes "ico") ≡ false
      → has_prefix junk (codes "txt") ≡ false
      → ¬ MatchesAt trailing b text
  no_match b h k (_, _, both (left (takes {t = t1} e)) _) =
      let same = (cons_same (byte-takes b'/' text t1 e)).0 in
      let l = subst (λ c. is_alnum c ≡ true) same first_alnum in absurd (false-true l)
  no_match b h k (_, _, both (right nothing) (both (right nothing) m)) =
      let has = has_slash (x ∷ w) in let lacks = Rest-Lacks (Rest-match m) in ground arith
  no_match b h k (_, _, both (right nothing) (both (left (left m)) n)) = no_address m
  no_match b h k (_, _, both (right nothing) (both (left (right (left m))) n)) = no_path m
  no_match b h k (_, _, both (right nothing) (both (left (right (right (left m)))) n)) =
      no_file (codes "favicon") (codes "ico") (all_word (inl refl)) (lacks_word (inl refl)) h m
        (Rest-match n)
  no_match b h k (_, _, both (right nothing) (both (left (right (right (right (left m))))) n)) =
      no_file (codes "robots") (codes "txt") (all_word (inr refl)) (lacks_word (inr refl)) k m
        (Rest-match n)
  no_match b h k (_, _, both (right nothing) (both (left (right (right (right (right m))))) n)) =
      no_ip m

-- A code of letters and digits is what is left of it with a slash and anything else on the line after
-- it, where that begins with neither "ico" nor "txt": the dot of "favicon.ico" or "robots.txt" may
-- stand for the slash.
pub clean_bfy_tw-slash :
    (code junk : Bytes) (u : Url)
    → all_bytes is_alnum code ≡ true
    → Lacks junk b'\n'
    → has_prefix junk (codes "ico") ≡ false
    → has_prefix junk (codes "txt") ≡ false
    → clean_bfy_tw (code ++ b'/' ∷ junk) u ≡ code
unfolding clean_bfy_tw contains_byte
clean_bfy_tw-slash code junk u alnum line h k =
    let (b, l) = Boundary-ascii true b'/' code junk (omega arith) in
    replace_all_at trailing code
      (MatchesToEnd-line trailing _ trailing-EndsLine
        (Lacks-both code (b'/' ∷ junk) b'\n' (alnum-Lacks code alnum) line))
      l (trailing-MatchesAt b b'/' junk refl line)
      (λ b' t l' n m.
        let (v, split) = Boundary-suffix l' in
        let (x, w, all, same) = inside is_alnum code v (b'/' ∷ junk) t alnum split n in
        no_match x w junk all b' h k (subst (MatchesAt trailing b') same m))
