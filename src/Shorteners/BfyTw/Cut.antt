-- ===== src/Shorteners/BfyTw/Cut.antt =====
-- shorteners/bfy-tw.go: a slash or a dot and what follows it is cut off.
use urlhero.Common.{
  ℕ, ◌<◌, ◌==◌, Bool, true, false, [], ◌∷◌, ◌≡◌, inl, inr, refl, subst, arith, Bytes, ◌||◌,
  contains_byte,
}
use urlhero.Regex.{end, step, run, done, maybe, byte, any_of}
use urlhero.Regex.Spec.{nothing, at_stop, takes, both, left, right}
use urlhero.Regex.First.{MatchesAt}
use urlhero.Regex.Delete.{IsCut, replace_all-IsCut}
use urlhero.Regex.Breaks.{Lacks, IsCut-Lacks, Lacks-tail, dots}
use urlhero.Regex.Line.{EndsLine, EndsLine-end, EndsLine-run, MatchesToEnd-line}
use urlhero.Shorteners.{Url, clean_url, trim_path}
use urlhero.Shorteners.Breaks.{trim_path-Lacks, clean_url-cases}
use urlhero.Shorteners.BfyTw.{trailing, bfy_tw, address, path, icon, robots, ip, clean_bfy_tw}

-- Any match goes up to the end.
pub trailing-EndsLine : EndsLine (run trailing done)
unfolding run
trailing-EndsLine =
    let tail = EndsLine-run (maybe (byte b'=')) (run end done) EndsLine-end in
    let group = EndsLine-run (maybe (any_of address (path ∷ icon ∷ robots ∷ ip ∷ []))) _ tail in
    EndsLine-run (maybe (byte b'/')) _ group

-- `[/.].*` matches at a slash and at a dot
pub trailing-MatchesAt :
    (b : Bool) (c : ℕ) (s : Bytes)
    → (c == b'/' || c == b'.') ≡ true
    → Lacks s b'\n'
    → MatchesAt trailing b (c ∷ s)
unfolding step
trailing-MatchesAt b c s h k =
    let (d, m) = dots false s k in
    (
      d,
      [],
      both (right nothing)
          (both (left (right (left (both (takes (rw h refl)) m)))) (both (right nothing) at_stop)),
    )

-- What the pattern leaves of a text without line breaks is what is before its first match.
pub clean_bfy_tw-IsCut : (s : Bytes) (u : Url) → Lacks s b'\n' → IsCut trailing s (clean_bfy_tw s u)
unfolding clean_bfy_tw
clean_bfy_tw-IsCut s u h =
    replace_all-IsCut trailing s (MatchesToEnd-line trailing s trailing-EndsLine h)

clean_bfy_tw-Lacks :
    (s : Bytes) (u : Url) (c : ℕ)
    → c < 0x80
    → (c == b'/' || c == b'.') ≡ true
    → Lacks s b'\n'
    → Lacks (clean_bfy_tw s u) c
clean_bfy_tw-Lacks s u c a h k =
    IsCut-Lacks trailing s (clean_bfy_tw s u) c a (clean_bfy_tw-IsCut s u k) (λ b v w e.
      trailing-MatchesAt b c w h (Lacks-tail v c w b'\n' (subst (λ t. Lacks t b'\n') e k)))

-- What is cleaned out of any URL has no slash and no dot.
pub clean_url-bfy_tw :
    (u : Url)
    → Lacks (clean_url u bfy_tw.clean_func) b'/' × Lacks (clean_url u bfy_tw.clean_func) b'.'
unfolding contains_byte
clean_url-bfy_tw u = elim (clean_url-cases u clean_bfy_tw) [
  | inl e ↦ rw e (refl, refl)
  | inr e ↦
      let k = trim_path-Lacks u.path in
      rw e (
        clean_bfy_tw-Lacks (trim_path u.path) u b'/' (omega arith) refl k,
        clean_bfy_tw-Lacks (trim_path u.path) u b'.' (omega arith) refl k,
      )
]
