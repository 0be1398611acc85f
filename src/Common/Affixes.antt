-- ===== src/Common/Affixes.antt =====
-- What it means for a byte string to begin or to end with another one.
use Prim.Native.Nat.{◌-◌}
use mathlib.Core.Path.{◌≡◌, refl, sym, ap, ◌∙◌, subst}
use mathlib.Core.Logic.{◌↔◌}
use mathlib.Core.Bool.{Bool, true, ◌&&◌}
use mathlib.Core.List.{[], ◌∷◌, ◌++◌}
use native.Mathlib.Omega.{arith}
use urlhero.Common.Tests.{◌==◌, ==_iff, leb}
use urlhero.Common.Lists.{length, take, drop, length-append, drop-length-append, take-append-drop}
use urlhero.Common.Strings.{Bytes, str_eq, str_eq_iff}
use urlhero.Common.Text.{has_prefix, has_suffix}

both : {a b : Bool} → (a && b) ≡ true → (a ≡ true) × (b ≡ true)
both h = ground arith

pub has_prefix_iff :
    (s pre : Bytes) → (has_prefix s pre ≡ true) ↔ ((rest : Bytes) × (s ≡ pre ++ rest))
unfolding has_prefix
has_prefix_iff s [] = (λ h. (s, refl), λ h. refl)
has_prefix_iff [] (y ∷ pre) = (λ h. cc, λ (rest, e). cc)
has_prefix_iff (x ∷ s) (y ∷ pre) = (
  λ h.
      let (p, q) = both {a = x == y} {b = has_prefix s pre} h in
      let (rest, e) = (has_prefix_iff s pre).0 q in
      let same : x ≡ y = (==_iff x y).0 p in
      (rest, subst (λ z. (x ∷ s) ≡ (z ∷ (pre ++ rest))) same (ap (λ s. x ∷ s) e)),
  λ (rest, e).
      let same : x ≡ y = cc in
      let tails : s ≡ pre ++ rest = cc in
      rw ((==_iff x y).1 same) ((has_prefix_iff s pre).1 (rest, tails)),
)

has_suffix-append : (start suf : Bytes) → has_suffix (start ++ suf) suf ≡ true
unfolding has_suffix
has_suffix-append start suf =
    let n : length (start ++ suf) - length suf ≡ length start =
      omega (arith, length-append start suf) in
    let l : leb (length suf) (length (start ++ suf)) ≡ true =
      ground (arith, length-append start suf) in
    rw (l, n, drop-length-append start suf) ((str_eq_iff suf suf).1 refl)

pub has_suffix_iff :
    (s suf : Bytes) → (has_suffix s suf ≡ true) ↔ ((start : Bytes) × (s ≡ start ++ suf))
unfolding has_suffix
has_suffix_iff s suf = (
  λ h.
      let n = length s - length suf in
      let (l, e) = both {a = leb (length suf) (length s)} {b = str_eq (drop n s) suf} h in
      (
        take n s,
        sym (take-append-drop n s) ∙ ap (λ t. take n s ++ t) ((str_eq_iff (drop n s) suf).0 e),
      ),
  λ (start, e). subst (λ s. has_suffix s suf ≡ true) (sym e) (has_suffix-append start suf),
)
