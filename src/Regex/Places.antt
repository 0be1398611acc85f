-- ===== src/Regex/Places.antt =====
-- The places where a rune begins: the end of the text is one, and so is every ASCII character.
use urlhero.Common.{
  ℕ, zero, suc, ◌≤◌, ◌<◌, Bool, true, false, [], ◌∷◌, ◌++◌, ◌≡◌, refl, sym, subst, arith, Bytes,
  length, drop, more_bytes, length-drop, more_bytes-ascii,
}
use urlhero.Regex.First.{Boundary, at_once, later}

end_at_fuel : (fuel : ℕ) (b : Bool) (s : Bytes) → length s ≤ fuel → (b' : Bool) × Boundary b s b' []
end_at_fuel fuel b [] l = (b, at_once)
end_at_fuel zero b (c ∷ s) l = absurd (omega arith)
end_at_fuel (suc fuel) b (c ∷ s) l =
    let k = length-drop (more_bytes c s) s in
    let (b', h) = end_at_fuel fuel false (drop (more_bytes c s) s) (omega arith) in (b', later h)

pub Boundary-end : (b : Bool) (s : Bytes) → (b' : Bool) × Boundary b s b' []
Boundary-end b s = end_at_fuel (length s) b s (omega arith)

drop-append : (n : ℕ) (u v : Bytes) → n ≤ length u → drop n (u ++ v) ≡ drop n u ++ v
drop-append zero u v l = refl
drop-append (suc n) [] v l = absurd (omega arith)
drop-append (suc n) (c ∷ u) v l = drop-append n u v (omega arith)

ascii_at_fuel :
    (fuel : ℕ) (b : Bool) (c : ℕ) (u v : Bytes)
    → c < 0x80
    → length u ≤ fuel
    → (b' : Bool) × Boundary b (u ++ c ∷ v) b' (c ∷ v)
ascii_at_fuel fuel b c [] v a l = (b, at_once)
ascii_at_fuel zero b c (d ∷ u) v a l = absurd (omega arith)
ascii_at_fuel (suc fuel) b c (d ∷ u) v a l =
    let n = more_bytes d (u ++ c ∷ v) in
    let k = more_bytes-ascii d c u v a in
    let e = length-drop n u in
    let (b', h) = ascii_at_fuel fuel false c (drop n u) v a (omega arith) in
    (b', later (subst (λ t. Boundary false t b' (c ∷ v)) (sym (drop-append n u (c ∷ v) k)) h))

pub Boundary-ascii :
    (b : Bool) (c : ℕ) (u v : Bytes) → c < 0x80 → (b' : Bool) × Boundary b (u ++ c ∷ v) b' (c ∷ v)
Boundary-ascii b c u v a = ascii_at_fuel (length u) b c u v a (omega arith)

-- Only the whole text is at its start.
pub Boundary-begin : {b : Bool} {s t : Bytes} → Boundary b s true t → (b ≡ true) × (s ≡ t)
Boundary-begin at_once = (refl, refl)
Boundary-begin (later h) = let (e, _) = Boundary-begin h in ground arith
