-- ===== src/Shorteners/Breaks.antt =====
-- shorteners/shorteners.go: what a `CleanFunc` is given, and what becomes of its result.
use urlhero.Common.{
  ℕ, zero, suc, ◌==◌, ==_iff, Bool, true, false, ◌||◌, Option, none, some, List, [], ◌∷◌, ◌≡◌, ◌⊎◌,
  inl, inr, refl, subst, arith, Bytes, Bool-cases, contains_byte, take, codes, index, index_any,
  any_prefix, has_prefix, trim_left, trim_right, trim_cons,
}
use mathlib.Core.Option
use urlhero.Regex.Breaks.{Lacks}
use urlhero.Shorteners.{
  Url, clean_url, is_common_file, trim_path, trim_after, trim_after_any, upto, junk,
}

-- A cleaned URL is empty, or what the `CleanFunc` gives.
pub clean_url-cases :
    (u : Url) (f : Bytes → Url → Bytes)
    → (clean_url u (some f) ≡ []) ⊎ (clean_url u (some f) ≡ f (trim_path u.path) u)
unfolding clean_url
clean_url-cases u f = elim (Bool-cases (is_common_file (trim_path u.path))) [
  | inl e ↦ rw e (inl refl)
  | inr e ↦ elim (Bool-cases (is_common_file (f (trim_path u.path) u))) [
    | inl k ↦ rw e (rw k (inl refl))
    | inr k ↦ rw e (rw k (inr refl))
  ]
]

Lacks-take : (n : ℕ) (s : Bytes) (c : ℕ) → Lacks s c → Lacks (take n s) c
unfolding contains_byte
Lacks-take zero s c h = refl
Lacks-take (suc n) [] c h = refl
Lacks-take (suc n) (x ∷ s) c h = ground (arith, Lacks-take n s c)

Lacks-upto : (s : Bytes) (o : Option ℕ) (c : ℕ) → Lacks s c → Lacks (upto s o) c
Lacks-upto s none c h = h
Lacks-upto s (some n) c h = Lacks-take n s c h

Lacks-trim_cons :
    (cutset : Bytes) (x : ℕ) (s : Bytes) (c : ℕ)
    → (x == c) ≡ false
    → Lacks s c
    → Lacks (trim_cons cutset x s) c
unfolding trim_cons contains_byte
Lacks-trim_cons cutset x [] c d h = elim (Bool-cases (contains_byte cutset x)) [
  | inl e ↦ rw e refl
  | inr e ↦ rw e (rw d refl)
]
Lacks-trim_cons cutset x (y ∷ s) c d h = rw d h

or_false : (a b : Bool) → (a || b) ≡ false → (a ≡ false) × (b ≡ false)
or_false a b h = ground arith

Lacks-trim_right : (s cutset : Bytes) (c : ℕ) → Lacks s c → Lacks (trim_right s cutset) c
unfolding trim_right contains_byte
Lacks-trim_right [] cutset c h = refl
Lacks-trim_right (x ∷ s) cutset c h =
    let (d, k) = or_false (x == c) (contains_byte s c) h in
    Lacks-trim_cons cutset x (trim_right s cutset) c d (Lacks-trim_right s cutset c k)

-- A line break is among the characters that end a shortcode.
junk_at : (s : Bytes) → any_prefix (b'\n' ∷ s) junk ≡ true
unfolding any_prefix has_prefix
junk_at s = refl

upto-suc :
    (x : ℕ) (s : Bytes) (o : Option ℕ) (c : ℕ)
    → (x == c) ≡ false
    → Lacks (upto s o) c
    → Lacks (upto (x ∷ s) (Option.map suc o)) c
unfolding contains_byte
upto-suc x s none c d h = rw d h
upto-suc x s (some n) c d h = rw d h

module _ (chars : List Bytes) (c : ℕ) (h : (s : Bytes) → any_prefix (c ∷ s) chars ≡ true) where
  not_among : (x : ℕ) (s : Bytes) → any_prefix (x ∷ s) chars ≡ false → (x == c) ≡ false
  not_among x s e = elim (Bool-cases (x == c)) [
    | inr k ↦ k
    | inl k ↦
        let same = subst (λ y. any_prefix (y ∷ s) chars ≡ false) ((==_iff x c).0 k) e in
        absurd (differ (h s) same)
  ]
    where
      differ : {b : Bool} → b ≡ true → b ≡ false → ⊥
      differ p q = ground arith

  trim_after_any-Lacks : (s : Bytes) → Lacks (trim_after_any s chars) c
  unfolding trim_after_any index_any contains_byte
  trim_after_any-Lacks [] = refl
  trim_after_any-Lacks (x ∷ s) = elim (Bool-cases (any_prefix (x ∷ s) chars)) [
    | inl e ↦ rw e refl
    | inr e ↦ rw e (upto-suc x s (index_any s chars) c (not_among x s e) (trim_after_any-Lacks s))
  ]

-- No line break is left of a path.
pub trim_path-Lacks : (path : Bytes) → Lacks (trim_path path) b'\n'
unfolding trim_path trim_after
trim_path-Lacks path =
    let s = trim_after_any (trim_left path (codes "/")) junk in
    let http = trim_after s (codes "http:/") in
    let https = trim_after http (codes "https:/") in
    let www = trim_after https (codes "www.") in
    let clean = trim_after_any-Lacks junk b'\n' junk_at (trim_left path (codes "/")) in
    let lacks = Lacks-upto s (index s (codes "http:/")) b'\n' clean in
    let lacks_too = Lacks-upto http (index http (codes "https:/")) b'\n' lacks in
    let last = Lacks-upto https (index https (codes "www.")) b'\n' lacks_too in
    Lacks-trim_right (trim_right www (codes ".,;!")) (codes "/") b'\n'
      (Lacks-trim_right www (codes ".,;!") b'\n' last)
