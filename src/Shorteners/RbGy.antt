-- ===== src/Shorteners/RbGy.antt =====
-- shorteners/rg-by.go: what is cleaned out of any URL fits the pattern.
use urlhero.Common.{
  ℕ, zero, suc, ◌+◌, ◌≤◌, Bool, true, false, not, ◌&&◌, ◌||◌, some, [], ◌∷◌, ◌≡◌, ◌⊎◌, inl, inr,
  refl, arith, Bytes, Bool-cases, str_eq, length, length-take, take, ltb, lt→ltb, codes,
  if◌then◌else◌,
}
use urlhero.Shorteners.{
  Url, clean_url, not_common, is_common_file, trim_path, checked_clean_url, trim_after_any, singles,
}
use urlhero.Shorteners.Sites.{
  all_bytes, all_of, is_alnum, is_digit, is_upper, is_lower, in_range, lower_byte, lower_ascii,
  keep, to_lower, clean_rb_gy, rb_gy,
}

keep-all : (p : ℕ → Bool) (s : Bytes) → all_bytes p (keep p s) ≡ true
unfolding keep all_bytes
keep-all p [] = refl
keep-all p (x ∷ s) = ground (arith, keep-all p s)

take-all : (p : ℕ → Bool) (n : ℕ) (s : Bytes) → all_bytes p s ≡ true → all_bytes p (take n s) ≡ true
unfolding all_bytes
take-all p zero s h = refl
take-all p (suc n) [] h = refl
take-all p (suc n) (x ∷ s) h = ground (arith, take-all p n s)

between : (lo hi c : ℕ) → in_range lo hi c ≡ true → (lo ≤ c) × (c ≤ hi)
between lo hi c h = ground arith

between_true : (lo hi c : ℕ) → lo ≤ c → c ≤ hi → in_range lo hi c ≡ true
between_true lo hi c h k = ground arith

lower_upper : (x : ℕ) → is_upper x ≡ true → is_lower (x + 32) ≡ true
lower_upper x h =
    let (lo, hi) = between b'A' b'Z' x h in
    between_true b'a' b'z' (x + 32) (omega arith) (omega arith)

last_true : (a b c : Bool) → c ≡ true → (a || (b || c)) ≡ true
last_true a b c h = ground arith

lower_alnum : (x : ℕ) → is_alnum x ≡ true → is_alnum (lower_byte x) ≡ true
lower_alnum x h = elim (Bool-cases (is_upper x)) [
  | inl e ↦ rw e (last_true (is_digit (x + 32)) (is_upper (x + 32)) _ (lower_upper x e))
  | inr e ↦ rw e h
]

alnum_cases : (a b c : Bool) → (a || (b || c)) ≡ true → (a ≡ true) ⊎ ((b ≡ true) ⊎ (c ≡ true))
alnum_cases a b c h = ground arith

pub alnum_ascii : (x : ℕ) → is_alnum x ≡ true → ltb x 0x80 ≡ true
alnum_ascii x h = elim (alnum_cases (is_digit x) (is_upper x) (is_lower x) h) [
  | inl d ↦ let (lo, hi) = between b'0' b'9' x d in lt→ltb x 0x80 (omega arith)
  | inr (inl u) ↦ let (lo, hi) = between b'A' b'Z' x u in lt→ltb x 0x80 (omega arith)
  | inr (inr l) ↦ let (lo, hi) = between b'a' b'z' x l in lt→ltb x 0x80 (omega arith)
]

both :
    (a b c d : Bool)
    → (a ≡ true → c ≡ true)
    → (b ≡ true → d ≡ true)
    → (a && b) ≡ true
    → (c && d) ≡ true
both a b c d f g h = ground arith

lower_all : (s : Bytes) → all_bytes is_alnum s ≡ true → all_bytes is_alnum (lower_ascii s) ≡ true
unfolding all_bytes
lower_all [] h = refl
lower_all (x ∷ s) h = both (is_alnum x) _ _ _ (lower_alnum x) (lower_all s) h

all_ascii : (s : Bytes) → all_bytes is_alnum s ≡ true → all_bytes (λ c. ltb c 0x80) s ≡ true
unfolding all_bytes
all_ascii [] h = refl
all_ascii (x ∷ s) h = both (is_alnum x) _ _ _ (alnum_ascii x) (all_ascii s) h

lower_length : (s : Bytes) → length (lower_ascii s) ≡ length s
lower_length [] = refl
lower_length (x ∷ s) = omega (arith, lower_length s)

abbrev Fits : Bytes → Type 0
Fits s = (all_bytes is_alnum s ≡ true) × (length s ≤ 6)

cut_length : (s : Bytes) → length (if ltb 6 (length s) then take 6 s else s) ≤ 6
cut_length s = elim (Bool-cases (ltb 6 (length s))) [
  | inl e ↦ rw (e, length-take 6 s) (omega arith)
  | inr e ↦ rw e (ground arith)
]

cut_all :
    (s : Bytes)
    → all_bytes is_alnum s ≡ true
    → all_bytes is_alnum (if ltb 6 (length s) then take 6 s else s) ≡ true
cut_all s h = elim (Bool-cases (ltb 6 (length s))) [
  | inl e ↦ rw e (take-all is_alnum 6 s h)
  | inr e ↦ rw e h
]

module _ (unicode_lower : Bytes → Bytes) where
  to_lower-Fits : (s : Bytes) → Fits s → Fits (to_lower unicode_lower s)
  unfolding to_lower
  to_lower-Fits s (h, l) = rw (all_ascii s h) (lower_all s h, rw (lower_length s) l)

  clean_rb_gy-Fits : (s : Bytes) (u : Url) → Fits (clean_rb_gy unicode_lower s u)
  unfolding clean_rb_gy
  clean_rb_gy-Fits s u =
      let cut_at = (0xE2 ∷ 0x97 ∷ 0x84 ∷ []) ∷ singles (codes "+/._-:$@") in
      let kept = keep is_alnum (trim_after_any s cut_at) in
      to_lower-Fits (if ltb 6 (length kept) then take 6 kept else kept)
        (cut_all kept (keep-all is_alnum (trim_after_any s cut_at)), cut_length kept)

  not_common-Fits : (s : Bytes) → Fits s → Fits (not_common s)
  unfolding all_bytes
  not_common-Fits s h = elim (Bool-cases (is_common_file s)) [
    | inl e ↦ rw e (refl, omega arith)
    | inr e ↦ rw e h
  ]

  clean_url-Fits : (u : Url) → Fits (clean_url u (some (clean_rb_gy unicode_lower)))
  unfolding clean_url all_bytes
  clean_url-Fits u = elim (Bool-cases (is_common_file (trim_path u.path))) [
    | inl e ↦ rw e (refl, omega arith)
    | inr e ↦ rw e (
        not_common-Fits (clean_rb_gy unicode_lower (trim_path u.path) u)
          (clean_rb_gy-Fits (trim_path u.path) u))
  ]

  matches_or_empty :
      (s : Bytes)
      → all_bytes is_alnum s ≡ true
      → (not (str_eq s []) && not (all_of is_alnum s)) ≡ false
  unfolding all_of str_eq
  matches_or_empty [] h = refl
  matches_or_empty (x ∷ s) h = rw h refl

  -- Every URL is cleaned without an error, to at most six letters and digits.
  pub checked_clean_url-rb_gy :
      (u : Url)
      → (code : Bytes) × (checked_clean_url (rb_gy unicode_lower) u ≡ inr code)
        × (all_bytes is_alnum code ≡ true)
        × (length code ≤ 6)
  unfolding checked_clean_url
  checked_clean_url-rb_gy u =
      let f = clean_url-Fits u in
      (
        clean_url u (some (clean_rb_gy unicode_lower)),
        rw (matches_or_empty (clean_url u (some (clean_rb_gy unicode_lower))) f.0) refl,
        f.0,
        f.1,
      )
