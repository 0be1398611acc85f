-- ===== src/Shorteners/ShortIm/Codes.antt =====
-- shorteners/short-im.go: the shortcodes that `cleanShortIm` returns.
use urlhero.Common.{
  ℕ, zero, suc, true, false, Bool-cases, ◌||◌, [], ◌∷◌, ◌++◌, ◌≡◌, ◌≢◌, ◌↔◌, ◌⊎◌, inl, inr, refl,
  sym, ap, ◌∙◌, subst, arith, some, All, Bytes, codes, str_eq, str_eq_iff, contains_byte,
  has_prefix, has_prefix_iff, trim_prefix, drop,
}
use urlhero.Regex.Breaks.{Lacks}
use urlhero.Shorteners.{Url, clean_url, trim_path, is_common_file}
use urlhero.Shorteners.Target.{Clean, get_hostname, clean_parsed, clean_target, on_fuel}
use urlhero.Shorteners.ShortIm.{is_api, is_page, api_target, clean_short_im_by, clean_short_im}

-- A shortcode: no dot, no slash and no name of the API or of a page.
abbrev pub IsCode : Bytes → Type 0
IsCode s =
    Lacks s b'.'
    × Lacks s b'/'
    × All (λ name. ¬ (s ≡ codes name)) ("api.php" ∷ "api" ∷ "donate" ∷ "tos" ∷ "warn" ∷ [])

abbrev pub IsApi : Bytes → Type 0
IsApi s = (s ≡ codes "api.php") ⊎ (s ≡ codes "api")

-- The query names a URL: by the key "short", or by "url" where that has no value.
abbrev pub HasTarget : Url → Bytes → Type 0
HasTarget u target =
    (target ≢ [])
    × ((u.query (codes "short") ≡ target)
        ⊎ ((u.query (codes "short") ≡ []) × (u.query (codes "url") ≡ target)))

abbrev pub IsShortIm : Url → Type 0
IsShortIm u = (u.hostname ≡ codes "short.im") ⊎ (u.hostname ≡ codes "www.short.im")

is_api_iff : (s : Bytes) → (is_api s ≡ true) ↔ IsApi s
is_api_iff s = ground (arith, str_eq_iff s (codes "api.php"), str_eq_iff s (codes "api"))

IsCode-iff :
    (s : Bytes)
    → (((is_api s ≡ false) × (is_page s ≡ false))
        × ((contains_byte s b'.' || contains_byte s b'/') ≡ false))
      ↔ IsCode s
IsCode-iff s = ground (
  arith,
  str_eq_iff s (codes "api.php"),
  str_eq_iff s (codes "api"),
  str_eq_iff s (codes "donate"),
  str_eq_iff s (codes "tos"),
  str_eq_iff s (codes "warn"),
)

api_target_iff :
    (u : Url) (target : Bytes) → ((target ≢ []) × (api_target u ≡ target)) ↔ HasTarget u target
unfolding api_target
api_target_iff u target = ground (arith, str_eq_iff (u.query (codes "short")) [])

get_hostname_iff : (u : Url) → (get_hostname u ≡ codes "short.im") ↔ IsShortIm u
unfolding get_hostname trim_prefix has_prefix
get_hostname_iff u = (
  λ e. elim (Bool-cases (has_prefix u.hostname (codes "www."))) [
    | inl p ↦
        let (rest, s) = (has_prefix_iff u.hostname (codes "www.")).0 p in
        inr (s ∙ ap (λ t. codes "www." ++ t) (sym (ap (λ t. drop 4 t) s) ∙ (rw p at e)))
    | inr p ↦ inl (rw p at e)
  ],
  λ h. elim h [ inl e ↦ rw e refl | inr e ↦ rw e refl ],
)

-- What is cleaned out of a URL, where that is not empty.
clean_url-some :
    (u : Url) (f : Clean) (r : Bytes)
    → r ≢ []
    → (clean_url u (some f) ≡ r) ↔ (
        (is_common_file (trim_path u.path) ≡ false)
        × (is_common_file r ≡ false)
        × (f (trim_path u.path) u ≡ r))
unfolding clean_url
clean_url-some u f r n = (
  λ h. elim (Bool-cases (is_common_file (trim_path u.path))) [
    | inl c ↦ absurd (n (sym (rw c at h)))
    | inr c ↦ elim (Bool-cases (is_common_file (f (trim_path u.path) u))) [
      | inl d ↦ absurd (n (sym (rw (c, d) at h)))
      | inr d ↦
          let e : f (trim_path u.path) u ≡ r = rw (c, d) at h in
          (c, subst (λ t. is_common_file t ≡ false) e d, e)
    ]
  ],
  λ (c, d, e). rw (c, e, d) refl,
)

module _ (parse : Bytes → Bytes ⊎ Url) where
  -- What `cleanShortIm` returns, where that is not empty: a shortcode itself, or what is cleaned, in
  -- the same way, out of the URL of short.im that is in the query of the API.
  pub data Cleans : Bytes → Url → Bytes → Type 0 where
    code : {s : Bytes} {u : Url} → IsCode s → Cleans s u s
    api :
        {s target r : Bytes} {u u' : Url}
        → IsApi s
        → HasTarget u target
        → parse target ≡ inr u'
        → IsShortIm u'
        → is_common_file (trim_path u'.path) ≡ false
        → is_common_file r ≡ false
        → Cleans (trim_path u'.path) u' r
        → Cleans s u r

  clean_parsed-some :
      (rec : Clean) (m : Bytes ⊎ Url) (r : Bytes)
      → r ≢ []
      → clean_parsed (codes "short.im") rec m ≡ r
      → (u : Url) × (m ≡ inr u) × (get_hostname u ≡ codes "short.im") × (clean_url u (some rec) ≡ r)
  unfolding clean_parsed
  clean_parsed-some rec (inl e) r n h = absurd (n (sym h))
  clean_parsed-some rec (inr u) r n h =
      elim (Bool-cases (str_eq (get_hostname u) (codes "short.im"))) [
        | inl e ↦ (u, refl, (str_eq_iff (get_hostname u) (codes "short.im")).0 e, rw e at h)
        | inr e ↦ absurd (n (sym (rw e at h)))
      ]

  clean_target-some :
      (rec : Clean) (target r : Bytes)
      → r ≢ []
      → clean_target parse (codes "short.im") rec target ≡ r
      → (target ≢ []) × (clean_parsed (codes "short.im") rec (parse target) ≡ r)
  unfolding clean_target
  clean_target-some rec target r n h = elim (Bool-cases (str_eq target [])) [
    | inl e ↦ absurd (n (sym (rw e at h)))
    | inr e ↦ (λ k. let t = (str_eq_iff target []).1 k in cc, rw e at h)
  ]

  by-IsCode :
      (rec : Clean) (s : Bytes) (u : Url) (r : Bytes)
      → r ≢ []
      → is_api s ≡ false
      → clean_short_im_by parse rec s u ≡ r
      → IsCode s × (s ≡ r)
  unfolding clean_short_im_by
  by-IsCode rec s u r n a h = elim (Bool-cases (is_page s)) [
    | inl p ↦ absurd (n (sym (rw (a, p) at h)))
    | inr p ↦ elim (Bool-cases (contains_byte s b'.' || contains_byte s b'/')) [
      | inl c ↦ absurd (n (sym (rw (a, p, c) at h)))
      | inr c ↦ ((IsCode-iff s).0 ((a, p), c), rw (a, p, c) at h)
    ]
  ]

  by-Cleans :
      (rec : Clean) (s : Bytes) (u : Url) (r : Bytes)
      → r ≢ []
      → ((s : Bytes) (u : Url) → rec s u ≡ r → Cleans s u r)
      → clean_short_im_by parse rec s u ≡ r
      → Cleans s u r
  unfolding clean_short_im_by
  by-Cleans rec s u r n again h = elim (Bool-cases (is_api s)) [
    | inl a ↦
        let (t, p) = clean_target-some rec (api_target u) r n (rw a at h) in
        let (u', e, host, c) = clean_parsed-some rec (parse (api_target u)) r n p in
        let (front, back, k) = (clean_url-some u' rec r n).0 c in
        api ((is_api_iff s).0 a) ((api_target_iff u (api_target u)).0 (t, refl)) e
          ((get_hostname_iff u').0 host) front back (again (trim_path u'.path) u' k)
    | inr a ↦ let (c, e) = by-IsCode rec s u r n a h in subst (Cleans s u) e (code c)
  ]

  Cleans-by :
      (rec : Clean) (u u' : Url) (s target r : Bytes)
      → r ≢ []
      → IsApi s
      → HasTarget u target
      → parse target ≡ inr u'
      → IsShortIm u'
      → clean_url u' (some rec) ≡ r
      → clean_short_im_by parse rec s u ≡ r
  unfolding clean_short_im_by clean_target clean_parsed
  Cleans-by rec u u' s target r n a t e host c =
      let (some_target, same) = (api_target_iff u target).1 t in
      let full : str_eq target [] ≡ false = ground (arith, str_eq_iff target []) in
      rw ((is_api_iff s).1 a, same, full, e, (get_hostname_iff u').1 host) c

  Cleans-clean_short_im :
      {s : Bytes} {u : Url} {r : Bytes}
      → r ≢ []
      → Cleans s u r
      → (fuel : ℕ) × (clean_short_im parse fuel s u ≡ r)
  unfolding clean_short_im on_fuel clean_short_im_by
  Cleans-clean_short_im {s} n (code c) =
      let ((a, p), d) = (IsCode-iff s).1 c in (1, rw (a, p, d) refl)
  Cleans-clean_short_im {s} {u} {r} n (api {target = target} {u' = u'} a t e host front back h) =
      let (fuel, k) = Cleans-clean_short_im n h in
      let rec = clean_short_im parse fuel in
      (
        suc fuel,
        Cleans-by rec u u' s target r n a t e host ((clean_url-some u' rec r n).1 (front, back, k)),
      )

  clean_short_im-Cleans :
      (fuel : ℕ) (s : Bytes) (u : Url) (r : Bytes)
      → r ≢ []
      → clean_short_im parse fuel s u ≡ r
      → Cleans s u r
  unfolding clean_short_im on_fuel
  clean_short_im-Cleans zero s u r n h = absurd (n (sym h))
  clean_short_im-Cleans (suc fuel) s u r n h =
      by-Cleans (clean_short_im parse fuel) s u r n (λ s' u'. clean_short_im-Cleans fuel s' u' r n)
        h

  -- With some number of nested calls `cleanShortIm` comes to a text that is not empty exactly when
  -- the text is the path itself, with no dot and no slash in it and no name of the API or of a page,
  -- or the path is that of the API and the text is what is cleaned, in the same way, out of the URL of
  -- short.im in its query, where neither the path of that nor the text is a common file.
  pub clean_short_im_iff :
      (s : Bytes) (u : Url) (r : Bytes)
      → r ≢ []
      → ((fuel : ℕ) × (clean_short_im parse fuel s u ≡ r)) ↔ Cleans s u r
  clean_short_im_iff s u r n =
      (λ (fuel, h). clean_short_im-Cleans fuel s u r n h, λ h. Cleans-clean_short_im n h)
