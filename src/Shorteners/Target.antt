-- ===== src/Shorteners/Target.antt =====
-- shorteners/short-im.go and shorteners/qr-cx.go: a shortcode in a URL that stands in the query of a
-- URL. `parse` is `url.Parse`, and `size` measures a URL.
use urlhero.Common.{
  ℕ, zero, suc, ◌<◌, Bool, true, false, some, [], ◌≡◌, ◌≢◌, ◌⊎◌, inl, inr, refl, arith, Bytes,
  codes, str_eq, str_eq_iff, Bool-cases, if◌then◌else◌, trim_prefix, length, subst, ◌∷◌,
}
use urlhero.Shorteners.{Url, clean_url, trim_path}

-- `getHostname` of a URL that is not nil
unfoldable pub get_hostname : Url → Bytes
unfolding trim_prefix
get_hostname u = trim_prefix u.hostname (codes "www.")

-- a `CleanFunc`
abbrev pub Clean : Type 0
Clean = Bytes → Url → Bytes

-- A `CleanFunc` that calls itself: `clean_by rec` is its body, where `rec` is the call.
unfoldable pub on_fuel : (Clean → Clean) → ℕ → Clean
on_fuel clean_by zero s u = []
on_fuel clean_by (suc fuel) s u = clean_by (on_fuel clean_by fuel) s u

clean_url-same :
    (f g : Clean) (u : Url)
    → ((s : Bytes) → f s u ≡ g s u)
    → clean_url u (some f) ≡ clean_url u (some g)
unfolding clean_url
clean_url-same f g u h = rw (h (trim_path u.path)) refl

-- The URL counts where the host is the shortener's.
unfoldable pub clean_parsed : Bytes → Clean → Bytes ⊎ Url → Bytes
unfolding str_eq get_hostname clean_url
clean_parsed host rec (inl e) = []
clean_parsed host rec (inr u) = if str_eq (get_hostname u) host then clean_url u (some rec) else []

clean_parsed-same :
    (host : Bytes) (f g : Clean) (o : Bytes ⊎ Url)
    → ((s : Bytes) (u : Url) → o ≡ inr u → f s u ≡ g s u)
    → clean_parsed host f o ≡ clean_parsed host g o
unfolding clean_parsed
clean_parsed-same host f g (inl e) h = refl
clean_parsed-same host f g (inr u) h = rw (clean_url-same f g u (λ s. h s u refl)) refl

module _ (parse : Bytes → Bytes ⊎ Url) where
  -- the shortcode of the URL in a query, where there is one
  unfoldable pub clean_target : Bytes → Clean → Bytes → Bytes
  unfolding str_eq clean_parsed
  clean_target host rec target =
      if str_eq target [] then [] else clean_parsed host rec (parse target)

  pub clean_target-same :
      (host : Bytes) (f g : Clean) (target : Bytes)
      → ((s : Bytes) (u : Url) → target ≢ [] → parse target ≡ inr u → f s u ≡ g s u)
      → clean_target host f target ≡ clean_target host g target
  unfolding clean_target
  clean_target-same host f g target h = elim (Bool-cases (str_eq target [])) [
    | inl e ↦ rw e refl
    | inr e ↦
        let n : target ≢ [] = λ k. differ ((str_eq_iff target []).1 k) e in
        rw (clean_parsed-same host f g (parse target) (λ s u. h s u n)) refl
  ]
    where
      differ : {b : Bool} → b ≡ true → b ≡ false → ⊥
      differ p q = ground arith

  -- `clean_by` calls the function for the URL in the query, and for no other.
  abbrev pub OnlyTarget : (Url → Bytes) → (Clean → Clean) → Type 0
  OnlyTarget target clean_by =
      (f g : Clean) (s : Bytes) (u : Url)
      → ((s' : Bytes) (u' : Url) → target u ≢ [] → parse (target u) ≡ inr u' → f s' u' ≡ g s' u')
      → clean_by f s u ≡ clean_by g s u

  -- A URL in the query of a URL is smaller than that.
  abbrev pub Shrinks : (Url → Bytes) → (Url → ℕ) → Type 0
  Shrinks target size = (u u' : Url) → target u ≢ [] → parse (target u) ≡ inr u' → size u' < size u

  module _ {target : Url → Bytes} {size : Url → ℕ} {clean_by : Clean → Clean}
      (smaller : Shrinks target size) (only : OnlyTarget target clean_by) where
    fuel_enough :
        (f g : ℕ) (s : Bytes) (u : Url)
        → size u < f
        → size u < g
        → on_fuel clean_by f s u ≡ on_fuel clean_by g s u
    unfolding on_fuel
    fuel_enough zero g s u h k = absurd (omega arith)
    fuel_enough (suc f) zero s u h k = absurd (omega arith)
    fuel_enough (suc f) (suc g) s u h k =
        only (on_fuel clean_by f) (on_fuel clean_by g) s u (λ s' u' n e.
          let l = smaller u u' n e in fuel_enough f g s' u' (omega arith) (omega arith))

    pub on_fuel-fixed :
        (s : Bytes) (u : Url)
        → on_fuel clean_by (suc (size u)) s u
          ≡ clean_by (λ s' u'. on_fuel clean_by (suc (size u')) s' u') s u
    unfolding on_fuel
    on_fuel-fixed s u =
        only (on_fuel clean_by (size u)) (λ s' u'. on_fuel clean_by (suc (size u')) s' u') s u
          (λ s' u' n e.
            let l = smaller u u' n e in
            fuel_enough (size u) (suc (size u')) s' u' (omega arith) (omega arith))

-- Where no URL has a URL in its query, the length of a target is such a measure.
pub flat-Shrinks :
    (target : Url → Bytes) (flat : Bytes → Url)
    → ((s : Bytes) → target (flat s) ≡ [])
    → Shrinks (λ s. inr (flat s)) target (λ u. length (target u))
flat-Shrinks target flat h u u' n e =
    subst (λ v. length (target v) < length (target u)) (inr_same e)
      (rw (h (target u)) (positive (target u) n))
  where
    inr_same : {v w : Url} → ◌≡◌ {A = Bytes ⊎ Url} (inr v) (inr w) → v ≡ w
    inr_same p = ground arith

    positive : (t : Bytes) → t ≢ [] → 0 < length t
    positive [] h = absurd (h refl)
    positive (x ∷ t) h = omega arith
