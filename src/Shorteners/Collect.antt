-- ===== src/Shorteners/Collect.antt =====
-- shorteners/shorteners.go: which shortcodes `CleanURLs` collects.
use urlhero.Common.{
  ◌≤◌, Bool, true, false, ◌||◌, Option, List, [], ◌∷◌, ◌++◌, ◌≡◌, ◌≢◌, ◌↔◌, ◌⊎◌, inl, inr, refl,
  sym, ap, ◌∙◌, subst, arith, Bytes, str_eq, str_eq_iff, Bool-cases,
}
use urlhero.Shorteners.{Url, Shortener, CleanError, Cleaning, contains, less}
use urlhero.Shorteners.Clean.{clean, add_shortcode, clean_step, clean_loop, clean_urls}
use urlhero.Shorteners.Sorted.{
  StrictOrder, SortsSlices, Ascending, occ, occ-perm, contains-perm, contains_cons, contains_head,
  contains_nil, contains_iff_occ, contains-append, occ-append, sorted-Ascending, Ascending-unique,
}
use urlhero.Shorteners.Order.{less_irrefl, less_trans, less_total}

abbrev less_order : (v : Option (Bytes → Bool)) → StrictOrder (less v)
less_order v = record { irrefl = less_irrefl v; trans = less_trans v; total = less_total v }

-- The map has the shortcodes of the list as its keys, and none is repeated.
record IsCleaning (r : Cleaning) : Type 0 where
  same_keys : r.shortcodes_map ≡ r.shortcodes
  no_repeat : (c : Bytes) → occ c r.shortcodes ≤ 1

empty_no_repeat : (c : Bytes) → occ c [] ≤ 1
unfolding occ
empty_no_repeat c = omega arith

same_Bool : {a b : Bool} → (a ≡ true → b ≡ true) → (b ≡ true → a ≡ true) → a ≡ b
same_Bool {a = true} h k = ground arith
same_Bool {a = false} h k = ground arith

contains_later : (c x : Bytes) (xs : List Bytes) → contains c xs ≡ true → contains c (x ∷ xs) ≡ true
unfolding contains
contains_later c x xs m = ground arith

repeat_append :
    (c x : Bytes) (xs : List Bytes)
    → occ c xs ≤ 1
    → contains x xs ≡ false
    → occ c (xs ++ x ∷ []) ≤ 1
repeat_append c x xs h n = elim (Bool-cases (str_eq c x)) [
  | inl e ↦
      let k = subst (λ z. contains z xs ≡ false) (sym ((str_eq_iff c x).0 e)) n in
      rw (occ-append c xs x, e) (ground (arith, contains_iff_occ c xs))
  | inr e ↦ rw (occ-append c xs x, e) (omega arith)
]

absorb :
    (c x : Bytes) (xs : List Bytes)
    → contains x xs ≡ true
    → contains c xs ≡ (contains c xs || str_eq c x)
absorb c x xs h = elim (Bool-cases (str_eq c x)) [
  | inl e ↦ let k = subst (λ z. contains z xs ≡ true) (sym ((str_eq_iff c x).0 e)) h in ground arith
  | inr e ↦ ground arith
]

add_shortcode-IsCleaning :
    (r : Cleaning) (x : Bytes) → IsCleaning r → IsCleaning (add_shortcode r x)
unfolding add_shortcode
add_shortcode-IsCleaning r x w = elim (Bool-cases (contains x r.shortcodes_map)) [
  | inl e ↦ rw e w
  | inr e ↦
      let e' = subst (λ l. contains x l ≡ false) w.same_keys e in
      rw e (record {
        same_keys = ap (λ l. l ++ x ∷ []) w.same_keys;
        no_repeat = λ c. repeat_append c x r.shortcodes (w.no_repeat c) e';
      })
]

add_shortcode-contains :
    (r : Cleaning) (x c : Bytes)
    → IsCleaning r
    → contains c (add_shortcode r x).shortcodes ≡ (contains c r.shortcodes || str_eq c x)
unfolding add_shortcode
add_shortcode-contains r x c w = elim (Bool-cases (contains x r.shortcodes_map)) [
  | inl e ↦ rw e (absorb c x r.shortcodes (subst (λ l. contains x l ≡ true) w.same_keys e))
  | inr e ↦ rw e (contains-append c r.shortcodes x)
]

clean_step-IsCleaning :
    (r : Cleaning) (x : CleanError ⊎ Bytes) → IsCleaning r → IsCleaning (clean_step r x)
unfolding clean_step
clean_step-IsCleaning r (inl e) w = record { same_keys = w.same_keys; no_repeat = w.no_repeat }
clean_step-IsCleaning r (inr x) w = elim (Bool-cases (str_eq x [])) [
  | inl e ↦ rw e w
  | inr e ↦ rw e (add_shortcode-IsCleaning r x w)
]

clean_step-contains :
    (r : Cleaning) (x : CleanError ⊎ Bytes) (c : Bytes)
    → IsCleaning r
    → (contains c (clean_step r x).shortcodes ≡ true)
      ↔ ((contains c r.shortcodes ≡ true) ⊎ ((x ≡ inr c) × (c ≢ [])))
unfolding clean_step
clean_step-contains r (inl e) c w = ground arith
clean_step-contains r (inr x) c w = elim (Bool-cases (str_eq x [])) [
  | inl e ↦ let k = (str_eq_iff x []).0 e in rw e (ground arith)
  | inr e ↦
      let k = (str_eq_iff x []) in
      let l = (str_eq_iff c x) in rw (e, add_shortcode-contains r x c w) (ground arith)
]

module _ (parse : Bytes → Bytes ⊎ Url) where
  -- A URL of the list is cleaned to the shortcode.
  pub data CleansTo (s : Shortener) (c : Bytes) : List Bytes → Type 0 where
    here : {u : Bytes} {urls : List Bytes} → clean parse s u ≡ inr c → CleansTo s c (u ∷ urls)
    there : {u : Bytes} {urls : List Bytes} → CleansTo s c urls → CleansTo s c (u ∷ urls)

  clean_loop-IsCleaning :
      (s : Shortener) (r : Cleaning) (urls : List Bytes)
      → IsCleaning r
      → IsCleaning (clean_loop parse s r urls)
  unfolding clean_loop
  clean_loop-IsCleaning s r [] w = w
  clean_loop-IsCleaning s r (u ∷ urls) w =
      clean_loop-IsCleaning s (clean_step r (clean parse s u)) urls
        (clean_step-IsCleaning r (clean parse s u) w)

  clean_loop-contains :
      (s : Shortener) (r : Cleaning) (urls : List Bytes) (c : Bytes)
      → IsCleaning r
      → (contains c (clean_loop parse s r urls).shortcodes ≡ true)
        ↔ ((contains c r.shortcodes ≡ true) ⊎ ((c ≢ []) × CleansTo s c urls))
  unfolding clean_loop
  clean_loop-contains s r [] c w = (λ h. inl h, λ h. elim h [ inl k ↦ k | inr (_, t) ↦ elim t [ ] ])
  clean_loop-contains s r (u ∷ urls) c w =
      let step = clean_step-contains r (clean parse s u) c w in
      let rest =
        clean_loop-contains s (clean_step r (clean parse s u)) urls c
          (clean_step-IsCleaning r (clean parse s u) w) in
      (
        λ h. elim (rest.0 h) [
          | inl k ↦ elim (step.0 k) [ inl k' ↦ inl k' | inr (e, n) ↦ inr (n, here e) ]
          | inr (n, t) ↦ inr (n, there t)
        ],
        λ h. elim h [
          | inl k ↦ rest.1 (inl (step.1 (inl k)))
          | inr (n, here e) ↦ rest.1 (inl (step.1 (inr (e, n))))
          | inr (n, there t) ↦ rest.1 (inr (n, t))
        ],
      )

  CleansTo-of_contains :
      (s : Shortener) (c u : Bytes) (urls : List Bytes)
      → contains u urls ≡ true
      → clean parse s u ≡ inr c
      → CleansTo s c urls
  CleansTo-of_contains s c u [] m e = absurd (contains_nil u m)
  CleansTo-of_contains s c u (v ∷ urls) m e = elim (contains_cons u v urls m) [
    | inl uv ↦ here (subst (λ z. clean parse s z ≡ inr c) uv e)
    | inr k ↦ there (CleansTo-of_contains s c u urls k e)
  ]

  contained :
      (s : Shortener) (c : Bytes) {urls : List Bytes}
      → CleansTo s c urls
      → (u : Bytes) × (contains u urls ≡ true) × (clean parse s u ≡ inr c)
  contained s c (here {u} {urls} e) = (u, contains_head u urls, e)
  contained s c (there {u} {urls} t) =
      let (v, m, e) = contained s c t in (v, contains_later v u urls m, e)

  CleansTo-same :
      (s : Shortener) (c : Bytes) (urls urls' : List Bytes)
      → ((u : Bytes) → contains u urls ≡ contains u urls')
      → CleansTo s c urls
      → CleansTo s c urls'
  CleansTo-same s c urls urls' h t =
      let (u, m, e) = contained s c t in CleansTo-of_contains s c u urls' (sym (h u) ∙ m) e

  module _ {sort_slice : (Bytes → Bytes → Bool) → List Bytes → List Bytes}
      (sorts : SortsSlices sort_slice) where
    -- The shortcodes are in the order of `Sort` with no repetition, and they are exactly those,
    -- not empty, that a URL of the list is cleaned to, where `sort_slice` sorts.
    pub clean_urls_lem :
        (s : Shortener) (urls : List Bytes)
        → Ascending (less s.is_vanity_func) (clean_urls parse sort_slice s urls).0
          × ((c : Bytes)
              → (contains c (clean_urls parse sort_slice s urls).0 ≡ true)
                ↔ ((c ≢ []) × CleansTo s c urls))
    unfolding clean_urls
    clean_urls_lem s urls =
        let r0 : Cleaning = record { shortcodes_map = []; shortcodes = []; errs = [] } in
        let w0 : IsCleaning r0 = record { same_keys = refl; no_repeat = empty_no_repeat } in
        let r = clean_loop parse s r0 urls in
        let w = clean_loop-IsCleaning s r0 urls w0 in
        let o = less_order s.is_vanity_func in
        let p = sorts.perm o r.shortcodes in
        (
          sorted-Ascending o _ (λ c. rw (occ-perm c p) (w.no_repeat c))
              (sorts.sorted o r.shortcodes),
          λ c.
              let all = clean_loop-contains s r0 urls c w0 in
              (
                λ h. elim (all.0 (sym (contains-perm c p) ∙ h)) [
                  | inl k ↦ absurd (contains_nil c k)
                  | inr t ↦ t
                ],
                λ t. contains-perm c p ∙ all.1 (inr t),
              ),
        )

    -- The shortcodes depend on the set of the URLs only, not on their order or repetition, where
    -- `sort_slice` sorts.
    pub clean_urls_unordered :
        (s : Shortener) (urls urls' : List Bytes)
        → ((u : Bytes) → contains u urls ≡ contains u urls')
        → (clean_urls parse sort_slice s urls).0 ≡ (clean_urls parse sort_slice s urls').0
    clean_urls_unordered s urls urls' h =
        let (a, m) = clean_urls_lem s urls in
        let (a', m') = clean_urls_lem s urls' in
        Ascending-unique (less_order s.is_vanity_func) _ _ a a' (λ c.
          same_Bool (λ k. (m' c).1 (((m c).0 k).0, CleansTo-same s c urls urls' h ((m c).0 k).1))
            (λ k.
              (m c).1
                (((m' c).0 k).0, CleansTo-same s c urls' urls (λ u. sym (h u)) ((m' c).0 k).1)))
