-- ===== src/Shorteners/Sorted.antt =====
-- shorteners/shorteners.go: lists in the order of `Sort`, and what `sort.Slice` promises.
use native.Mathlib.Nat.{ℕ_set}
use urlhero.Common.{
  ℕ, ◌+◌, ◌≤◌, Bool, true, false, ◌||◌, List, [], ◌∷◌, ◌++◌, ◌≡◌, ◌↔◌, ◌⊎◌, inl, inr, refl, sym, ap,
  ap₂, ◌∙◌, subst, arith, Bytes, str_eq, str_eq_iff, Bool-cases, All, if◌then◌else◌,
}
use mathlib.Core.Logic.{∥∥₁_elim}
use mathlib.Core.List.{Perm, Permᴰ}
use urlhero.Shorteners.{contains}

pub record StrictOrder (lt : Bytes → Bytes → Bool) : Type 0 where
  pub irrefl : (a : Bytes) → lt a a ≡ false
  pub trans : (a b c : Bytes) → lt a b ≡ true → lt b c ≡ true → lt a c ≡ true
  pub total : (a b : Bytes) → lt a b ≡ false → lt b a ≡ false → a ≡ b

-- No element is less than an earlier one.
abbrev pub IsSorted : (Bytes → Bytes → Bool) → List Bytes → Type 0
IsSorted lt [] = Unit
IsSorted lt (x ∷ xs) = All (λ y. lt y x ≡ false) xs × IsSorted lt xs

-- Each element is less than all later ones.
abbrev pub Ascending : (Bytes → Bytes → Bool) → List Bytes → Type 0
Ascending lt [] = Unit
Ascending lt (x ∷ xs) = All (λ y. lt x y ≡ true) xs × Ascending lt xs

-- The documentation of `sort.Slice`, for the orders used here. It is not stable, and the order of
-- equal elements is not said.
pub record SortsSlices (sort_slice : (Bytes → Bytes → Bool) → List Bytes → List Bytes)
    : Type 0 where
  pub perm :
      {lt : Bytes → Bytes → Bool} → StrictOrder lt → (xs : List Bytes) → Perm (sort_slice lt xs) xs
  pub sorted :
      {lt : Bytes → Bytes → Bool}
      → StrictOrder lt
      → (xs : List Bytes) → IsSorted lt (sort_slice lt xs)

-- how often `c` stands in the list
unfoldable pub occ : Bytes → List Bytes → ℕ
occ c [] = 0
occ c (x ∷ xs) = (if str_eq c x then 1 else 0) + occ c xs

Permᴰ-occ : (c : Bytes) {xs ys : List Bytes} → Permᴰ xs ys → occ c xs ≡ occ c ys
unfolding occ
Permᴰ-occ c Permᴰ.nil = refl
Permᴰ-occ c (Permᴰ.cons e p) = ap₂ (λ x n. (if str_eq c x then 1 else 0) + n) e (Permᴰ-occ c p)
Permᴰ-occ c (Permᴰ.swap {l = l} e e') = rw (e, e') (omega arith)
Permᴰ-occ c (Permᴰ.trans p q) = Permᴰ-occ c p ∙ Permᴰ-occ c q

pub occ-perm : (c : Bytes) {xs ys : List Bytes} → Perm xs ys → occ c xs ≡ occ c ys
occ-perm c p = ∥∥₁_elim p (ℕ_set _ _) (Permᴰ-occ c)

pub contains_iff_occ : (c : Bytes) (xs : List Bytes) → (contains c xs ≡ true) ↔ (1 ≤ occ c xs)
unfolding contains occ
contains_iff_occ c [] = ground arith
contains_iff_occ c (x ∷ xs) = ground (arith, contains_iff_occ c xs)

pub contains-perm : (c : Bytes) {xs ys : List Bytes} → Perm xs ys → contains c xs ≡ contains c ys
contains-perm c {xs} {ys} p =
    let same = occ-perm c p in
    let left = contains_iff_occ c xs in let right = contains_iff_occ c ys in ground arith

pub contains-append :
    (c : Bytes) (xs : List Bytes) (y : Bytes)
    → contains c (xs ++ y ∷ []) ≡ (contains c xs || str_eq c y)
unfolding contains
contains-append c [] y = ground arith
contains-append c (x ∷ xs) y = ground (arith, contains-append c xs y)

pub occ-append :
    (c : Bytes) (xs : List Bytes) (y : Bytes)
    → occ c (xs ++ y ∷ []) ≡ occ c xs + (if str_eq c y then 1 else 0)
unfolding occ
occ-append c [] y = omega arith
occ-append c (x ∷ xs) y = omega (arith, occ-append c xs y)

pub contains_nil : (c : Bytes) → ¬ (contains c [] ≡ true)
unfolding contains
contains_nil c e = ground arith

pub contains_head : (c : Bytes) (xs : List Bytes) → contains c (c ∷ xs) ≡ true
unfolding contains
contains_head c xs = rw ((str_eq_iff c c).1 refl) refl

pub contains_cons :
    (c y : Bytes) (xs : List Bytes) → contains c (y ∷ xs) ≡ true → (c ≡ y) ⊎ (contains c xs ≡ true)
unfolding contains
contains_cons c y xs m = ground (arith, str_eq_iff c y)

same_tail :
    (c x : Bytes) (xs ys : List Bytes)
    → contains x xs ≡ false
    → contains x ys ≡ false
    → contains c (x ∷ xs) ≡ contains c (x ∷ ys)
    → contains c xs ≡ contains c ys
unfolding contains
same_tail c x xs ys hx hy e = elim (Bool-cases (str_eq c x)) [
  | inl r ↦
      let cx : c ≡ x = (str_eq_iff c x).0 r in
      ap (λ z. contains z xs) cx ∙ hx ∙ sym (ap (λ z. contains z ys) cx ∙ hy)
  | inr r ↦ ground arith
]

module _ {lt : Bytes → Bytes → Bool} (o : StrictOrder lt) where
  above :
      (x : Bytes) (xs : List Bytes)
      → occ x xs ≡ 0
      → All (λ y. lt y x ≡ false) xs
      → All (λ y. lt x y ≡ true) xs
  unfolding occ
  above x [] z h = tt
  above x (y ∷ xs) z (hy, hs) =
      let yx = o.total x y in
      let e = (str_eq_iff x y).1 in (ground arith, above x xs (omega arith) hs)

  pub sorted-Ascending :
      (xs : List Bytes) → ((c : Bytes) → occ c xs ≤ 1) → IsSorted lt xs → Ascending lt xs
  unfolding occ
  sorted-Ascending [] d h = tt
  sorted-Ascending (x ∷ xs) d (hx, hs) =
      let r = (str_eq_iff x x).1 refl in
      let dx = d x in
      (above x xs (ground arith) hx, sorted-Ascending xs (λ c. ground (arith, d c)) hs)

  lt_of_mem :
      (x c : Bytes) (xs : List Bytes)
      → All (λ y. lt x y ≡ true) xs
      → contains c xs ≡ true
      → lt x c ≡ true
  lt_of_mem x c [] h m = absurd (contains_nil c m)
  lt_of_mem x c (y ∷ xs) (hy, hs) m = elim (contains_cons c y xs m) [
    | inl e ↦ subst (λ z. lt x z ≡ true) (sym e) hy
    | inr k ↦ lt_of_mem x c xs hs k
  ]

  not_in_tail : (x : Bytes) (xs : List Bytes) → All (λ y. lt x y ≡ true) xs → contains x xs ≡ false
  not_in_tail x xs h = let k = lt_of_mem x x xs h in let i = o.irrefl x in ground arith

  heads :
      (x y : Bytes) (xs ys : List Bytes)
      → Ascending lt (x ∷ xs)
      → Ascending lt (y ∷ ys)
      → contains x (y ∷ ys) ≡ true
      → contains y (x ∷ xs) ≡ true
      → x ≡ y
  heads x y xs ys (hx, _) (hy, _) mx my = elim (contains_cons x y ys mx) [
    | inl e ↦ e
    | inr k ↦ elim (contains_cons y x xs my) [
      | inl e ↦ sym e
      | inr k' ↦
          let xx = o.trans x y x (lt_of_mem x y xs hx k') (lt_of_mem y x ys hy k) in
          let i = o.irrefl x in ground arith
    ]
  ]

  -- The elements determine an ascending list.
  pub Ascending-unique :
      (xs ys : List Bytes)
      → Ascending lt xs
      → Ascending lt ys
      → ((c : Bytes) → contains c xs ≡ contains c ys)
      → xs ≡ ys
  Ascending-unique [] [] a b h = refl
  Ascending-unique [] (y ∷ ys) a b h = absurd (contains_nil y (h y ∙ contains_head y ys))
  Ascending-unique (x ∷ xs) [] a b h = absurd (contains_nil x (sym (h x) ∙ contains_head x xs))
  Ascending-unique (x ∷ xs) (y ∷ ys) a b h =
      let e : x ≡ y =
        heads x y xs ys a b (sym (h x) ∙ contains_head x xs) (h y ∙ contains_head y ys) in
      ap₂ ◌∷◌ e (
        Ascending-unique xs ys a.1 b.1 (λ c.
          same_tail c x xs ys (not_in_tail x xs a.0) (rw e (not_in_tail y ys b.0))
            (h c ∙ ap (λ z. contains c (z ∷ ys)) (sym e))))
