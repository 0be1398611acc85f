-- ===== src/Shorteners/Insertion.antt =====
-- A sort that `sort.Slice` may be: insertion sort.
use urlhero.Common.{
  Bool, true, false, List, [], ◌∷◌, ◌≡◌, inl, inr, sym, subst, arith, Bytes, Bool-cases, All,
  if◌then◌else◌,
}
use mathlib.Core.List.{Perm}
use mathlib.Core.List.Perm
use urlhero.Shorteners.Sorted.{StrictOrder, SortsSlices, IsSorted}

unfoldable insert : (Bytes → Bytes → Bool) → Bytes → List Bytes → List Bytes
insert lt x [] = x ∷ []
insert lt x (y ∷ ys) = let rest = insert lt x ys in if lt y x then y ∷ rest else x ∷ y ∷ ys

unfoldable pub insertion_sort : (Bytes → Bytes → Bool) → List Bytes → List Bytes
unfolding insert
insertion_sort lt [] = []
insertion_sort lt (x ∷ xs) = insert lt x (insertion_sort lt xs)

insert-perm :
    (lt : Bytes → Bytes → Bool) (x : Bytes) (xs : List Bytes) → Perm (insert lt x xs) (x ∷ xs)
unfolding insert
insert-perm lt x [] = Perm.refl (x ∷ [])
insert-perm lt x (y ∷ ys) = elim (Bool-cases (lt y x)) [
  | inl e ↦ rw e (Perm.trans (Perm.cons y (insert-perm lt x ys)) (Perm.swap x y ys))
  | inr e ↦ rw e (Perm.refl (x ∷ y ∷ ys))
]

insertion_sort-perm : (lt : Bytes → Bytes → Bool) (xs : List Bytes) → Perm (insertion_sort lt xs) xs
unfolding insertion_sort
insertion_sort-perm lt [] = Perm.refl []
insertion_sort-perm lt (x ∷ xs) =
    Perm.trans (insert-perm lt x (insertion_sort lt xs)) (Perm.cons x (insertion_sort-perm lt xs))

module _ {lt : Bytes → Bytes → Bool} (o : StrictOrder lt) where
  not_less : (x y z : Bytes) → lt y x ≡ false → lt z y ≡ false → lt z x ≡ false
  not_less x y z yx zy = elim (Bool-cases (lt z x)) [
    | inr e ↦ e
    | inl e ↦ elim (Bool-cases (lt x y)) [
      | inl xy ↦ let t = o.trans z x y e xy in ground arith
      | inr xy ↦ let same = o.total x y xy yx in subst (λ w. lt z w ≡ false) (sym same) zy
    ]
  ]

  All-not_less :
      (x y : Bytes) (zs : List Bytes)
      → lt y x ≡ false
      → All (λ z. lt z y ≡ false) zs
      → All (λ z. lt z x ≡ false) zs
  All-not_less x y [] yx h = tt
  All-not_less x y (z ∷ zs) yx (hz, hs) = (not_less x y z yx hz, All-not_less x y zs yx hs)

  insert-All :
      (w x : Bytes) (xs : List Bytes)
      → lt x w ≡ false
      → All (λ z. lt z w ≡ false) xs
      → All (λ z. lt z w ≡ false) (insert lt x xs)
  unfolding insert
  insert-All w x [] xw h = (xw, tt)
  insert-All w x (y ∷ ys) xw (hy, hs) = elim (Bool-cases (lt y x)) [
    | inl e ↦ rw e (hy, insert-All w x ys xw hs)
    | inr e ↦ rw e (xw, (hy, hs))
  ]

  asym : (x y : Bytes) → lt y x ≡ true → lt x y ≡ false
  asym x y e = elim (Bool-cases (lt x y)) [
    | inr f ↦ f
    | inl t ↦ let loop = o.trans x y x t e in let i = o.irrefl x in ground arith
  ]

  insert-IsSorted : (x : Bytes) (xs : List Bytes) → IsSorted lt xs → IsSorted lt (insert lt x xs)
  unfolding insert
  insert-IsSorted x [] h = (tt, tt)
  insert-IsSorted x (y ∷ ys) (hy, hs) = elim (Bool-cases (lt y x)) [
    | inl e ↦ rw e (insert-All y x ys (asym x y e) hy, insert-IsSorted x ys hs)
    | inr e ↦ rw e ((e, All-not_less x y ys e hy), (hy, hs))
  ]

  insertion_sort-IsSorted : (xs : List Bytes) → IsSorted lt (insertion_sort lt xs)
  unfolding insertion_sort
  insertion_sort-IsSorted [] = tt
  insertion_sort-IsSorted (x ∷ xs) =
      insert-IsSorted x (insertion_sort lt xs) (insertion_sort-IsSorted xs)

pub insertion_sort-SortsSlices : SortsSlices insertion_sort
insertion_sort-SortsSlices = record {
  perm = λ {lt} o xs. insertion_sort-perm lt xs;
  sorted = λ o xs. insertion_sort-IsSorted o xs;
}
