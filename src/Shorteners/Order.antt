-- ===== src/Shorteners/Order.antt =====
-- shorteners/shorteners.go: the order of `Sort` is strict and total.
use urlhero.Common.{
  Bool, true, false, not, ◌&&◌, ◌||◌, Option, none, some, [], ◌∷◌, ◌≡◌, refl, arith, Bytes, str_lt,
}
use urlhero.Shorteners.{shorter, bool_eq, less}

pub str_lt_irrefl : (a : Bytes) → str_lt a a ≡ false
unfolding str_lt
str_lt_irrefl [] = refl
str_lt_irrefl (x ∷ a) = ground (arith, str_lt_irrefl a)

pub str_lt_trans : (a b c : Bytes) → str_lt a b ≡ true → str_lt b c ≡ true → str_lt a c ≡ true
unfolding str_lt
str_lt_trans (x ∷ a) (y ∷ b) (z ∷ c) = ground (arith, str_lt_trans a b c)
str_lt_trans [] [] c = ground arith
str_lt_trans [] (y ∷ b) [] = ground arith
str_lt_trans [] (y ∷ b) (z ∷ c) = ground arith
str_lt_trans (x ∷ a) [] c = ground arith
str_lt_trans (x ∷ a) (y ∷ b) [] = ground arith

pub str_lt_total : (a b : Bytes) → str_lt a b ≡ false → str_lt b a ≡ false → a ≡ b
unfolding str_lt
str_lt_total [] [] = ground arith
str_lt_total (x ∷ a) (y ∷ b) = ground (arith, str_lt_total a b)
str_lt_total [] (y ∷ b) = ground arith
str_lt_total (x ∷ a) [] = ground arith

shorter_irrefl : (a : Bytes) → shorter a a ≡ false
shorter_irrefl a = ground (arith, str_lt_irrefl a)

shorter_trans : (a b c : Bytes) → shorter a b ≡ true → shorter b c ≡ true → shorter a c ≡ true
shorter_trans a b c = ground (arith, str_lt_trans a b c)

shorter_total : (a b : Bytes) → shorter a b ≡ false → shorter b a ≡ false → a ≡ b
shorter_total a b h k = ground (arith, str_lt_total a b)

-- generated codes before vanity codes, then `s`
abbrev vanity_last : Bool → Bool → Bool → Bool
vanity_last p q s = (bool_eq p q && s) || (not p && q)

vanity_last_irrefl : (p s : Bool) → s ≡ false → vanity_last p p s ≡ false
vanity_last_irrefl true s = ground arith
vanity_last_irrefl false s = ground arith

vanity_last_trans :
    (p q r s t u : Bool)
    → (s ≡ true → t ≡ true → u ≡ true)
    → vanity_last p q s ≡ true
    → vanity_last q r t ≡ true
    → vanity_last p r u ≡ true
vanity_last_trans true q r s t u = ground arith
vanity_last_trans false q r s t u = ground arith

vanity_last_total :
    (p q s t : Bool)
    → vanity_last p q s ≡ false
    → vanity_last q p t ≡ false
    → (s ≡ false) × (t ≡ false)
vanity_last_total true true s t = ground arith
vanity_last_total true false s t = ground arith
vanity_last_total false true s t = ground arith
vanity_last_total false false s t = ground arith

pub less_irrefl : (v : Option (Bytes → Bool)) (a : Bytes) → less v a a ≡ false
unfolding less
less_irrefl none a = shorter_irrefl a
less_irrefl (some v) a = vanity_last_irrefl (v a) _ (shorter_irrefl a)

pub less_trans :
    (v : Option (Bytes → Bool)) (a b c : Bytes)
    → less v a b ≡ true
    → less v b c ≡ true
    → less v a c ≡ true
unfolding less
less_trans none a b c = shorter_trans a b c
less_trans (some v) a b c = vanity_last_trans (v a) (v b) (v c) _ _ _ (shorter_trans a b c)

pub less_total :
    (v : Option (Bytes → Bool)) (a b : Bytes) → less v a b ≡ false → less v b a ≡ false → a ≡ b
unfolding less
less_total none a b h k = shorter_total a b h k
less_total (some v) a b h k =
    let (h', k') = vanity_last_total (v a) (v b) (shorter a b) (shorter b a) h k in
    shorter_total a b h' k'
