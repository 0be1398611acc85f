-- ===== src/Common/Calls.antt =====
-- What a call of a Go function comes to: a value, an error value, a run-time panic, or, in a
-- model that recurs on fuel, no return within the fuel.

use mathlib.Core.Bool.{true, false}
use mathlib.Core.Path.{◌≡◌, refl, ap}

pub data Outcome (E : Type 0) (A : Type 0) : Type 0 where
  ok : A → Outcome E A
  err : E → Outcome E A
  panic : Outcome E A
  hang : Outcome E A

-- The call returned, with a value or with an error.
abbrev pub Returns : {E A : Type 0} → Outcome E A → Type 0
Returns (ok a) = Unit
Returns (err e) = Unit
Returns panic = ⊥
Returns hang = ⊥

-- `if err != nil { return err }`, and then the rest
infixl 5 ◌>>=◌
abbrev pub ◌>>=◌ : {E A B : Type 0} → Outcome E A → (A → Outcome E B) → Outcome E B
ok a >>= rest = rest a
err e >>= rest = err e
panic >>= rest = panic
hang >>= rest = hang

-- Where the whole returned a value, so did the first part.
pub >>=-ok :
    {E A B : Type 0} (m : Outcome E A) (rest : A → Outcome E B) {b : B}
    → (m >>= rest) ≡ ok b
    → (a : A) × (m ≡ ok a) × (rest a ≡ ok b)
>>=-ok (ok a) rest h = (a, refl, h)
>>=-ok (err e) rest h = cc
>>=-ok panic rest h = cc
>>=-ok hang rest h = cc

-- the value, or `a` where there is none
abbrev ok_or : {E A : Type 0} → A → Outcome E A → A
ok_or a (ok b) = b
ok_or a (err e) = a
ok_or a panic = a
ok_or a hang = a

pub ok-injective : {E A : Type 0} {a b : A} → ◌≡◌ {A = Outcome E A} (ok a) (ok b) → a ≡ b
ok-injective {a} e = ap (ok_or a) e

pub false-true : ¬ (false ≡ true)
false-true h = cc
