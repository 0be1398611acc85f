-- ===== src/Web.antt =====
-- What the packages read of an answer over HTTP, and the values of a query. `E` are the errors of
-- `net/http` and of the decoders.
use mathlib.Core.Sum.{inr-injective}
use urlhero.Common.{
  refl, ◌≡◌, ◌↔◌, arith, Bool-cases, ==_iff, ap, sym, subst, ok-injective, str_eq_iff, ℕ, List, [],
  ◌∷◌, ◌⊎◌, inl, inr, Outcome, ok, err, Bytes, str_eq, ◌==◌, if◌then◌else◌, Source, IoError, eof,
  other,
}

pub record Response : Type 0 where
  pub status_code : ℕ
  pub status : Bytes
  pub header : Bytes → Bytes
  pub body : Source

pub data WebError (E : Type 0) : Type 0 where
  external : E → WebError E
  http_status : Bytes → WebError E
  copy_error : ℕ → WebError E

abbrev pub or_external : {E A : Type 0} → E ⊎ A → Outcome (WebError E) A
or_external (inl e) = err (external e)
or_external (inr a) = ok a

-- An answer, unless its status is another than `http.StatusOK`.
unfoldable pub require_ok : {E : Type 0} → E ⊎ Response → Outcome (WebError E) Response
require_ok (inl e) = err (external e)
require_ok (inr resp) = if resp.status_code == 200 then ok resp else err (http_status resp.status)

-- the error of `io.Copy`, for which the end of the input is none
abbrev pub copy_result : {E : Type 0} → IoError → Outcome (WebError E) Unit
copy_result eof = ok tt
copy_result (other n) = err (copy_error n)

pub require_ok_iff :
    {E : Type 0} (r : E ⊎ Response) (resp : Response)
    → (require_ok r ≡ ok resp) ↔ ((r ≡ inr resp) × (resp.status_code ≡ 200))
unfolding require_ok
require_ok_iff (inl e) resp = (λ h. absurd (ground arith), λ h. absurd (ground arith))
require_ok_iff (inr answer) resp = elim (Bool-cases (answer.status_code == 200)) [
  | inl e ↦
      let is_200 = (==_iff answer.status_code 200).0 e in
      (
        λ h.
            let same = ok-injective (rw e at h) in
            (ap inr same, subst (λ a. a.status_code ≡ 200) same is_200),
        λ h. rw e (ap ok (inr-injective answer resp h.0)),
      )
  | inr e ↦ (
    λ h. absurd (ground arith),
    λ h.
        let is_200 = subst (λ a. a.status_code ≡ 200) (sym (inr-injective answer resp h.0)) h.1 in
        absurd (ground arith),
  )
]

pub or_external_iff : {E A : Type 0} (r : E ⊎ A) (a : A) → (or_external r ≡ ok a) ↔ (r ≡ inr a)
or_external_iff (inl e) a = (λ h. absurd (ground arith), λ h. absurd (ground arith))
or_external_iff (inr b) a = (λ h. ap inr (ok-injective h), λ h. ap ok (inr-injective b a h))

-- `url.Values` with one value for each key
abbrev pub Values : Type 0
Values = List (Bytes × Bytes)

-- `Set`
unfoldable pub set : Values → Bytes → Bytes → Values
unfolding str_eq
set [] key value = (key, value) ∷ []
set ((k, v) ∷ q) key value = if str_eq key k then (key, value) ∷ q else (k, v) ∷ set q key value

-- `Get`, which gives the empty string for a key that is not there
unfoldable pub get : Values → Bytes → Bytes
unfolding str_eq
get [] key = []
get ((k, v) ∷ q) key = if str_eq key k then v else get q key

-- The value of any key after one is set.
pub get-set :
    (q : Values) (key value j : Bytes)
    → get (set q key value) j ≡ (if str_eq j key then value else get q j)
unfolding get set
get-set [] key value j = refl
get-set ((k, v) ∷ q) key value j =
    ground (arith, str_eq_iff key k, str_eq_iff j k, str_eq_iff j key, get-set q key value j)

pub copy_result-ok :
    {E : Type 0} (e : IoError)
    → ◌≡◌ {A = Outcome (WebError E) Unit} (copy_result e) (ok tt)
    → e ≡ eof
copy_result-ok eof h = refl
copy_result-ok (other n) h = cc
