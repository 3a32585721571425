-- ===== src/Kube/Errors.antt =====
-- Go errors as values, and fallible results.
use k0smotron.Prelude.{
  Bool, true, false, String, List, Option, some, none, ◌≡◌, ◌⊎◌, inl, inr, refl,
}

-- What a request to an API server answers when it fails. The controllers only ask whether it is
-- a "not found".
pub data ApiError : Type 0 where
  not_found : ApiError
  refused : String → ApiError

-- `wrap` is fmt.Errorf with %w, its text in pieces; `fault` is a nil dereference.
pub data Error : Type 0 where
  api : ApiError → Error
  plain : List String → Error
  wrap : List String → Error → Error
  fault : Error

pub data Result {ℓ} (E A : Type ℓ) : Type ℓ where
  ok : A → Result E A
  err : E → Result E A

pub Result-cases {ℓ} :
    {E A : Type ℓ} (r : Result E A) → ((a : A) × (r ≡ ok a)) ⊎ ((e : E) × (r ≡ err e))
Result-cases (ok a) = inl (a, refl)
Result-cases (err e) = inr (e, refl)

-- apierrors.IsNotFound, which looks through wrapped errors
pub is_not_found : Error → Bool
is_not_found (api not_found) = true
is_not_found (api (refused t)) = false
is_not_found (plain t) = false
is_not_found (wrap t e) = is_not_found e
is_not_found fault = false

-- The `err` of a `(value, err)` pair.
abbrev pub error_of {ℓ} : {E A : Type ℓ} → Result E A → Option E
error_of (ok a) = none
error_of (err e) = some e

-- `x, err := ...; if err != nil { return wrapped }`
abbrev pub and_then {ℓ} : {E A B : Type ℓ} → Result E A → (A → Result E B) → Result E B
and_then (ok a) f = f a
and_then (err e) f = err e

abbrev pub map_err {ℓ} : {E F A : Type ℓ} → (E → F) → Result E A → Result F A
map_err f (ok a) = ok a
map_err f (err e) = err (f e)
