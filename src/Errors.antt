-- ===== src/Errors.antt =====
-- internal/migration/errors.go: errors as values, and the result of a fallible call. A wrapped error
-- keeps its class; the text is the format of the message, without its arguments.
use migration_manager.Prelude.{String, Bool, true, false, ◌≡◌, refl, ◌⊎◌, inl, inr}

pub data Error : Type 0 where
  -- `ErrNotFound`
  not_found : Error
  -- `ErrConstraintViolation`
  constraint_violation : Error
  -- wraps `ErrOperationNotPermitted`
  not_permitted : String → Error
  -- `ErrValidation`
  validation : String → Error
  -- the incus `StatusError` with code 404
  http_not_found : String → Error
  -- any other error
  failed : String → Error

-- `incusAPI.StatusErrorCheck(err, http.StatusNotFound)`.
abbrev pub is_http_not_found : Error → Bool
is_http_not_found (http_not_found _) = true
is_http_not_found _ = false

pub data Result {ℓ} (A : Type ℓ) : Type ℓ where
  ok : A → Result A
  err : Error → Result A

-- `if err != nil { return err }`.
infixl 5 ◌>>=◌ ◌>>◌
abbrev pub ◌>>=◌ {ℓ} : {A C : Type ℓ} → Result A → (A → Result C) → Result C
err reason >>= next = err reason
ok value >>= next = next value

abbrev pub ◌>>◌ : {C : Type 0} → Result (Unit {0}) → Result C → Result C
check >> rest = check >>= (λ _. rest)

-- `if c { return e }`.
abbrev pub refuse_if : Bool → Error → Result (Unit {0})
refuse_if true e = err e
refuse_if false e = ok tt

-- `err != nil`.
abbrev pub is_err {ℓ} : {A : Type ℓ} → Result A → Bool
is_err (ok _) = false
is_err (err _) = true

pub Result-cases {ℓ} :
    {A : Type ℓ} (r : Result A) → ((a : A) × (r ≡ ok a)) ⊎ ((e : Error) × (r ≡ err e))
Result-cases (ok a) = inl (a, refl)
Result-cases (err e) = inr (e, refl)

pub ok-inj {ℓ} : {A : Type ℓ} {x y : A} → Path (Result A) (ok x) (ok y) → x ≡ y
ok-inj p = cc
