-- ===== src/Apperr.antt =====
-- internal/platform/apperr/apperr.go: the errors that carry a kind and a code, Go's wrapping of errors,
-- and the HTTP status that an error is answered with.
pub mod Status
use forge_platform.Base.{ℕ, String, List, [], ◌++◌, Option, none, some, ◌≡◌, refl, ◌⊎◌, inl, inr}

pub data Kind : Type 0 where
  internal validation not_found conflict unauthorized forbidden precondition_failed : Kind
  too_many_requests unavailable : Kind

-- A Go `error`: an *apperr.Error without and with a cause, a plain error with its text, and a
-- text that wraps another error (`%w`).
pub data GoError : Type 0 where
  app : Kind → String → String → List String → GoError
  caused : Kind → String → String → List String → GoError → GoError
  plain : String → GoError
  wrapped : String → GoError → GoError

pub data Result {ℓ} (A : Type ℓ) : Type ℓ where
  ok : A → Result A
  err : GoError → Result A

infixl 5 ◌>>=◌
abbrev pub ◌>>=◌ {ℓ κ} : {A : Type ℓ} {B : Type κ} → Result A → (A → Result B) → Result B
ok a >>= f = f a
err e >>= f = err e

-- What a caller of errors.As reads of an *apperr.Error.
pub record AppError : Type 0 where
  pub kind : Kind
  pub code : String
  pub message : String
  pub details : List String

-- New
abbrev pub new : Kind → String → String → GoError
new kind code message = app kind code message []

abbrev pub validation_error : String → String → GoError
validation_error = new validation

abbrev pub not_found_error : String → String → GoError
not_found_error = new not_found

abbrev pub conflict_error : String → String → GoError
conflict_error = new conflict

abbrev pub unauthorized_error : String → String → GoError
unauthorized_error = new unauthorized

abbrev pub forbidden_error : String → String → GoError
forbidden_error = new forbidden

abbrev pub precondition_error : String → String → GoError
precondition_error = new precondition_failed

abbrev pub too_many_requests_error : String → String → GoError
too_many_requests_error = new too_many_requests

abbrev pub internal_error : String → String → GoError
internal_error = new internal

abbrev pub unavailable_error : String → String → GoError
unavailable_error = new unavailable

-- WithCause; the receiver is an *Error, so the other cases are not reached.
abbrev pub with_cause : GoError → GoError → GoError
with_cause (app k c m d) cause = caused k c m d cause
with_cause (caused k c m d _) cause = caused k c m d cause
with_cause (plain m) cause = plain m
with_cause (wrapped m e) cause = wrapped m e

-- WithDetails
abbrev pub with_details : GoError → List String → GoError
with_details (app k c m d) more = app k c m (d ++ more)
with_details (caused k c m d cause) more = caused k c m (d ++ more) cause
with_details (plain m) more = plain m
with_details (wrapped m e) more = wrapped m e

-- Unwrap
unfoldable pub unwrap : GoError → Option GoError
unwrap (app k c m d) = none
unwrap (caused k c m d cause) = some cause
unwrap (plain m) = none
unwrap (wrapped m e) = some e

-- As: errors.As walks the chain of wrapped errors to the first *apperr.Error.
unfoldable pub as_app : GoError → Option AppError
as_app (app k c m d) = some (record { kind = k; code = c; message = m; details = d })
as_app (caused k c m d cause) = some (record { kind = k; code = c; message = m; details = d })
as_app (plain m) = none
as_app (wrapped m e) = as_app e

-- The `switch` of HTTPStatus.
unfoldable pub kind_status : Kind → ℕ
kind_status validation = 422
kind_status not_found = 404
kind_status conflict = 409
kind_status unauthorized = 401
kind_status forbidden = 403
kind_status precondition_failed = 412
kind_status too_many_requests = 429
kind_status unavailable = 503
kind_status internal = 500

status_of : Option AppError → ℕ
status_of none = 500
status_of (some e) = kind_status e.kind

-- HTTPStatus
unfoldable pub http_status : GoError → ℕ
unfolding status_of as_app kind_status
http_status e = status_of (as_app e)

-- To split on a computed result and keep the equation.
pub Result-cases {ℓ} :
    {A : Type ℓ} (r : Result A) → ((a : A) × (r ≡ ok a)) ⊎ ((e : GoError) × (r ≡ err e))
Result-cases (ok a) = inl (a, refl)
Result-cases (err e) = inr (e, refl)

pub ok-injective {ℓ} : {A : Type ℓ} {a b : A} → ok a ≡ ok b → a ≡ b
ok-injective h = cc
