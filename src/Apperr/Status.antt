-- ===== src/Apperr/Status.antt =====
-- The statuses of internal/platform/apperr/apperr.go, and what httpx.Error (internal/platform/httpx/response.go)
-- writes for an error.
use forge_platform.Base.{
  ℕ, ◌<◌, String, ◌≡◌, refl, inl, inr, Option, none, some, List, [], arith, Option-cases,
}
use forge_platform.Apperr.{internal, unavailable, GoError, wrapped, AppError, as_app, http_status}

pub record ErrorBody : Type 0 where
  pub code : String
  pub message : String
  pub details : List String
  pub correlation_id : String

body_of : Option AppError → String → ErrorBody
body_of none cid = record {
  code = "INTERNAL";
  message = "an unexpected error occurred";
  details = [];
  correlation_id = cid;
}
body_of (some e) cid = record {
  code = e.code;
  message = e.message;
  details = e.details;
  correlation_id = cid;
}

-- httpx.Error: the status and the body of the answer to a failed request.
unfoldable pub error_response : String → GoError → ℕ × ErrorBody
unfolding body_of
error_response cid e = (http_status e, body_of (as_app e) cid)

-- A text that wraps an error, any number of times, changes neither its status nor its body.
pub data Wraps : GoError → GoError → Type 0 where
  itself : {e : GoError} → Wraps e e
  outer : {m : String} {d e : GoError} → Wraps d e → Wraps (wrapped m d) e

-- Wrapping an error in any number of texts changes nothing of the answer: status, code, message
-- and details are those of the wrapped error.
pub error_response-Wraps :
    {d e : GoError} (cid : String) → Wraps d e → error_response cid d ≡ error_response cid e
unfolding error_response http_status
error_response-Wraps cid itself = refl
error_response-Wraps cid (outer w) = error_response-Wraps cid w

-- An error that is answered with a status below 500 is or wraps an *apperr.Error, whose kind is
-- neither internal nor unavailable and whose code is the answer's.
pub as_app-http_status :
    (cid : String) (e : GoError)
    → http_status e < 500
    → (a : AppError) × (as_app e ≡ some a)
      × (a.kind ≡ internal → ⊥)
      × (a.kind ≡ unavailable → ⊥)
      × ((error_response cid e).1.code ≡ a.code)
unfolding error_response http_status
as_app-http_status cid e h = elim (Option-cases (as_app e)) [
  | inl none_found ↦ absurd (ground (arith, none_found))
  | inr (a, found) ↦ (a, found, ground arith, ground arith, ground arith)
]
