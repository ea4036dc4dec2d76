-- ===== src/Http.antt =====
-- Requests and responses as the handlers of internal/modules/*/api see them, and the parts of net/http and
-- internal/platform/httpx/response.go that they use.
pub mod ETag
pub mod Answers
pub mod Auth
use Prim.Native.Char.{code}
use Prim.Native.String.{◌++◌ as ◌⧺◌}
use forge_platform.Base.{
  ℕ, String, Bool, ◌&&◌, if◌then◌else◌, Option, none, some, List, [], ◌∷◌, ◌++◌, ◌==◌, str_eq,
}
use forge_platform.Base.Text.{is_empty}
use forge_platform.Base.Decimal.{format_int, parse_int}
use forge_platform.Apperr.{GoError, Result, ok, err, validation_error}
use forge_platform.Apperr.Status.{ErrorBody, error_response}
use forge_platform.Db.{World, Act}

-- A request: Header.Get, URL.Query().Get, chi.URLParam, and the correlation id of its context.
pub record Request : Type 0 where
  pub header : String → String
  pub parameter : String → String
  pub url_param : String → String
  pub correlation_id : String

-- What the decoder makes of a body: a value, or its error's text.
pub data Decoded (B : Type 0) : Type 0 where
  decoded : B → Decoded B
  undecodable : String → Decoded B

-- A body: an encoded value, an error, or bytes that were stored.
pub data Content (A : Type 0) : Type 0 where
  value : A → Content A
  failed : ErrorBody → Content A
  stored : String → Content A

pub record Response (A : Type 0) : Type 0 where
  pub status : ℕ
  pub headers : List (String × String)
  pub content : Content A

-- Page
pub record Page (A : Type 0) : Type 0 where
  pub items : List A
  pub next_cursor : String

abbrev pub json_type : String × String
json_type = ("Content-Type", "application/json; charset=utf-8")

-- JSON, after the headers that were set before it.
abbrev pub json : {A : Type 0} → List (String × String) → ℕ → Content A → Response A
json headers status content = record {
  status = status;
  headers = headers ++ json_type ∷ [];
  content = content;
}

-- Error
unfoldable pub error_answer : {A : Type 0} → Request → GoError → Response A
error_answer r e =
    let (status, body) = error_response r.correlation_id e in json [] status (failed body)

-- `if err != nil { httpx.Error(w, r, err); return }`, and the rest of the handler where there is none.
unfoldable pub answered : {A B : Type 0} → Request → (A → Response B) → Result A → Response B
answered r respond (ok a) = respond a
answered r respond (err e) = error_answer r e

unfoldable pub answer :
    {A B : Type 0} → Request → Act A → (A → Response B) → World → Response B × World
unfolding answered
answer r m respond w = let (result, w') = m w in (answered r respond result, w')

abbrev pub invalid_json : String → GoError
invalid_json reason = validation_error "INVALID_BODY" ("request body is not valid JSON: " ⧺ reason)

-- `if !httpx.Decode(w, r, &req) { return }`
unfoldable pub decode :
    {A B : Type 0}
    → Request
    → Decoded B
    → (B → World → Response A × World)
    → World
    → Response A × World
decode r (undecodable reason) next w = (error_answer r (invalid_json reason), w)
decode r (decoded b) next w = next b w

abbrev pub is_quote : ℕ → Bool
is_quote c = c == 34

strip_left : String → String
strip_left String.[] = ""
strip_left (String.◌∷◌ c s) =
    let rest = strip_left s in if is_quote (code c) then rest else String.◌∷◌ c s

strip_right : String → String
strip_right String.[] = ""
strip_right (String.◌∷◌ c s) =
    let rest = strip_right s in if is_empty rest && is_quote (code c) then "" else String.◌∷◌ c rest

-- strings.Trim(s, `"`)
unfoldable pub trim_quotes : String → String
unfolding strip_left strip_right
trim_quotes s = strip_right (strip_left s)

version_of : Option ℕ → ℕ
version_of none = 0
version_of (some v) = v

-- ifMatch
unfoldable pub if_match : Request → ℕ
unfolding version_of
if_match r =
    let raw = trim_quotes (r.header "If-Match") in
    if str_eq raw "" then 0 else version_of (parse_int raw)

-- setETag
unfoldable pub etag : ℕ → String × String
etag version = ("ETag", format_int version)
