-- ===== src/Http/Auth.antt =====
-- Bearer tokens: internal/platform/httpx/auth.go. The parser of JSON Web Tokens, the fetch of the key set and
-- the decoding of a key are parameters.
pub mod Verified
use forge_platform.Base.{
  ℕ, ◌+◌, ◌-◌, String, Bool, true, false, ◌&&◌, if◌then◌else◌, Option, none, some, List, [], ◌∷◌,
  str_eq, ltb,
}
use forge_platform.Apperr.{GoError, Result, ok, err, unauthorized_error}
use forge_platform.Http.{Request, Response, error_answer}

pub record Principal : Type 0 where
  pub subject : String
  pub email : String
  pub groups : List String

-- claims
pub record Claims : Type 0 where
  pub subject : String
  pub email : String
  pub groups : List String

-- What the header of a token says: its method with the family of it, and its key id.
pub record TokenHeader : Type 0 where
  pub method : String
  pub is_hmac : Bool
  pub is_rsa : Bool
  pub kid : String

-- The options of ParseWithClaims.
pub record Demand : Type 0 where
  pub method : String
  pub issuer : Option String
  pub audience : Option String
  pub expiry : Bool

-- An entry of the document of keys.
pub record Jwk : Type 0 where
  pub kty : String
  pub kid : String
  pub n : String
  pub e : String

-- What the verifiers take from outside. ParseWithClaims reads the header of a token, refuses a method that
-- is not among the valid ones, asks for the key, and checks the token with the key under the options.
pub record Tokens (Key : Type 0) : Type 0 where
  pub header_of : String → Option TokenHeader
  pub check : Demand → Key → String → Option Claims
  pub decode_key : String → String → Option Key
  pub fetch : ℕ → Option (List Jwk)  -- none where the request, its status or its JSON fails
  pub now : ℕ → ℕ  -- the clock, by the number of calls so far

-- JWKSVerifier: its settings, and what it changes.
pub record Verifier : Type 0 where
  pub issuer : String
  pub audience : String
  pub ttl : ℕ

pub record KeySet (Key : Type 0) : Type 0 where
  pub keys : List (String × Key)
  pub fetched : ℕ
  pub calls : ℕ

-- principalFromClaims
abbrev pub principal_from_claims : Claims → Principal
principal_from_claims c = record { subject = c.subject; email = c.email; groups = c.groups }

-- v.keys[kid]
abbrev pub key_at : {Key : Type 0} → String → List (String × Key) → Option Key
key_at kid [] = none
key_at kid ((k, key) ∷ ks) = let rest = key_at kid ks in if str_eq k kid then some key else rest

entered : {Key : Type 0} → String → Option Key → List (String × Key) → Option (List (String × Key))
entered kid none keys = none
entered kid (some key) keys = some ((kid, key) ∷ keys)

-- The loop over the document; a later key of an id replaces an earlier one.
unfoldable pub parse_keys :
    {Key : Type 0} → Tokens Key → List Jwk → List (String × Key) → Option (List (String × Key))
unfolding entered
parse_keys t [] keys = some keys
parse_keys {Key} t (k ∷ ks) keys =
    let skipped = parse_keys t ks keys in
    let kept =
      elim (entered k.kid (t.decode_key k.n k.e) keys) as (λ _. Option (List (String × Key))) [
        | none ↦ none
        | some more ↦ parse_keys t ks more
      ] in
    if str_eq k.kty "RSA" then kept else skipped

parsed : {Key : Type 0} → Tokens Key → Option (List Jwk) → Option (List (String × Key))
parsed t none = none
parsed t (some document) = parse_keys t document []

stored : {Key : Type 0} → Tokens Key → Option (List (String × Key)) → KeySet Key → Bool × KeySet Key
stored t none v = (false, record v { calls = v.calls + 1 })
stored t (some keys) v =
    (true, record { keys = keys; fetched = t.now (v.calls + 1); calls = v.calls + 1 + 1 })

-- refresh: whether it returned no error.
unfoldable pub refresh : {Key : Type 0} → Tokens Key → KeySet Key → Bool × KeySet Key
unfolding parsed stored
refresh t v = stored t (parsed t (t.fetch v.calls)) v

after_refresh : {Key : Type 0} → String → Bool × KeySet Key → Option Key × KeySet Key
after_refresh kid (false, v) = (none, v)
after_refresh kid (true, v) = (key_at kid v.keys, v)

abbrev pub is_fresh : {Key : Type 0} → Tokens Key → Verifier → KeySet Key → Bool
is_fresh t s v = ltb (t.now v.calls - v.fetched) s.ttl

cached :
    {Key : Type 0}
    → Tokens Key
    → Verifier
    → String
    → Option Key
    → KeySet Key
    → Option Key × KeySet Key
unfolding after_refresh
cached t s kid none v = after_refresh kid (refresh t v)
cached t s kid (some key) v =
    let again = after_refresh kid (refresh t v) in if is_fresh t s v then (some key, v) else again

-- keyForKID; none where it returns an error.
unfoldable pub key_for_kid :
    {Key : Type 0} → Tokens Key → Verifier → String → KeySet Key → Option Key × KeySet Key
unfolding cached
key_for_kid t s kid v = cached t s kid (key_at kid v.keys) v

invalid_token : GoError
invalid_token = unauthorized_error "INVALID_TOKEN" "token verification failed"

abbrev pub jwks_demand : Verifier → Demand
jwks_demand s = record {
  method = "RS256";
  issuer = some s.issuer;
  audience = some s.audience;
  expiry = true;
}

claimed : Option Claims → Result Principal
unfolding invalid_token
claimed none = err invalid_token
claimed (some c) = ok (principal_from_claims c)

checked :
    {Key : Type 0}
    → Tokens Key
    → Demand
    → String
    → Option Key × KeySet Key
    → Result Principal × KeySet Key
unfolding claimed
checked t d token (none, v) = (err invalid_token, v)
checked t d token (some key, v) = (claimed (t.check d key token), v)

verify_header :
    {Key : Type 0}
    → Tokens Key
    → Verifier
    → String
    → Option TokenHeader
    → KeySet Key
    → Result Principal × KeySet Key
unfolding checked
verify_header t s token none v = (err invalid_token, v)
verify_header t s token (some h) v =
    let keyed = checked t (jwks_demand s) token (key_for_kid t s h.kid v) in
    if str_eq h.method "RS256" && h.is_rsa then keyed else (err invalid_token, v)

-- JWKSVerifier.Verify
unfoldable pub verify_jwks :
    {Key : Type 0} → Tokens Key → Verifier → String → KeySet Key → Result Principal × KeySet Key
unfolding verify_header
verify_jwks t s token v = verify_header t s token (t.header_of token) v

verify_secret : {Key : Type 0} → Tokens Key → Key → String → Option TokenHeader → Result Principal
unfolding claimed
verify_secret t secret token none = err invalid_token
verify_secret t secret token (some h) =
    let keyed = claimed (
      t.check (record { method = "HS256"; issuer = none; audience = none; expiry = false }) secret
        token) in
    if str_eq h.method "HS256" && h.is_hmac then keyed else err invalid_token

-- HMACVerifier.Verify
unfoldable pub verify_hmac : {Key : Type 0} → Tokens Key → Key → String → Result Principal
unfolding verify_secret
verify_hmac t secret token = verify_secret t secret token (t.header_of token)

-- strings.TrimPrefix, where strings.HasPrefix holds.
unfoldable pub strip_prefix : String → String → Option String
strip_prefix String.[] s = some s
strip_prefix (String.◌∷◌ c p) String.[] = none
strip_prefix (String.◌∷◌ c p) (String.◌∷◌ d s) =
    let rest = strip_prefix p s in if str_eq (String.◌∷◌ c "") (String.◌∷◌ d "") then rest else none

-- The request goes on with a principal, or is answered.
pub data Passed (A : Type 0) : Type 0 where
  next : Principal → Passed A
  answered_with : Response A → Passed A

passed : {A : Type 0} {V : Type 0} → Request → Result Principal × V → Passed A × V
passed r (ok p, v) = (next p, v)
passed r (err e, v) = (answered_with (error_answer r e), v)

with_token :
    {A : Type 0} {V : Type 0}
    → Request
    → (String → V → Result Principal × V)
    → Option String
    → V
    → Passed A × V
unfolding passed
with_token r verify none v = (
  answered_with (error_answer r (unauthorized_error "MISSING_TOKEN" "a bearer token is required")),
  v,
)
with_token r verify (some token) v = passed r (verify token v)

-- Authenticate
unfoldable pub authenticate :
    {A : Type 0} {V : Type 0} → Request → (String → V → Result Principal × V) → V → Passed A × V
unfolding with_token
authenticate r verify v = with_token r verify (strip_prefix "Bearer " (r.header "Authorization")) v
