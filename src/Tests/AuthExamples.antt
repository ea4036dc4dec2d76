-- ===== src/Tests/AuthExamples.antt =====
-- A request with a bearer token, on an empty key set.
use forge_platform.Base.{
  ℕ, String, ◌≡◌, refl, true, false, ◌&&◌, if◌then◌else◌, none, some, [], ◌∷◌, str_eq, ◌==◌,
}
use forge_platform.Http.{
  Request, error_answer, answered, answer, decode, trim_quotes, if_match, etag,
}
use forge_platform.Http.Auth.{
  Principal, Tokens, Verifier, KeySet, next, authenticate, verify_jwks, strip_prefix, parse_keys,
  refresh, key_for_kid, verify_hmac,
}
use forge_platform.Http.Auth.Verified.{Verified, authenticate-Verified}

abbrev one_key : Tokens ℕ
one_key = record {
  header_of =
      λ token. some (record { method = "RS256"; is_hmac = false; is_rsa = true; kid = "k1" });
  check = λ demand key token.
      if str_eq token "good" && key == 7
      then some (record { subject = "ann"; email = "ann@example.org"; groups = [] })
      else none;
  decode_key = λ n e. some 7;
  fetch = λ i. some (record { kty = "RSA"; kid = "k1"; n = "n"; e = "AQAB" } ∷ []);
  now = λ i. i;
}

abbrev issued : Verifier
issued = record { issuer = "idp"; audience = "forge"; ttl = 600 }

abbrev no_keys : KeySet ℕ
no_keys = record { keys = []; fetched = 0; calls = 0 }

abbrev bearing : Request
bearing = record {
  header = λ name. if str_eq name "Authorization" then "Bearer good" else "";
  parameter = λ name. "";
  url_param = λ name. "";
  correlation_id = "c";
}

abbrev ann : Principal
ann = record { subject = "ann"; email = "ann@example.org"; groups = [] }

let_in : (authenticate {A = ℕ} bearing (verify_jwks one_key issued) no_keys).0 ≡ next ann
unfolding error_answer answered answer decode trim_quotes if_match etag parse_keys refresh
    key_for_kid verify_jwks verify_hmac strip_prefix authenticate
let_in = refl

authenticate-Verified_example :
    (token : String) × (strip_prefix "Bearer " (bearing.header "Authorization") ≡ some token)
    × Verified one_key issued token ann no_keys
        (authenticate {A = ℕ} bearing (verify_jwks one_key issued) no_keys).1
authenticate-Verified_example = authenticate-Verified {A = ℕ} one_key issued bearing no_keys let_in
