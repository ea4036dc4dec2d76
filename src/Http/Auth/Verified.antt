-- ===== src/Http/Auth/Verified.antt =====
-- What it takes for a request to get past Authenticate with a JWKSVerifier (internal/platform/httpx/auth.go).
use mathlib.Core.Path.{subst}
use mathlib.Core.Option.{some-injective}
use forge_platform.Base.{
  ◌+◌, ◌-◌, ◌<◌, ◌≢◌, ◌∷◌, String, ◌≡◌, refl, sym, ap, ◌∙◌, ◌⊎◌, inl, inr, true, ◌&&◌, Option, some,
  none, List, [], str_eq, eq_iff, arith, Bool-cases,
}
use forge_platform.Apperr.{Result, ok, err}
use forge_platform.Http.{Request}
use forge_platform.Http.Auth.{
  Principal, Claims, TokenHeader, Jwk, entered, parse_keys, Tokens, Verifier, KeySet,
  principal_from_claims, key_at, refresh, stored, parsed, after_refresh, is_fresh, cached,
  key_for_kid, jwks_demand, claimed, checked, verify_header, verify_jwks, strip_prefix, next,
  passed, with_token, authenticate, invalid_token,
}

module _ {Key : Type 0} (t : Tokens Key) (s : Verifier) where
  -- An RSA entry of the document has the key id and decodes to the key.
  abbrev pub Offers : String → Key → List Jwk → Type 0
  Offers kid key [] = ⊥
  Offers kid key (j ∷ js) =
      ((j.kty ≡ "RSA") × (j.kid ≡ kid) × (t.decode_key j.n j.e ≡ some key)) ⊎ Offers kid key js

  entered-Offers :
      (j : Jwk) (o : Option Key) (keys : List (String × Key)) (kid : String) {key : Key}
      {more : List (String × Key)}
      → t.decode_key j.n j.e ≡ o
      → entered j.kid o keys ≡ some more
      → key_at kid more ≡ some key
      → ((j.kid ≡ kid) × (t.decode_key j.n j.e ≡ some key)) ⊎ (key_at kid keys ≡ some key)
  unfolding entered
  entered-Offers j none keys kid decodes h g = cc
  entered-Offers j (some k) keys kid {key} {more} decodes h g =
      let at : key_at kid ((j.kid, k) ∷ keys) ≡ some key =
        ap (key_at kid) (some-injective _ _ h) ∙ g in
      elim (Bool-cases (str_eq j.kid kid)) [
        | inl same ↦ inl ((eq_iff j.kid kid).0 same, decodes ∙ (rw same at at))
        | inr other ↦ inr (rw other at at)
      ]

  -- A key of the parsed set comes from the document, or was in the set before.
  parse_keys-Offers :
      (document : List Jwk) (keys : List (String × Key)) (kid : String) {key : Key}
      {ks : List (String × Key)}
      → parse_keys t document keys ≡ some ks
      → key_at kid ks ≡ some key
      → Offers kid key document ⊎ (key_at kid keys ≡ some key)
  unfolding parse_keys
  parse_keys-Offers [] keys kid h g = inr (ap (key_at kid) (some-injective _ _ h) ∙ g)
  parse_keys-Offers (j ∷ js) keys kid {key} {ks} h g = elim (Bool-cases (str_eq j.kty "RSA")) [
    | inr other ↦ elim (parse_keys-Offers js keys kid (rw other at h) g) [
      | inl later ↦ inl (inr later)
      | inr before ↦ inr before
    ]
    | inl rsa ↦
        kept (λ more p. parse_keys-Offers js more kid p g) rsa
          (entered j.kid (t.decode_key j.n j.e) keys) refl (rw rsa at h)
  ]
    where
      kept :
          ((more : List (String × Key))
            → parse_keys t js more ≡ some ks
            → Offers kid key js ⊎ (key_at kid more ≡ some key))
          → str_eq j.kty "RSA" ≡ true
          → (o : Option (List (String × Key))) → entered j.kid (t.decode_key j.n j.e) keys ≡ o
          → elim o as (λ _. Option (List (String × Key))) [
            | none ↦ none
            | some more ↦ parse_keys t js more
          ]
            ≡ some ks
          → Offers kid key (j ∷ js) ⊎ (key_at kid keys ≡ some key)
      kept ih rsa none is_o p = cc
      kept ih rsa (some more) is_o p = elim (ih more p) [
        | inl later ↦ inl (inr later)
        | inr here ↦ elim (entered-Offers j (t.decode_key j.n j.e) keys kid refl is_o here) [
          | inl (same, decodes) ↦ inl (inl ((eq_iff j.kty "RSA").0 rsa, same, decodes))
          | inr before ↦ inr before
        ]
      ]

  -- The key is in the set that is left, and that set is as it was and not older than the time to live,
  -- or is the one that the document fetched now parses to, where an RSA entry of it has the key.
  abbrev pub Held : String → Key → KeySet Key → KeySet Key → Type 0
  Held kid key v left =
      (key_at kid left.keys ≡ some key)
      × (((left ≡ v) × (t.now v.calls - v.fetched < s.ttl))
          ⊎ ((document : List Jwk) × (t.fetch v.calls ≡ some document)
              × (parse_keys t document [] ≡ some left.keys)
              × Offers kid key document
              × (left.fetched ≡ t.now (v.calls + 1))))

  stored-Held :
      (kid : String) (v : KeySet Key) (document : List Jwk) (ks : Option (List (String × Key)))
      {key : Key}
      → t.fetch v.calls ≡ some document
      → parse_keys t document [] ≡ ks
      → (after_refresh kid (stored t ks v)).0 ≡ some key
      → Held kid key v (after_refresh kid (stored t ks v)).1
  unfolding after_refresh stored
  stored-Held kid v document none fetched parses h = cc
  stored-Held kid v document (some ks) fetched parses h =
      let offered : Offers kid _ document = elim (parse_keys-Offers document [] kid parses h) [
        | inl offers ↦ offers
        | inr before ↦ absurd (nothing before)
      ] in
      (h, inr (document, fetched, parses, offered, refl))
    where
      nothing : {k : Key} → ◌≢◌ {A = Option Key} none (some k)
      nothing e = cc

  parsed-Held :
      (kid : String) (v : KeySet Key) (o : Option (List Jwk)) {key : Key}
      → t.fetch v.calls ≡ o
      → (after_refresh kid (stored t (parsed t o) v)).0 ≡ some key
      → Held kid key v (after_refresh kid (stored t (parsed t o) v)).1
  unfolding after_refresh stored parsed
  parsed-Held kid v none fetched h = cc
  parsed-Held kid v (some document) fetched h =
      stored-Held kid v document (parse_keys t document []) fetched refl h

  cached-Held :
      (kid : String) (v : KeySet Key) (o : Option Key) {key : Key}
      → key_at kid v.keys ≡ o
      → (cached t s kid o v).0 ≡ some key
      → Held kid key v (cached t s kid o v).1
  unfolding cached refresh
  cached-Held kid v none found h = parsed-Held kid v (t.fetch v.calls) refl h
  cached-Held kid v (some k) {key} found h = elim (Bool-cases (is_fresh t s v)) [
    | inl fresh ↦
        let e : cached t s kid (some k) v ≡ (some k, v) = rw fresh refl in
        subst (λ (p : Option Key × KeySet Key). Held kid key v p.1) (sym e)
          (found ∙ (sym (ap (λ p. p.0) e) ∙ h), inl (refl, ground (arith, fresh)))
    | inr stale ↦
        let e : cached t s kid (some k) v ≡ after_refresh kid (refresh t v) = rw stale refl in
        subst (λ (p : Option Key × KeySet Key). Held kid key v p.1) (sym e)
          (parsed-Held kid v (t.fetch v.calls) refl (sym (ap (λ p. p.0) e) ∙ h))
  ]

  claimed_ok :
      (c : Option Claims) {p : Principal}
      → claimed c ≡ ok p
      → (d : Claims) × (c ≡ some d) × (p ≡ principal_from_claims d)
  unfolding claimed
  claimed_ok none h = cc
  claimed_ok (some d) h = (d, refl, cc)

  -- A token of the method RS256, as its header says, whose claims were checked with a key that the set
  -- holds.
  abbrev pub Verified : String → Principal → KeySet Key → KeySet Key → Type 0
  Verified token p v left =
      (h : TokenHeader) × (key : Key) × (d : Claims) × (t.header_of token ≡ some h)
      × (h.method ≡ "RS256")
      × (h.is_rsa ≡ true)
      × (t.check
            (record {
              method = "RS256";
              issuer = some s.issuer;
              audience = some s.audience;
              expiry = true;
            })
            key token
          ≡ some d)
      × (p ≡ record { subject = d.subject; email = d.email; groups = d.groups })
      × Held h.kid key v left

  checked_ok :
      (token : String) (q : Option Key × KeySet Key) {p : Principal}
      → (checked t (jwks_demand s) token q).0 ≡ ok p
      → (key : Key) × (d : Claims) × (q.0 ≡ some key)
        × (t.check (jwks_demand s) key token ≡ some d)
        × (p ≡ principal_from_claims d)
        × ((checked t (jwks_demand s) token q).1 ≡ q.1)
  unfolding checked
  checked_ok token (none, v) h = cc
  checked_ok token (some key, v) h =
      let (d, accepted, is) = claimed_ok (t.check (jwks_demand s) key token) h in
      (key, d, refl, accepted, is, refl)

  header_ok :
      (token : String) (o : Option TokenHeader) (v : KeySet Key) {p : Principal}
      → t.header_of token ≡ o
      → (verify_header t s token o v).0 ≡ ok p
      → Verified token p v (verify_header t s token o v).1
  unfolding verify_header key_for_kid
  header_ok token none v read h = cc
  header_ok token (some x) v {p} read h = elim (Bool-cases (str_eq x.method "RS256" && x.is_rsa)) [
    | inr bad ↦
        let e : verify_header t s token (some x) v ≡ (err invalid_token, v) = rw bad refl in
        let none_left : ◌≡◌ {A = Result Principal} (err invalid_token) (ok p) =
          sym (ap (λ q. q.0) e) ∙ h in
        absurd (cc)
    | inl good ↦
        let e : verify_header t s token (some x) v
            ≡ checked t (jwks_demand s) token (key_for_kid t s x.kid v) =
          rw good refl in
        let rsa : (x.method ≡ "RS256") × (x.is_rsa ≡ true) =
          ground (arith, eq_iff x.method "RS256") in
        let (key, d, got, accepted, is, left) =
          checked_ok token (key_for_kid t s x.kid v) (sym (ap (λ q. q.0) e) ∙ h) in
        (
          x,
          key,
          d,
          read,
          rsa.0,
          rsa.1,
          accepted,
          is,
          subst (Held x.kid key v) (sym (ap (λ (q : Result Principal × KeySet Key). q.1) e ∙ left))
              (cached-Held x.kid v (key_at x.kid v.keys) refl got),
        )
  ]

passed_next :
    {A V : Type 0} (r : Request) (q : Result Principal × V) {p : Principal}
    → (passed {A = A} r q).0 ≡ next p
    → (q.0 ≡ ok p) × ((passed {A = A} r q).1 ≡ q.1)
unfolding passed
passed_next r (ok x, v) h = (cc, refl)
passed_next r (err e, v) h = cc

with_token_next :
    {A V : Type 0} (r : Request) (verify : String → V → Result Principal × V) (o : Option String)
    (v : V) {p : Principal}
    → (with_token {A = A} r verify o v).0 ≡ next p
    → (token : String) × (o ≡ some token)
      × ((verify token v).0 ≡ ok p)
      × ((with_token {A = A} r verify o v).1 ≡ (verify token v).1)
unfolding with_token
with_token_next r verify none v h = cc
with_token_next {A = A} r verify (some token) v h =
    let (is, left) = passed_next {A = A} r (verify token v) h in (token, refl, is, left)

-- A request gets past Authenticate, with a principal, only with a bearer token whose header says RS256,
-- an RSA method, and whose claims were checked under RS256, the issuer and audience that are configured
-- and with an expiry, with a key that the key set has under the token's key id; the set is one that was
-- not older than its time to live, or the one that the document fetched for this request parses to,
-- stamped with the time of the fetch, and an RSA entry of that document has the key; and the principal is that of the token's claims.
pub authenticate-Verified :
    {A Key : Type 0} (t : Tokens Key) (s : Verifier) (r : Request) (v : KeySet Key) {p : Principal}
    → (authenticate {A = A} r (verify_jwks t s) v).0 ≡ next p
    → (token : String) × (strip_prefix "Bearer " (r.header "Authorization") ≡ some token)
      × Verified t s token p v (authenticate {A = A} r (verify_jwks t s) v).1
unfolding authenticate verify_jwks
authenticate-Verified {A = A} t s r v {p} h =
    let (token, given, ran, left) =
      with_token_next {A = A} r (verify_jwks t s)
        (strip_prefix "Bearer " (r.header "Authorization")) v h in
    (
      token,
      given,
      subst (Verified t s token p v) (sym left)
          (header_ok t s token (t.header_of token) v refl ran),
    )
