-- ===== src/Config/Validation.antt =====
-- What a configuration that Load returns guarantees (internal/platform/config/config.go).
use mathlib.Core.Path.{subst}
use forge_platform.Base.{
  ◌≡◌, refl, sym, ap, ◌∙◌, ◌⊎◌, ◌↔◌, inl, inr, Bool-cases, true, false, Bool, String, List, [], ◌∷◌,
  ◌++◌, ◌||◌, str_eq, eq_iff, arith,
}
use forge_platform.Base.Words.{slt32}
use forge_platform.Apperr.{ok, err, Result-cases, ok-injective}
use forge_platform.Config.{
  Config, Source, is_production, problem, auth_problems, problems_of, verdict, validate, load,
  loaded, read_config,
}

-- The authentication is set up: by a secret, outside production, or by keys that are fetched.
abbrev pub HasAuth : {F : Type 0} → Config F → Type 0
HasAuth c =
    ((c.auth.auth_mode ≡ "hmac")
      × (str_eq c.auth.hmac_secret "" ≡ false)
      × (is_production c ≡ false))
    ⊎ ((c.auth.auth_mode ≡ "jwks")
        × (str_eq c.auth.jwks_url "" ≡ false)
        × (str_eq c.auth.issuer "" ≡ false)
        × (str_eq c.auth.audience "" ≡ false))

-- What the programs may rely on.
abbrev pub IsUsable : {F : Type 0} → Config F → Type 0
IsUsable c =
    (str_eq c.database.url "" ≡ false)
    × HasAuth c
    × (slt32 c.database.max_conns c.database.min_conns ≡ false)

append_none {ℓ} : {A : Type ℓ} (xs ys : List A) → xs ++ ys ≡ [] → (xs ≡ []) × (ys ≡ [])
append_none [] ys h = (refl, h)
append_none (x ∷ xs) ys h = cc

no_problem : (test : Bool) (text : String) → problem test text ≡ [] → test ≡ false
no_problem false text h = refl
no_problem true text h = cc

module _ {F : Type 0} (e : Source F) (c : Config F) where
  auth_problems-HasAuth : auth_problems e c ≡ [] → HasAuth c
  unfolding auth_problems
  auth_problems-HasAuth h = elim (Bool-cases (str_eq c.auth.auth_mode "hmac")) [
    | inl hmac ↦
        let (secret, outside) =
          append_none (problem (str_eq c.auth.hmac_secret "") _) (problem (is_production c) _)
            (rw hmac at h) in
        inl (
          (eq_iff c.auth.auth_mode "hmac").0 hmac,
          no_problem (str_eq c.auth.hmac_secret "") _ secret,
          no_problem (is_production c) _ outside,
        )
    | inr not_hmac ↦ elim (Bool-cases (str_eq c.auth.auth_mode "jwks")) [
      | inl jwks ↦
          let (url, names) =
            append_none (problem (str_eq c.auth.jwks_url "") _)
              (problem (str_eq c.auth.issuer "" || str_eq c.auth.audience "") _)
              (rw (not_hmac, jwks) at h) in
          let named = no_problem (str_eq c.auth.issuer "" || str_eq c.auth.audience "") _ names in
          inr (
            (eq_iff c.auth.auth_mode "jwks").0 jwks,
            no_problem (str_eq c.auth.jwks_url "") _ url,
            ground (arith, named),
            ground (arith, named),
          )
      | inr not_jwks ↦ let none_left = rw (not_hmac, not_jwks) at h in absurd (cc)
    ]
  ]

  problems_of-IsUsable : problems_of e c ≡ [] → IsUsable c
  unfolding problems_of
  problems_of-IsUsable h =
      let (before, order) =
        append_none (problem (str_eq c.database.url "") _ ++ auth_problems e c) _ h in
      let (url, auth) =
        append_none (problem (str_eq c.database.url "") _) (auth_problems e c) before in
      (
        no_problem (str_eq c.database.url "") _ url,
        auth_problems-HasAuth auth,
        no_problem (slt32 c.database.max_conns c.database.min_conns) _ order,
      )

  IsUsable-problems_of : IsUsable c → problems_of e c ≡ []
  unfolding problems_of auth_problems
  IsUsable-problems_of (u, inl (m, s, p), x) = rw (u, m, s, p, x) refl
  IsUsable-problems_of (u, inr (m, j, i, a), x) = rw (u, m, j, i, a, x) refl

verdict_ok : (ps : List String) {u : Unit {0}} → verdict ps ≡ ok u → ps ≡ []
unfolding verdict
verdict_ok [] h = refl
verdict_ok (p ∷ ps) h = cc

loaded_ok :
    {F : Type 0} (e : Source F) (c : Config F) {d : Config F}
    → loaded c (validate e c) ≡ ok d
    → (d ≡ c) × IsUsable c
unfolding loaded validate
loaded_ok e c {d} h = elim (Result-cases (validate e c)) [
  | inl (u, valid) ↦ (
    sym (ok-injective (sym (ap (loaded c) valid) ∙ h)),
    problems_of-IsUsable e c (verdict_ok (problems_of e c) valid),
  )
  | inr (x, invalid) ↦ let failed : err x ≡ ok d = sym (ap (loaded c) invalid) ∙ h in absurd (cc)
]

-- Load returns a configuration exactly if it is the one that the environment and the defaults make, it
-- names a database, its authentication is set up (a secret outside production, or a key set with issuer
-- and audience) and its pool's minimum does not exceed the maximum.
pub load_iff :
    {F : Type 0} (e : Source F) (c : Config F)
    → (load e ≡ ok c) ↔ ((c ≡ read_config e) × IsUsable c)
unfolding load loaded validate verdict
load_iff e c = (
  λ h.
      let (same, usable) = loaded_ok e (read_config e) h in
      (same, subst IsUsable (sym same) usable),
  λ h.
      let clean = IsUsable-problems_of e (read_config e) (subst IsUsable h.0 h.1) in
      ap (λ ps. loaded (read_config e) (verdict ps)) clean ∙ ap ok (sym h.0),
)
