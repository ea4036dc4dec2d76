-- ===== src/Controller/Desired.antt =====
-- What holds of the Deployment and the Service that internal/controller/application_controller.go makes of an Application.
use forge_platform.Base.{
  ℕ, zero, suc, inl, inr, ◌≤◌, ◌<◌, String, ◌≡◌, refl, sym, ap, ◌⊎◌, Bool, true, false,
  if◌then◌else◌, Option, none, some, [], ◌∷◌, str_eq, All, arith,
}
use mathlib.Core.Option.{some-injective}
use forge_platform.Controller.{
  Application, Labels, Container, Deployment, deployed, deployment, requirements,
  desired_deployment, desired_service, effective_tier, managed_labels, resource_requirements,
  tcp_probe, tier_defaults, read_only_root,
}

abbrev pub lookup : String → Labels → Option String
lookup k [] = none
lookup k ((j, v) ∷ rest) = let later = lookup k rest in if str_eq j k then some v else later

-- A selector as Kubernetes reads one: every entry of it is an entry of the labels.
abbrev pub Selects : Labels → Labels → Type 0
Selects selector labels = All (λ (e : String × String). lookup e.0 labels ≡ some e.1) selector

-- The hardening of a container that may write to its root only if `app` says so.
pub record IsHardened {Quantity : Type 0} (app : Application) (c : Container Quantity)
    : Type 0 where
  pub non_root : c.run_as_non_root ≡ true
  pub no_escalation : c.allow_privilege_escalation ≡ false
  pub no_capability : c.drop_capabilities ≡ "ALL" ∷ []
  pub writable_root :
      c.read_only_root_filesystem ≡ false → app.spec.read_only_root_filesystem ≡ some false
  pub limited : c.resources.limits ≡ c.resources.requests
  pub probed : (c.liveness_probe.port ≡ app.spec.port) × (c.readiness_probe.port ≡ app.spec.port)

-- The chosen texts of the quantities: the override where there is one, else the tier's default.
abbrev pub chosen : String → String → String
chosen override default = if str_eq override "" then default else override

requirements-some :
    {Quantity : Type 0} (app : Application) (cpu mem : Option Quantity) {d : Deployment Quantity}
    → deployed app (requirements cpu mem) ≡ some d
    → (c : Quantity) × (m : Quantity) × (cpu ≡ some c)
      × (mem ≡ some m)
      × (d ≡ deployment app (record { requests = (c, m); limits = (c, m) }))
unfolding deployed requirements
requirements-some app (some c) (some m) h = (c, m, refl, refl, sym (some-injective _ _ h))
requirements-some app (some c) none h = cc
requirements-some app none mem h = cc

made :
    {Quantity : Type 0} (must_parse : String → Option Quantity) (app : Application)
    {d : Deployment Quantity}
    → desired_deployment must_parse app ≡ some d
    → (q : Quantity × Quantity) × (d ≡ deployment app (record { requests = q; limits = q }))
unfolding desired_deployment resource_requirements
made must_parse app h =
    let def = tier_defaults (effective_tier app) in
    let (c, m, _, _, e) =
      requirements-some app (must_parse (chosen app.spec.resources.cpu def.cpu))
        (must_parse (chosen app.spec.resources.memory def.memory)) h in
    ((c, m), e)

-- Every Deployment that is made has containers that are hardened, with a writable root file system
-- only where the Application asks for it, with limits as high as the requests and probes on its
-- port; it selects its own pods, and so does the Service.
pub desired-IsHardened :
    {Quantity : Type 0} (must_parse : String → Option Quantity) (app : Application)
    {d : Deployment Quantity}
    → desired_deployment must_parse app ≡ some d
    → All (IsHardened app) d.containers
      × (d.pod_run_as_non_root ≡ true)
      × Selects d.match_labels d.pod_labels
      × Selects (desired_service app).selector d.pod_labels
unfolding desired_service managed_labels tcp_probe read_only_root
desired-IsHardened must_parse app h =
    let (q, e) = made must_parse app h in
    rw e (
      (
        record {
          non_root = refl;
          no_escalation = refl;
          no_capability = refl;
          writable_root = opted_out app.spec.read_only_root_filesystem;
          limited = refl;
          probed = (refl, refl);
        },
        tt,
      ),
      refl,
      (refl, tt),
      (refl, tt),
    )
  where
    opted_out : (o : Option Bool) → elim o [ none ↦ true | some b ↦ b ] ≡ false → o ≡ some false
    opted_out none w = cc
    opted_out (some b) w = ap some w

-- The tier that counts: the given one where it is from 1 to 4, and else 3.
pub effective_tier_cases :
    (app : Application)
    → app.spec.tier < 4294967296
    → ((1 ≤ app.spec.tier) × (app.spec.tier ≤ 4) × (effective_tier app ≡ app.spec.tier))
      ⊎ (((app.spec.tier ≡ 0) ⊎ (4 < app.spec.tier)) × (effective_tier app ≡ 3))
unfolding effective_tier
effective_tier_cases app word = ground arith

effective_tier_bounds :
    (app : Application)
    → app.spec.tier < 4294967296
    → (1 ≤ effective_tier app) × (effective_tier app ≤ 4)
effective_tier_bounds app word =
    let cases = effective_tier_cases app word in (ground (arith, cases), ground (arith, cases))

-- What an Application of a tier asks for where it overrides nothing: 3 is the tier of those that give none
-- from 1 to 4.
abbrev pub IsDefault : ℕ → String → String → Type 0
IsDefault tier cpu memory =
    ((tier ≡ 1) × (cpu ≡ "1") × (memory ≡ "1Gi"))
    ⊎ ((tier ≡ 2) × (cpu ≡ "500m") × (memory ≡ "512Mi"))
    ⊎ ((tier ≡ 4) × (cpu ≡ "100m") × (memory ≡ "128Mi"))
    ⊎ (((tier ≡ 0) ⊎ (tier ≡ 3) ⊎ (4 < tier)) × (cpu ≡ "250m") × (memory ≡ "256Mi"))

tier_defaults_within :
    (t : ℕ) → 1 ≤ t → t ≤ 4 → IsDefault t (tier_defaults t).cpu (tier_defaults t).memory
unfolding tier_defaults
tier_defaults_within zero low high = absurd (omega arith)
tier_defaults_within (suc zero) low high = inl (refl, refl, refl)
tier_defaults_within (suc (suc zero)) low high = inr (inl (refl, refl, refl))
tier_defaults_within (suc (suc (suc zero))) low high = inr (inr (inr (inr (inl refl), refl, refl)))
tier_defaults_within (suc (suc (suc (suc zero)))) low high = inr (inr (inl (refl, refl, refl)))
tier_defaults_within (suc (suc (suc (suc (suc t))))) low high = absurd (omega arith)

tier_defaults-IsDefault :
    (app : Application)
    → app.spec.tier < 4294967296
    → IsDefault app.spec.tier
        (tier_defaults (effective_tier app)).cpu
        (tier_defaults (effective_tier app)).memory
unfolding tier_defaults
tier_defaults-IsDefault app word = elim (effective_tier_cases app word) [
  | inr (outside, is) ↦
      rw is (inr (inr (inr (elim outside [ inl z ↦ inl z | inr b ↦ inr (inr b) ], refl, refl))))
  | inl (low, high, is) ↦ rw is (tier_defaults_within app.spec.tier low high)
]

-- A Deployment for an Application with those quantities as its requests and its limits, where both are
-- read, and else none.
abbrev pub IsAsked :
    {Quantity : Type 0}
    → Application
    → Option Quantity
    → Option Quantity
    → Option (Deployment Quantity)
    → Type 0
IsAsked {Quantity} app cpu memory d =
    ((c : Quantity) × (m : Quantity) × (cpu ≡ some c)
      × (memory ≡ some m)
      × (d ≡ some (deployment app (record { requests = (c, m); limits = (c, m) }))))
    ⊎ (((cpu ≡ none) ⊎ (memory ≡ none)) × (d ≡ none))

asked :
    {Quantity : Type 0} (app : Application) (cpu memory : Option Quantity)
    → IsAsked app cpu memory (deployed app (requirements cpu memory))
unfolding deployed requirements
asked app (some c) (some m) = inl (c, m, refl, refl, refl)
asked app (some c) none = inr (inr refl, refl)
asked app none memory = inr (inl refl, refl)

-- Where the tier is an int32, each resource is what the Application overrides it with or the default of
-- its tier: 1 CPU and 1Gi for tier 1, 500m and 512Mi for tier 2, 100m and 128Mi for tier 4, and 250m and
-- 256Mi for tier 3 and for a tier that is not from 1 to 4. The Deployment has both as its requests and
-- its limits; the controller panics just where resource.MustParse does not read one of the two.
pub desired_deployment-defaults :
    {Quantity : Type 0} (must_parse : String → Option Quantity) (app : Application)
    → app.spec.tier < 4294967296
    → (cpu : String) × (memory : String) × IsDefault app.spec.tier cpu memory
      × IsAsked app
          (must_parse (chosen app.spec.resources.cpu cpu))
          (must_parse (chosen app.spec.resources.memory memory))
          (desired_deployment must_parse app)
unfolding desired_deployment resource_requirements
desired_deployment-defaults must_parse app word =
    let def = tier_defaults (effective_tier app) in
    (
      def.cpu,
      def.memory,
      tier_defaults-IsDefault app word,
      asked app (must_parse (chosen app.spec.resources.cpu def.cpu))
          (must_parse (chosen app.spec.resources.memory def.memory)),
    )
