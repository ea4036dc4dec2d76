-- ===== src/Provisioning/Saga.antt =====
-- The saga of internal/provisioning/workflow.go: what it leaves when it succeeds and when it rolls back.
use Prim.Native.String.{◌++◌ as ◌⧺◌}
use mathlib.Core.List.{append_assoc}
use forge_platform.Base.{
  ◌+◌, String, ◌≡◌, refl, sym, ap, ◌∙◌, Bool, true, false, some, List, [], ◌∷◌, ◌++◌, ◌⊎◌, inl, inr,
}
use forge_platform.Platform.{Outcome, done, failed, lost}
use forge_platform.Apperr.{plain, Result, ok, err, ok-injective}
use forge_platform.Provisioning.{
  Systems, put, Activity, create_namespace, register_dns, create_secret_path, finalize, apply_quota,
  run, Temporal, Run, execute_activity, compensate, ProvisionTenantInput, ProvisionTenantResult,
  provision_tenant, guarded, unguarded, settle,
}

-- The systems with everything that a tenant has.
abbrev pub provisioned : ProvisionTenantInput → Systems → Systems
provisioned i p = record {
  namespaces = put i.slug true p.namespaces;
  quotas = put i.slug (some i.max_services) p.quotas;
  dns = put i.slug true p.dns;
  secrets = put i.slug true p.secrets;
}

-- An activity that was carried out, and one that was not.
abbrev pub after_done : Temporal → String → Activity → Run → Run
after_done t slug a r = record {
  systems = (run t.fail_register_dns slug a r.systems).1;
  calls = r.calls + 1;
  trace = r.trace ++ a ∷ [];
}

abbrev pub after_failed : Activity → Run → Run
after_failed a r = record r { calls = r.calls + 1; trace = r.trace ++ a ∷ [] }

pub settle_cases :
    (t : Temporal) (o : Outcome) (slug : String) (a : Activity) (r : Run)
    → ((o ≡ done)
        × (settle t o slug a r
            ≡ ((run t.fail_register_dns slug a r.systems).0, after_done t slug a r)))
      ⊎ (((o ≡ failed)
            × (settle t o slug a r ≡ (err (plain (t.error_text r.calls)), after_failed a r)))
          ⊎ ((o ≡ lost)
              × (settle t o slug a r
                  ≡ (err (plain (t.error_text r.calls)), after_done t slug a r))))
unfolding settle
settle_cases t done slug a r = inl (refl, refl)
settle_cases t failed slug a r = inr (inl (refl, refl))
settle_cases t lost slug a r = inr (inr (refl, refl))

-- A step of the workflow in a run that succeeds.
guarded_ok :
    {A : Type 0} (t : Temporal) (slug : String) (saga : List Activity) (p : Result String × Run)
    (k : String → Run → Result A × Run) {b : A}
    → (guarded t slug saga p k).0 ≡ ok b
    → (x : String) × (p.0 ≡ ok x) × (guarded t slug saga p k ≡ k x p.1)
unfolding guarded compensate
guarded_ok t slug saga (ok x, r) k h = (x, refl, refl)
guarded_ok t slug saga (err e, r) k h = cc

unguarded_ok :
    {A : Type 0} (p : Result String × Run) (k : String → Run → Result A × Run) {b : A}
    → (unguarded p k).0 ≡ ok b
    → (x : String) × (p.0 ≡ ok x) × (unguarded p k ≡ k x p.1)
unfolding unguarded
unguarded_ok (ok x, r) k h = (x, refl, refl)
unguarded_ok (err e, r) k h = cc

executed_ok :
    (t : Temporal) (slug : String) (a : Activity) (r : Run) {x : String}
    → (execute_activity t slug a r).0 ≡ ok x
    → ((run t.fail_register_dns slug a r.systems).0 ≡ ok x)
      × ((execute_activity t slug a r).1 ≡ after_done t slug a r)
unfolding execute_activity
executed_ok t slug a r h = elim (settle_cases t (t.outcome r.calls a) slug a r) [
  | inl (_, e) ↦ (sym (ap (λ p. p.0) e) ∙ h, ap (λ p. p.1) e)
  | inr (inl (_, e)) ↦ cc
  | inr (inr (_, e)) ↦ cc
]

module _ {A : Type 0} (t : Temporal) (slug : String) (a : Activity) (r : Run)
    (k : String → Run → Result A × Run) where
  Went : Result A × Run → A → Type 0
  Went p b =
      (x : String) × ((run t.fail_register_dns slug a r.systems).0 ≡ ok x)
      × (p ≡ k x (after_done t slug a r))
      × ((k x (after_done t slug a r)).0 ≡ ok b)

  guarded_step :
      (saga : List Activity) {b : A}
      → (guarded t slug saga (execute_activity t slug a r) k).0 ≡ ok b
      → Went (guarded t slug saga (execute_activity t slug a r) k) b
  unfolding Went
  guarded_step saga h =
      let (x, ran, whole) = guarded_ok t slug saga (execute_activity t slug a r) k h in
      let (gave, left) = executed_ok t slug a r ran in
      let all = whole ∙ ap (k x) left in (x, gave, all, sym (ap (λ p. p.0) all) ∙ h)

  unguarded_step :
      {b : A}
      → (unguarded (execute_activity t slug a r) k).0 ≡ ok b
      → Went (unguarded (execute_activity t slug a r) k) b
  unfolding Went
  unguarded_step h =
      let (x, ran, whole) = unguarded_ok (execute_activity t slug a r) k h in
      let (gave, left) = executed_ok t slug a r ran in
      let all = whole ∙ ap (k x) left in (x, gave, all, sym (ap (λ p. p.0) all) ∙ h)

pub register_dns_ok :
    (hook : Bool) (slug : String) (p : Systems) {x : String}
    → (run hook slug register_dns p).0 ≡ ok x
    → (x ≡ slug ⧺ "." ⧺ "forge.example.com")
      × ((run hook slug register_dns p).1 ≡ record p { dns = put slug true p.dns })
unfolding run
register_dns_ok true slug p h = cc
register_dns_ok false slug p h = (sym (ok-injective h), refl)

-- A run that succeeds leaves a namespace, the quota, the DNS entry and the secret path of its slug
-- in the systems and touches nothing else, and returns the names of the namespace and the host.
pub provision_tenant_succeeds :
    (t : Temporal) (i : ProvisionTenantInput) (r : Run) {x : ProvisionTenantResult}
    → (provision_tenant t i r).0 ≡ ok x
    → ((provision_tenant t i r).1.systems ≡ provisioned i r.systems)
      × (x.namespace ≡ "tenant-" ⧺ i.slug)
      × (x.endpoint ≡ i.slug ⧺ "." ⧺ "forge.example.com")
      × ((provision_tenant t i r).1.trace
          ≡ r.trace
            ++ (create_namespace
                ∷ apply_quota i.max_services
                ∷ register_dns
                ∷ create_secret_path
                ∷ finalize
                ∷ []))
unfolding provision_tenant run Went
provision_tenant_succeeds t i r h =
    let s = i.slug in
    let (ns, n1, e1, h1) = unguarded_step t s create_namespace r _ h in
    let r1 = after_done t s create_namespace r in
    let (_, _, e2, h2) = guarded_step t s (apply_quota i.max_services) r1 _ _ h1 in
    let r2 = after_done t s (apply_quota i.max_services) r1 in
    let (fqdn, n3, e3, h3) = guarded_step t s register_dns r2 _ _ h2 in
    let r3 = after_done t s register_dns r2 in
    let (_, _, e4, h4) = guarded_step t s create_secret_path r3 _ _ h3 in
    let r4 = after_done t s create_secret_path r3 in
    let (_, _, e5, h5) = guarded_step t s finalize r4 _ _ h4 in
    let whole = e1 ∙ e2 ∙ e3 ∙ e4 ∙ e5 in
    let is_x = ok-injective h5 in
    let (is_fqdn, dns_added) = register_dns_ok t.fail_register_dns s r2.systems n3 in
    (
      ap (λ (p : Result ProvisionTenantResult × Run). p.1.systems) whole
          ∙ ap {A = Systems} {B = Systems} (λ p. record p { secrets = put s true p.secrets })
              dns_added,
      sym (ap (λ (y : ProvisionTenantResult). y.namespace) is_x) ∙ sym (ok-injective n1),
      sym (ap (λ (y : ProvisionTenantResult). y.endpoint) is_x) ∙ is_fqdn,
      ap (λ (p : Result ProvisionTenantResult × Run). p.1.trace) whole ∙ simp append_assoc,
    )
