-- ===== src/Provisioning.antt =====
-- Tenant provisioning as a saga: internal/provisioning/workflow.go over activities.go and the simulated
-- provisioner of provisioner.go. Temporal runs the activities and retries them; what the workflow
-- sees of a call is its outcome, one for each call.
pub mod Saga
pub mod Rollback
use Prim.Native.String.{◌++◌ as ◌⧺◌}
use mathlib.Core.List.{reverse}
use forge_platform.Base.{
  ℕ, ◌+◌, String, Bool, true, false, Option, none, some, List, [], ◌∷◌, ◌++◌, str_eq, if◌then◌else◌,
}
use forge_platform.Platform.{Outcome, done, failed, lost}
use forge_platform.Apperr.{GoError, plain, wrapped, Result, ok, err}

-- The maps of SimulatedProvisioner: an entry for each slug.
pub record Systems : Type 0 where
  pub namespaces : String → Bool
  pub quotas : String → Option ℕ
  pub dns : String → Bool
  pub secrets : String → Bool

-- `m[k] = v`, and `delete(m, k)` where `v` is the value of a missing key.
abbrev pub put : {A : Type 0} → String → A → (String → A) → String → A
put k v m j = if str_eq j k then v else m j

-- The calls of the Provisioner interface that the workflow makes.
pub data Activity : Type 0 where
  create_namespace delete_namespace remove_quota register_dns deregister_dns : Activity
  create_secret_path delete_secret_path finalize : Activity
  apply_quota : ℕ → Activity

abbrev pub dns_zone : String
dns_zone = "forge.example.com"

-- SimulatedProvisioner, with its test hook FailRegisterDNS: what a call returns and does.
unfoldable pub run : Bool → String → Activity → Systems → Result String × Systems
run hook slug create_namespace p =
    (ok ("tenant-" ⧺ slug), record p { namespaces = put slug true p.namespaces })
run hook slug delete_namespace p = (ok "", record p { namespaces = put slug false p.namespaces })
run hook slug (apply_quota n) p = (ok "", record p { quotas = put slug (some n) p.quotas })
run hook slug remove_quota p = (ok "", record p { quotas = put slug none p.quotas })
run true slug register_dns p = (err (plain ("dns provider unavailable for \"" ⧺ slug ⧺ "\"")), p)
run false slug register_dns p = (ok (slug ⧺ "." ⧺ dns_zone), record p { dns = put slug true p.dns })
run hook slug deregister_dns p = (ok "", record p { dns = put slug false p.dns })
run hook slug create_secret_path p = (ok "", record p { secrets = put slug true p.secrets })
run hook slug delete_secret_path p = (ok "", record p { secrets = put slug false p.secrets })
run hook slug finalize p = (ok "", p)

-- What surrounds a run of the workflow: how the calls of its activities end, after the retries
-- that their policy asks for, the text of the error of a failed one, and the hook.
pub record Temporal : Type 0 where
  pub outcome : ℕ → Activity → Outcome
  pub error_text : ℕ → String
  pub fail_register_dns : Bool

-- The systems, the number of activities called so far, and which they were, in order.
pub record Run : Type 0 where
  pub systems : Systems
  pub calls : ℕ
  pub trace : List Activity

abbrev pub Flow : Type 0 → Type 0
Flow A = Run → Result A × Run

unfoldable pub settle : Temporal → Outcome → String → Activity → Flow String
settle t done slug a r =
    let (x, p) = run t.fail_register_dns slug a r.systems in
    (x, record { systems = p; calls = r.calls + 1; trace = r.trace ++ a ∷ [] })
settle t failed slug a r = (
  err (plain (t.error_text r.calls)),
  record r { calls = r.calls + 1; trace = r.trace ++ a ∷ [] },
)
settle t lost slug a r =
    let (x, p) = run t.fail_register_dns slug a r.systems in
    (
      err (plain (t.error_text r.calls)),
      record { systems = p; calls = r.calls + 1; trace = r.trace ++ a ∷ [] },
    )

-- workflow.ExecuteActivity(…).Get
unfoldable pub execute_activity : Temporal → String → Activity → Flow String
unfolding settle run
execute_activity t slug a r = settle t (t.outcome r.calls a) slug a r

-- The loop of saga.compensate over the actions that are left, the last first; an error of one of
-- them does not stop it.
unfoldable pub undo : Temporal → String → List Activity → Run → Run
undo t slug [] r = r
undo t slug (a ∷ rest) r = undo t slug rest (execute_activity t slug a r).1

-- saga.compensate
unfoldable pub compensate : {A : Type 0} → Temporal → String → List Activity → GoError → Flow A
unfolding undo
compensate t slug saga cause r =
    (err (wrapped "provisioning failed and was rolled back" cause), undo t slug (reverse saga) r)

-- `if err := …; err != nil { return …, saga.compensate(ctx, err) }`
unfoldable pub guarded :
    {A : Type 0}
    → Temporal
    → String
    → List Activity
    → Result String × Run
    → (String → Flow A)
    → Result A × Run
guarded t slug saga (ok x, r) k = k x r
guarded t slug saga (err e, r) k = compensate t slug saga e r

-- The first step: no compensation is registered, and the error is returned as it is.
unfoldable pub unguarded : {A : Type 0} → Result String × Run → (String → Flow A) → Result A × Run
unguarded (ok x, r) k = k x r
unguarded (err e, r) k = (err e, r)

pub record ProvisionTenantInput : Type 0 where
  pub slug : String
  pub max_services : ℕ

pub record ProvisionTenantResult : Type 0 where
  pub namespace : String
  pub endpoint : String

-- ProvisionTenantWorkflow
unfoldable pub provision_tenant : Temporal → ProvisionTenantInput → Flow ProvisionTenantResult
unfolding guarded unguarded
provision_tenant t i r0 =
    let s = i.slug in
    unguarded (execute_activity t s create_namespace r0) λ ns r1.
      let saga1 = delete_namespace ∷ [] in
      guarded t s saga1 (execute_activity t s (apply_quota i.max_services) r1) λ _ r2.
        let saga2 = saga1 ++ remove_quota ∷ [] in
        guarded t s saga2 (execute_activity t s register_dns r2) λ fqdn r3.
          let saga3 = saga2 ++ deregister_dns ∷ [] in
          guarded t s saga3 (execute_activity t s create_secret_path r3) λ _ r4.
            let saga4 = saga3 ++ delete_secret_path ∷ [] in
            guarded t s saga4 (execute_activity t s finalize r4)
              λ _ r5. (ok (record { namespace = ns; endpoint = fqdn }), r5)
