-- ===== src/Tests/SagaExamples.antt =====
-- Examples of the theorems on the provisioning saga.
use forge_platform.Provisioning.{
  run, settle, execute_activity, undo, compensate, guarded, unguarded, provision_tenant,
}
use Prim.Native.String.{◌++◌ as ◌⧺◌}
use forge_platform.Base.{◌≡◌, refl, true, false, none, [], ◌∷◌, ◌++◌}
use forge_platform.Platform.{done}
use forge_platform.Apperr.{GoError, plain, wrapped, ok, err}
use forge_platform.Provisioning.{
  Temporal, Run, ProvisionTenantInput, ProvisionTenantResult, create_namespace, apply_quota,
  register_dns, create_secret_path, finalize,
}
use forge_platform.Provisioning.Saga.{provisioned, provision_tenant_succeeds}
use forge_platform.Provisioning.Rollback.{
  SameSystems, IsAbsent, IsReliable, provision_tenant_rolls_back,
}

abbrev empty_run : Run
empty_run = record {
  systems = record {
    namespaces = λ s. false;
    quotas = λ s. none;
    dns = λ s. false;
    secrets = λ s. false;
  };
  calls = 0;
  trace = [];
}

abbrev steady : Temporal
steady = record { outcome = λ n a. done; error_text = λ n. ""; fail_register_dns = false }

abbrev acme : ProvisionTenantInput
acme = record { slug = "acme"; max_services = 10 }

acme_names : ProvisionTenantResult
acme_names = record { namespace = "tenant-acme"; endpoint = "acme.forge.example.com" }

acme-provisioned : (provision_tenant steady acme empty_run).0 ≡ ok acme_names
unfolding run settle execute_activity undo compensate guarded unguarded provision_tenant acme_names
acme-provisioned = refl

provision_tenant_succeeds_example :
    ((provision_tenant steady acme empty_run).1.systems ≡ provisioned acme empty_run.systems)
    × (acme_names.namespace ≡ "tenant-" ⧺ "acme")
    × (acme_names.endpoint ≡ "acme" ⧺ "." ⧺ "forge.example.com")
    × ((provision_tenant steady acme empty_run).1.trace
        ≡ []
          ++ (create_namespace
              ∷ apply_quota 10
              ∷ register_dns
              ∷ create_secret_path
              ∷ finalize
              ∷ []))
provision_tenant_succeeds_example = provision_tenant_succeeds steady acme empty_run acme-provisioned

-- The provider of DNS refuses every registration.
abbrev no_dns : Temporal
no_dns = record steady { fail_register_dns = true }

no_dns-IsReliable : IsReliable no_dns
no_dns-IsReliable = record { compensations = λ n a c. refl; not_lost = λ n a e. cc }

acme-IsAbsent : IsAbsent "acme" empty_run.systems
acme-IsAbsent = record { namespace = refl; quota = refl; dns_entry = refl; secret = refl }

no_dns_error : GoError
no_dns_error =
    wrapped "provisioning failed and was rolled back"
      (plain "dns provider unavailable for \"acme\"")

acme-refused : (provision_tenant no_dns acme empty_run).0 ≡ err no_dns_error
unfolding run settle execute_activity undo compensate guarded unguarded provision_tenant
    no_dns_error
acme-refused = refl

provision_tenant_rolls_back_example :
    SameSystems (provision_tenant no_dns acme empty_run).1.systems empty_run.systems
provision_tenant_rolls_back_example =
    provision_tenant_rolls_back no_dns acme empty_run no_dns-IsReliable acme-IsAbsent acme-refused
