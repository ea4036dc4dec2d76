-- ===== src/Tests/ReconcileExamples.antt =====
-- A reconcile of an Application on a quiet API server.
use forge_platform.Base.{String, ◌≡◌, refl, none, some, []}
use forge_platform.Controller.Reconcile.{
  Cluster, Outside, finished, reconcile, patch, apply_object, apply_each, planned, report,
}
use forge_platform.Tests.ControllerExamples.{quiet, any_quantity, both_ready, web_stored}
use forge_platform.Controller.{
  effective_tier, tier_defaults, read_only_root, requirements, resource_requirements,
  managed_labels, tcp_probe, desired_replicas, deployed, desired_deployment, desired_service,
}
use forge_platform.Controller.Status.{
  get, update, set_condition, is_ready, is_unchanged, available, with_status, attempt,
  retry_on_conflict, update_status,
}
use forge_platform.Controller.Observability.{dashboard_json, alert_rules, desired_observability}

abbrev around : Outside String
around = record {
  api = quiet;
  must_parse = any_quantity;
  reference_problem = λ n. none;
  live = λ n. some both_ready;
}

abbrev nothing_yet : Cluster String
nothing_yet = record { store = web_stored; taken = [] }

reconcile_web : (reconcile around nothing_yet).0 ≡ finished none
unfolding effective_tier tier_defaults read_only_root requirements resource_requirements
    managed_labels tcp_probe desired_replicas deployed desired_deployment desired_service get update
    set_condition is_ready is_unchanged available with_status attempt retry_on_conflict
    update_status dashboard_json alert_rules desired_observability patch apply_object apply_each
    planned report reconcile
reconcile_web = refl
