-- ===== src/Tests/ControllerExamples.antt =====
-- Examples of the theorems on the operator.
use forge_platform.Controller.{
  effective_tier, tier_defaults, read_only_root, requirements, resource_requirements,
  managed_labels, tcp_probe, desired_replicas, deployed, desired_deployment, desired_service,
}
use forge_platform.Controller.Status.{
  get, update, set_condition, is_ready, is_unchanged, available, with_status, attempt,
  retry_on_conflict, update_status,
}
use forge_platform.Base.{◌⊎◌, ◌+◌, ◌<◌, String, ◌≡◌, refl, true, Option, none, some, [], All, arith}
use forge_platform.Platform.{done}
use forge_platform.Controller.{Application, ApplicationStatus, Condition, Deployment, deployment}
use forge_platform.Controller.Desired.{
  IsHardened, IsDefault, IsAsked, chosen, Selects, desired-IsHardened, desired_deployment-defaults,
}
use forge_platform.Controller.Status.{Api, ApiError, Store, Live}
use forge_platform.Controller.Status.Excuses.{Excused}
use forge_platform.Controller.Status.Updates.{IsVersioned, LeftCurrent, update_status-current}

abbrev pub unknown : ApplicationStatus
unknown = record {
  phase = "";
  observed_generation = 0;
  replicas = 0;
  ready_replicas = 0;
  conditions = [];
}

-- Two replicas of tier 2, with nothing overridden.
abbrev pub web : Application
web = record {
  name = "web";
  namespace = "shop";
  generation = 3;
  resource_version = 40;
  spec = record {
    image = "web:1";
    port = 8080;
    replicas = 2;
    tier = 2;
    env = [];
    resources = record { cpu = ""; memory = "" };
    expose = true;
    read_only_root_filesystem = none;
  };
  status = unknown;
}

abbrev pub any_quantity : String → Option String
any_quantity s = some s

abbrev web_deployment : Deployment String
web_deployment =
    deployment web (record { requests = ("500m", "512Mi"); limits = ("500m", "512Mi") })

web-desired : desired_deployment any_quantity web ≡ some web_deployment
unfolding effective_tier tier_defaults read_only_root requirements resource_requirements
    managed_labels tcp_probe desired_replicas deployed desired_deployment desired_service get update
    set_condition is_ready is_unchanged available with_status attempt retry_on_conflict
    update_status
web-desired = refl

desired-IsHardened_example :
    All (IsHardened web) web_deployment.containers
    × (web_deployment.pod_run_as_non_root ≡ true)
    × Selects web_deployment.match_labels web_deployment.pod_labels
    × Selects (desired_service web).selector web_deployment.pod_labels
desired-IsHardened_example = desired-IsHardened any_quantity web web-desired

small_tier : ◌<◌ 2 4294967296
small_tier = omega arith

desired_deployment-defaults_example :
    (cpu : String) × (memory : String) × IsDefault 2 cpu memory
    × IsAsked web
        (any_quantity (chosen "" cpu))
        (any_quantity (chosen "" memory))
        (desired_deployment any_quantity web)
desired_deployment-defaults_example = desired_deployment-defaults any_quantity web small_tier

abbrev pub quiet : Api
quiet = record {
  outcome = λ n. done;
  problem_text = λ n. "";
  now = λ n. n + 100;
  others = λ n stored. stored;
  cached = λ n stored. stored;
}

quiet-IsVersioned : IsVersioned quiet
quiet-IsVersioned = record { same_version = λ n stored a b e f v. cc }

abbrev pub both_ready : Live
both_ready = record { replicas = 2; ready_replicas = 2 }

abbrev pub web_stored : Store
web_stored = record { application = some web; calls = 0 }

web-updated : (update_status quiet both_ready web_stored).error ≡ none
unfolding effective_tier tier_defaults read_only_root requirements resource_requirements
    managed_labels tcp_probe desired_replicas deployed desired_deployment desired_service get update
    set_condition is_ready is_unchanged available with_status attempt retry_on_conflict
    update_status
web-updated = refl

update_status-current_example :
    (((update_status quiet both_ready web_stored).error ≡ none)
      × LeftCurrent quiet both_ready (update_status quiet both_ready web_stored))
    ⊎ ((e : ApiError) × ((update_status quiet both_ready web_stored).error ≡ some e)
        × Excused quiet (update_status quiet both_ready web_stored))
update_status-current_example = update_status-current quiet both_ready web_stored quiet-IsVersioned

abbrev progressing : Condition
progressing = record {
  kind = "Available";
  status = "False";
  observed_generation = 2;
  reason = "Progressing";
  message = "0/2 replicas ready";
  last_transition_time = some 50;
}

abbrev ready_condition : Condition
ready_condition = record progressing {
  status = "True";
  reason = "Ready";
  last_transition_time = none;
}
