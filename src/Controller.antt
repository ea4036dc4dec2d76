-- ===== src/Controller.antt =====
-- The Application operator: api/v1alpha1/application_types.go, and of internal/controller/application_controller.go
-- the translation of an Application into the objects that it stands for.
pub mod Desired
pub mod Status
pub mod Reconcile
pub mod Observability
use Prim.Native.String.{◌++◌ as ◌⧺◌}
use forge_platform.Base.{
  ℕ, zero, suc, ◌-◌, ◌/◌, ◌%◌, String, Bool, true, false, not, ◌&&◌, if◌then◌else◌, Option, none,
  some, List, [], ◌∷◌, str_eq, ◌==◌, ltb,
}
use forge_platform.Base.Words.{slt32}

pub record ResourceRequests : Type 0 where
  pub cpu : String
  pub memory : String

pub record EnvVar : Type 0 where
  pub name : String
  pub value : String

-- The numbers are int32, as 32-bit patterns. A SecuritySettings is its one field, a *bool.
pub record ApplicationSpec : Type 0 where
  pub image : String
  pub port : ℕ
  pub replicas : ℕ
  pub tier : ℕ
  pub env : List EnvVar
  pub resources : ResourceRequests
  pub expose : Bool
  pub read_only_root_filesystem : Option Bool

-- metav1.Condition; the zero time is `none`.
pub record Condition : Type 0 where
  pub kind : String
  pub status : String
  pub observed_generation : ℕ
  pub reason : String
  pub message : String
  pub last_transition_time : Option ℕ

pub record ApplicationStatus : Type 0 where
  pub phase : String
  pub observed_generation : ℕ
  pub replicas : ℕ
  pub ready_replicas : ℕ
  pub conditions : List Condition

-- Of the metadata, what the controller reads.
pub record Application : Type 0 where
  pub name : String
  pub namespace : String
  pub generation : ℕ
  pub resource_version : ℕ
  pub spec : ApplicationSpec
  pub status : ApplicationStatus

abbrev digit : ℕ → String
digit n =
    if n == 0
    then "0"
    else if n == 1
    then "1"
    else if n == 2
    then "2"
    else if n == 3
    then "3"
    else if n == 4
    then "4"
    else if n == 5
    then "5"
    else if n == 6
    then "6"
    else if n == 7
    then "7"
    else if n == 8
    then "8"
    else "9"

-- Ten digits are enough for a 32-bit number.
abbrev decimal : ℕ → ℕ → String
decimal zero n = digit (n % 10)
decimal (suc places) n =
    let front = decimal places (n / 10) in if ltb n 10 then digit n else front ⧺ digit (n % 10)

-- strconv.Itoa and %d of an int32.
abbrev pub itoa : ℕ → String
itoa n = if slt32 n 0 then "-" ⧺ decimal 9 (4294967296 - n) else decimal 9 n

-- effectiveTier
unfoldable pub effective_tier : Application → ℕ
effective_tier app =
    if not (slt32 app.spec.tier 1) && not (slt32 4 app.spec.tier) then app.spec.tier else 3

-- tierDefaults; a missing key reads as the zero value.
unfoldable pub tier_defaults : ℕ → ResourceRequests
tier_defaults tier =
    if tier == 1
    then record { cpu = "1"; memory = "1Gi" }
    else if tier == 2
    then record { cpu = "500m"; memory = "512Mi" }
    else if tier == 3
    then record { cpu = "250m"; memory = "256Mi" }
    else if tier == 4
    then record { cpu = "100m"; memory = "128Mi" }
    else record { cpu = ""; memory = "" }

-- readOnlyRoot
unfoldable pub read_only_root : Application → Bool
read_only_root app = elim app.spec.read_only_root_filesystem [ none ↦ true | some b ↦ b ]

-- corev1.ResourceRequirements with the quantities that resource.MustParse reads.
pub record ResourceRequirements (Quantity : Type 0) : Type 0 where
  pub requests : Quantity × Quantity
  pub limits : Quantity × Quantity

-- The quantities of both texts, as the requests and as the limits.
unfoldable pub requirements :
    {Quantity : Type 0} → Option Quantity → Option Quantity → Option (ResourceRequirements Quantity)
requirements (some cpu) (some mem) = some (record { requests = (cpu, mem); limits = (cpu, mem) })
requirements _ _ = none

-- resourceRequirements: none where resource.MustParse panics, which is a parameter.
unfoldable pub resource_requirements :
    {Quantity : Type 0}
    → (String → Option Quantity)
    → Application
    → Option (ResourceRequirements Quantity)
unfolding requirements tier_defaults effective_tier
resource_requirements must_parse app =
    let def = tier_defaults (effective_tier app) in
    let cpu = if str_eq app.spec.resources.cpu "" then def.cpu else app.spec.resources.cpu in
    let mem =
      if str_eq app.spec.resources.memory "" then def.memory else app.spec.resources.memory in
    requirements (must_parse cpu) (must_parse mem)

-- Go's map[string]string: the entries, under different keys.
abbrev pub Labels : Type 0
Labels = List (String × String)

-- managedLabels
unfoldable pub managed_labels : Application → Labels
unfolding effective_tier
managed_labels app =
    ("app.kubernetes.io/name", app.name)
    ∷ ("app.kubernetes.io/managed-by", "forge")
    ∷ ("forge.dev/application", app.name)
    ∷ ("forge.dev/tier", itoa (effective_tier app))
    ∷ []

-- tcpProbe
pub record Probe : Type 0 where
  pub port : ℕ
  pub initial_delay_seconds : ℕ
  pub period_seconds : ℕ
  pub timeout_seconds : ℕ
  pub failure_threshold : ℕ

unfoldable pub tcp_probe : ℕ → ℕ → Probe
tcp_probe port initial_delay = record {
  port = port;
  initial_delay_seconds = initial_delay;
  period_seconds = 10;
  timeout_seconds = 2;
  failure_threshold = 3;
}

pub record Container (Quantity : Type 0) : Type 0 where
  pub name : String
  pub image : String
  pub ports : List ℕ
  pub env : List EnvVar
  pub resources : ResourceRequirements Quantity
  pub liveness_probe : Probe
  pub readiness_probe : Probe
  pub run_as_non_root : Bool
  pub allow_privilege_escalation : Bool
  pub read_only_root_filesystem : Bool
  pub drop_capabilities : List String

-- What the controller sets of a Deployment.
pub record Deployment (Quantity : Type 0) : Type 0 where
  pub name : String
  pub namespace : String
  pub labels : Labels
  pub replicas : ℕ
  pub match_labels : Labels
  pub pod_labels : Labels
  pub pod_annotations : Labels
  pub pod_run_as_non_root : Bool
  pub containers : List (Container Quantity)

-- `replicas`, of which 0 stands for the default.
unfoldable pub desired_replicas : Application → ℕ
desired_replicas app = if app.spec.replicas == 0 then 1 else app.spec.replicas

abbrev pub container :
    {Quantity : Type 0} → Application → ResourceRequirements Quantity → Container Quantity
container app r = record {
  name = "app";
  image = app.spec.image;
  ports = app.spec.port ∷ [];
  env = app.spec.env;
  resources = r;
  liveness_probe = tcp_probe app.spec.port 15;
  readiness_probe = tcp_probe app.spec.port 5;
  run_as_non_root = true;
  allow_privilege_escalation = false;
  read_only_root_filesystem = read_only_root app;
  drop_capabilities = "ALL" ∷ [];
}

abbrev pub deployment :
    {Quantity : Type 0} → Application → ResourceRequirements Quantity → Deployment Quantity
deployment app r = record {
  name = app.name;
  namespace = app.namespace;
  labels = managed_labels app;
  replicas = desired_replicas app;
  match_labels = ("forge.dev/application", app.name) ∷ [];
  pod_labels = managed_labels app;
  pod_annotations =
      ("prometheus.io/scrape", "true") ∷ ("prometheus.io/port", itoa app.spec.port) ∷ [];
  pod_run_as_non_root = true;
  containers = container app r ∷ [];
}

unfoldable pub deployed :
    {Quantity : Type 0}
    → Application
    → Option (ResourceRequirements Quantity)
    → Option (Deployment Quantity)
deployed app none = none
deployed app (some r) = some (deployment app r)

-- desiredDeployment; toEnvVars copies the variables.
unfoldable pub desired_deployment :
    {Quantity : Type 0} → (String → Option Quantity) → Application → Option (Deployment Quantity)
unfolding deployed desired_replicas managed_labels tcp_probe read_only_root
desired_deployment must_parse app = deployed app (resource_requirements must_parse app)

pub record Service : Type 0 where
  pub name : String
  pub namespace : String
  pub labels : Labels
  pub selector : Labels
  pub kind : String
  pub port_name : String
  pub port : ℕ
  pub target_port : ℕ
  pub protocol : String

-- desiredService
unfoldable pub desired_service : Application → Service
unfolding managed_labels
desired_service app = record {
  name = app.name;
  namespace = app.namespace;
  labels = managed_labels app;
  selector = ("forge.dev/application", app.name) ∷ [];
  kind = "ClusterIP";
  port_name = "http";
  port = app.spec.port;
  target_port = app.spec.port;
  protocol = "TCP";
}
