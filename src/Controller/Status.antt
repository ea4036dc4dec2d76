-- ===== src/Controller/Status.antt =====
-- The status of an Application: updateStatus and setCondition of internal/controller/application_controller.go,
-- over the API server's optimistic concurrency.
pub mod Conditions
pub mod Excuses
pub mod Updates
use Prim.Native.String.{◌++◌ as ◌⧺◌}
use forge_platform.Base.{
  ℕ, zero, suc, ◌+◌, String, Bool, true, false, not, ◌&&◌, if◌then◌else◌, Option, none, some, List,
  [], ◌∷◌, str_eq, ◌==◌,
}
use forge_platform.Base.Words.{slt32}
use forge_platform.Platform.{Outcome, done, failed, lost}
use forge_platform.Controller.{Application, Condition, desired_replicas, itoa}

-- The errors of the client that the code tells apart, and the text of the others.
pub data ApiError : Type 0 where
  not_found conflict : ApiError
  other_problem : String → ApiError

-- The API server: how each call ends, its clock, what other clients do to the Application before each
-- call, and what the manager's client, which reads from a cache, then answers a read with.
pub record Api : Type 0 where
  pub outcome : ℕ → Outcome
  pub problem_text : ℕ → String
  pub now : ℕ → ℕ
  pub others : ℕ → Option Application → Option Application
  pub cached : ℕ → Option Application → Option Application

-- The Application under the key of the request, and the number of calls made.
pub record Store : Type 0 where
  pub application : Option Application
  pub calls : ℕ

-- DeploymentStatus, as far as it is read.
pub record Live : Type 0 where
  pub replicas : ℕ
  pub ready_replicas : ℕ

pub data Response : Type 0 where
  found : Application → Response
  problem : ApiError → Response

answer_get : Outcome → String → Option Application → Response
answer_get done t none = problem not_found
answer_get done t (some app) = found app
answer_get _ t stored = problem (other_problem t)

-- client.Get of the manager's client: the answer is the cache's, and may be older than what is stored.
unfoldable pub get : Api → Store → Response × Store
unfolding answer_get
get api s =
    let stored = api.others s.calls s.application in
    (
      answer_get (api.outcome s.calls) (api.problem_text s.calls) (api.cached s.calls stored),
      record { application = stored; calls = s.calls + 1 },
    )

-- The write of the status subresource: the stored object must have the version that was read.
store_status :
    Outcome → String → Application → Option Application → Option ApiError × Option Application
store_status done t app none = (some not_found, none)
store_status done t app (some stored) =
    if stored.resource_version == app.resource_version
    then (
      none,
      some (record stored { status = app.status; resource_version = stored.resource_version + 1 }),
    )
    else (some conflict, some stored)
store_status lost t app none = (some (other_problem t), none)
store_status lost t app (some stored) = (
  some (other_problem t),
  some (
      if stored.resource_version == app.resource_version
      then record stored { status = app.status; resource_version = stored.resource_version + 1 }
      else stored),
)
store_status failed t app stored = (some (other_problem t), stored)

-- client.Status().Update
unfoldable pub update : Api → Application → Store → Option ApiError × Store
unfolding store_status
update api app s =
    let (e, stored) =
      store_status (api.outcome s.calls) (api.problem_text s.calls) app
        (api.others s.calls s.application) in
    (e, record { application = stored; calls = s.calls + 1 })

-- The present time, where the condition has the zero time.
abbrev pub stamp : ℕ → Condition → Condition
stamp now c = record c {
  last_transition_time = some (elim c.last_transition_time [ none ↦ now | some t ↦ t ]);
}

upsert : Condition → List Condition → List Condition
upsert c [] = c ∷ []
upsert c (q ∷ qs) =
    let rest = upsert c qs in
    if str_eq q.kind c.kind
    then (if str_eq q.status c.status
        then record c { last_transition_time = q.last_transition_time }
        else c)
      ∷ qs
    else q ∷ rest

-- setCondition
unfoldable pub set_condition : ℕ → Condition → List Condition → List Condition
unfolding upsert
set_condition now c conditions = upsert (stamp now c) conditions

unfoldable pub is_ready : Live → Application → Bool
unfolding desired_replicas
is_ready live app =
    not (slt32 live.ready_replicas (desired_replicas app)) && slt32 0 (desired_replicas app)

abbrev pub phase_of : Live → Application → String
phase_of live app = if is_ready live app then "Ready" else "Progressing"

-- The test for a status that needs no write.
unfoldable pub is_unchanged : Live → Application → Bool
unfolding is_ready
is_unchanged live app =
    str_eq app.status.phase (phase_of live app)
    && app.status.ready_replicas == live.ready_replicas
    && app.status.replicas == live.replicas
    && app.status.observed_generation == app.generation

-- The condition that goes with the phase.
unfoldable pub available : Live → Application → Condition
unfolding is_ready
available live app = record {
  kind = "Available";
  status = if is_ready live app then "True" else "False";
  observed_generation = app.generation;
  reason = phase_of live app;
  message = itoa live.ready_replicas ⧺ "/" ⧺ itoa (desired_replicas app) ⧺ " replicas ready";
  last_transition_time = none;
}

unfoldable pub with_status : ℕ → Live → Application → Application
unfolding set_condition available is_ready
with_status now live app = record app {
  status = record {
    phase = phase_of live app;
    observed_generation = app.generation;
    replicas = live.replicas;
    ready_replicas = live.ready_replicas;
    conditions = set_condition now (available live app) app.status.conditions;
  };
}

-- What updateStatus returns: whether it wrote, and an error.
pub record Updated : Type 0 where
  pub wrote : Bool
  pub error : Option ApiError
  pub store : Store

write : Api → Live → Application → Store → Updated
write api live app s =
    let (e, s') = update api (with_status (api.now s.calls) live app) s in
    record { wrote = true; error = e; store = s' }

examine : Api → Live → Bool → Response × Store → Updated
examine api live wrote (problem e, s) = record { wrote = wrote; error = some e; store = s }
examine api live wrote (found app, s) =
    if is_unchanged live app
    then record { wrote = false; error = none; store = s }
    else write api live app s

-- The function that updateStatus hands to RetryOnConflict; `wrote` is the captured variable.
unfoldable pub attempt : Api → Live → Bool → Store → Updated
unfolding examine write get update with_status is_unchanged
attempt api live wrote s = examine api live wrote (get api s)

abbrev is_conflict : Option ApiError → Bool
is_conflict (some conflict) = true
is_conflict _ = false

-- retry.RetryOnConflict: up to `retries` more attempts, each where the one before had a conflict.
unfoldable pub retry_on_conflict : ℕ → Api → Live → Bool → Store → Updated
unfolding attempt
retry_on_conflict zero api live wrote s = attempt api live wrote s
retry_on_conflict (suc retries) api live wrote s =
    let first = attempt api live wrote s in
    let again = retry_on_conflict retries api live first.wrote first.store in
    if is_conflict first.error then again else first

-- updateStatus; retry.DefaultRetry makes five attempts.
unfoldable pub update_status : Api → Live → Store → Updated
unfolding retry_on_conflict
update_status api live s = retry_on_conflict 4 api live false s
