-- ===== src/Controller/Reconcile.antt =====
-- Reconcile of internal/controller/application_controller.go: the calls that bring the cluster to what an
-- Application asks for, one after the other.
pub mod Objects
pub mod Applied
use forge_platform.Base.{ℕ, ◌+◌, String, if◌then◌else◌, Option, none, some, List, [], ◌∷◌, ◌++◌}
use forge_platform.Platform.{Outcome, done, failed, lost}
use forge_platform.Controller.{
  Application, Deployment, Service, desired_deployment, desired_service,
}
use forge_platform.Controller.Observability.{ConfigMap, desired_observability}
use forge_platform.Controller.Status.{
  ApiError, not_found, conflict, other_problem, Api, Store, Live, Response, found, problem, get,
  Updated, update_status,
}

-- The objects that are applied.
pub data Object (Quantity : Type 0) : Type 0 where
  a_deployment : Deployment Quantity → Object Quantity
  a_service : Service → Object Quantity
  a_config_map : ConfigMap → Object Quantity

-- The Application with the calls made so far, and every object that the server has taken.
pub record Cluster (Quantity : Type 0) : Type 0 where
  pub store : Store
  pub taken : List (Object Quantity)

-- What Reconcile takes from outside: the API server, resource.MustParse (none where it panics),
-- SetControllerReference, and the status of the Deployment as the client gives it.
pub record Outside (Quantity : Type 0) : Type 0 where
  pub api : Api
  pub must_parse : String → Option Quantity
  pub reference_problem : ℕ → Option ApiError
  pub live : ℕ → Option Live

-- An error with the text that wraps it, which may be empty.
pub record Failure : Type 0 where
  pub step : String
  pub cause : ApiError

pub data Returned : Type 0 where
  finished : Option Failure → Returned
  panicked : Returned

abbrev fails {ℓ} : {A : Type ℓ} → String → ApiError → A → Option Failure × A
fails step e a = (some (record { step = step; cause = e }), a)

sent :
    {Quantity : Type 0}
    → Outcome
    → String
    → String
    → Object Quantity
    → Cluster Quantity
    → Option Failure × Cluster Quantity
sent done t step o c = (none, record c { taken = c.taken ++ o ∷ [] })
sent failed t step o c = fails step (other_problem t) c
sent lost t step o c = fails step (other_problem t) (record c { taken = c.taken ++ o ∷ [] })

-- r.Patch with client.Apply; other clients go on meanwhile.
unfoldable pub patch :
    {Quantity : Type 0}
    → Outside Quantity
    → String
    → Object Quantity
    → Cluster Quantity
    → Option Failure × Cluster Quantity
unfolding sent
patch x step o c =
    let n = c.store.calls in
    sent (x.api.outcome n) (x.api.problem_text n) step o (record c {
      store = record { application = x.api.others n c.store.application; calls = n + 1 };
    })

owned :
    {Quantity : Type 0}
    → Option ApiError
    → Outside Quantity
    → String
    → Object Quantity
    → Cluster Quantity
    → Option Failure × Cluster Quantity
owned (some e) x step o c = fails "" e c
owned none x step o c = patch x step o c

-- SetControllerReference, then Patch.
unfoldable pub apply_object :
    {Quantity : Type 0}
    → Outside Quantity
    → String × Object Quantity
    → Cluster Quantity
    → Option Failure × Cluster Quantity
unfolding owned
apply_object x (step, o) c = owned (x.reference_problem c.store.calls) x step o c

pub unless_failed :
    {Quantity : Type 0}
    → Option Failure × Cluster Quantity
    → (Cluster Quantity → Option Failure × Cluster Quantity)
    → Option Failure × Cluster Quantity
unless_failed (some e, c) next = (some e, c)
unless_failed (none, c) next = next c

-- One block after the other, up to the first that returns an error.
unfoldable pub apply_each :
    {Quantity : Type 0}
    → Outside Quantity
    → List (String × Object Quantity)
    → Cluster Quantity
    → Option Failure × Cluster Quantity
unfolding unless_failed
apply_each x [] c = (none, c)
apply_each x (o ∷ os) c = unless_failed (apply_object x o c) (apply_each x os)

-- The objects in the order of the blocks, each with the text of its error.
unfoldable pub planned :
    {Quantity : Type 0} → Application → Deployment Quantity → List (String × Object Quantity)
planned app d =
    ("apply deployment", a_deployment d)
      ∷ (if app.spec.expose then ("apply service", a_service (desired_service app)) ∷ [] else [])
    ++ ("apply observability", a_config_map (desired_observability app)) ∷ []

of_updated : {Quantity : Type 0} → Cluster Quantity → Updated → Option Failure × Cluster Quantity
of_updated c u = (
  elim u.error [ none ↦ none | some e ↦ some (record { step = ""; cause = e }) ],
  record c { store = u.store },
)

status_read :
    {Quantity : Type 0}
    → Outside Quantity
    → Outcome
    → String
    → Option Live
    → Cluster Quantity
    → Option Failure × Cluster Quantity
unfolding of_updated
status_read x done t none c = fails "read deployment status" not_found c
status_read x done t (some live) c = of_updated c (update_status x.api live c.store)
status_read x failed t live c = fails "read deployment status" (other_problem t) c
status_read x lost t live c = fails "read deployment status" (other_problem t) c

-- The status of the live Deployment, and updateStatus with it.
unfoldable pub report :
    {Quantity : Type 0} → Outside Quantity → Cluster Quantity → Option Failure × Cluster Quantity
unfolding status_read
report x c =
    let n = c.store.calls in
    status_read x (x.api.outcome n) (x.api.problem_text n) (x.live n) (record c {
      store = record { application = x.api.others n c.store.application; calls = n + 1 };
    })

finish : {Quantity : Type 0} → Option Failure × Cluster Quantity → Returned × Cluster Quantity
finish (e, c) = (finished e, c)

bring_up :
    {Quantity : Type 0}
    → Outside Quantity
    → Application
    → Option (Deployment Quantity)
    → Cluster Quantity
    → Returned × Cluster Quantity
unfolding finish unless_failed
bring_up x app none c = (panicked, c)
bring_up x app (some d) c = finish (unless_failed (apply_each x (planned app d) c) (report x))

-- client.IgnoreNotFound
ignore_not_found : ApiError → Option Failure
ignore_not_found not_found = none
ignore_not_found conflict = some (record { step = ""; cause = conflict })
ignore_not_found (other_problem t) = some (record { step = ""; cause = other_problem t })

examined :
    {Quantity : Type 0}
    → Outside Quantity
    → List (Object Quantity)
    → Response × Store
    → Returned × Cluster Quantity
unfolding bring_up ignore_not_found
examined x taken (problem e, s) =
    (finished (ignore_not_found e), record { store = s; taken = taken })
examined x taken (found app, s) =
    bring_up x app (desired_deployment x.must_parse app) (record { store = s; taken = taken })

-- Reconcile
unfoldable pub reconcile :
    {Quantity : Type 0} → Outside Quantity → Cluster Quantity → Returned × Cluster Quantity
unfolding examined
reconcile x c = examined x c.taken (get x.api c.store)
