-- ===== src/Controller/Reconcile/Applied.antt =====
-- What a reconcile applies, whatever fails (Reconcile of internal/controller/application_controller.go).
use forge_platform.Base.{String, ◌≡◌, ◌≢◌, ◌⊎◌, some, none, List, [], ◌++◌, map, All}
use forge_platform.Controller.{Application, Deployment, desired_deployment}
use forge_platform.Controller.Desired.{IsHardened}
use forge_platform.Controller.Status.{ApiError, not_found, found, problem, get}
use forge_platform.Controller.Reconcile.{
  Object, Cluster, Outside, Failure, Returned, finished, panicked, planned,
}
use forge_platform.Controller.Reconcile.Objects.{Blamed}

-- An initial segment of an Application's objects was taken; all of them, and no error was returned, or
-- an error with a cause was.
abbrev pub Applies :
    {Quantity : Type 0}
    → Outside Quantity
    → Application
    → Deployment Quantity
    → List (Object Quantity)
    → Returned × Cluster Quantity
    → Type 0
Applies {Quantity} x app d taken p =
    (before : List (String × Object Quantity)) × (rest : List (String × Object Quantity)) × (planned
        app d
      ≡ before ++ rest)
    × (p.1.taken ≡ taken ++ map (λ (o : String × Object Quantity). o.1) before)
    × (((rest ≡ []) × (p.0 ≡ finished none))
        ⊎ ((f : Failure) × (p.0 ≡ finished (some f)) × Blamed x f))
    × All (IsHardened app) d.containers

-- A run that found no Application, or could not read it, and says so.
abbrev pub Unread :
    {Quantity : Type 0} → Outside Quantity → Cluster Quantity → Returned × Cluster Quantity → Type 0
Unread x c p =
    (p.1.taken ≡ c.taken)
    × ((((get x.api c.store).0 ≡ problem not_found) × (p.0 ≡ finished none))
        ⊎ ((e : ApiError) × ((get x.api c.store).0 ≡ problem e)
            × (e ≢ not_found)
            × (p.0 ≡ finished (some (record { step = ""; cause = e })))))

-- A run that read an Application with a quantity that resource.MustParse does not read.
abbrev pub Panicked :
    {Quantity : Type 0} → Outside Quantity → Cluster Quantity → Returned × Cluster Quantity → Type 0
Panicked x c p =
    (p.1.taken ≡ c.taken)
    × (p.0 ≡ panicked)
    × ((app : Application) × ((get x.api c.store).0 ≡ found app)
        × (desired_deployment x.must_parse app ≡ none))

-- A run that applies something.
abbrev pub Brought :
    {Quantity : Type 0} → Outside Quantity → Cluster Quantity → Returned × Cluster Quantity → Type 0
Brought {Quantity} x c p =
    (app : Application) × (d : Deployment Quantity) × ((get x.api c.store).0 ≡ found app)
    × (desired_deployment x.must_parse app ≡ some d)
    × Applies x app d c.taken p
