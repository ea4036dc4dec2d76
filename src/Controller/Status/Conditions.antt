-- ===== src/Controller/Status/Conditions.antt =====
-- setCondition of internal/controller/application_controller.go as a map from types to conditions.
use forge_platform.Base.{ℕ, String, if◌then◌else◌, Option, none, some, List, str_eq, find}
use forge_platform.Controller.{Condition}
use forge_platform.Controller.Status.{stamp}

abbrev pub condition : String → List Condition → Option Condition
condition kind = find (λ (q : Condition). str_eq q.kind kind)

-- The condition that is stored for `c` over the one that was there.
abbrev pub merged : ℕ → Condition → Option Condition → Condition
merged now c none = stamp now c
merged now c (some q) =
    if str_eq q.status c.status
    then record c { last_transition_time = q.last_transition_time }
    else stamp now c
