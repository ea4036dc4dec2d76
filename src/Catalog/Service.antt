-- ===== src/Catalog/Service.antt =====
-- The aggregate root of internal/modules/catalog/domain/service.go and its events (events.go, ids.go). A method
-- on *Service returns the service as it leaves it, and the error.
pub mod Invariant
pub mod Replay
use forge_platform.Base.{
  ℕ, String, not, ◌&&◌, if◌then◌else◌, Option, none, some, List, [], ◌∷◌, ◌++◌,
}
use forge_platform.Base.Words.{inc64}
use forge_platform.Platform.{Env}
use forge_platform.Apperr.{GoError, Result, ok, err}
use forge_platform.Catalog.Values.{
  ServiceName, Tier, Lifecycle, experimental, production, retired, lifecycle_text, lifecycle_eq,
  can_transition_to, Ownership, has_on_call, err_already_retired, err_on_call_required,
  err_illegal_transition, err_invalid_service_id, err_invalid_tenant_id,
}

or_invalid : GoError → Option ℕ → Result ℕ
or_invalid e none = err e
or_invalid e (some u) = ok u

-- ServiceIDFromString
unfoldable pub service_id_from_string : Env → String → Result ℕ
unfolding or_invalid
service_id_from_string env s = or_invalid err_invalid_service_id (env.uuid_parse s)

-- TenantIDFromString
unfoldable pub tenant_id_from_string : Env → String → Result ℕ
unfolding or_invalid
tenant_id_from_string env s = or_invalid err_invalid_tenant_id (env.uuid_parse s)

-- The embedded `base`: the aggregate's id as text, and the time.
pub record EventBase : Type 0 where
  pub id : String
  pub at : ℕ

pub data Event : Type 0 where
  service_registered : EventBase → String → String → ℕ → Event
  service_ownership_changed : EventBase → String → String → Event
  service_lifecycle_changed : EventBase → String → String → Event
  service_retired : EventBase → Event

-- EventType
unfoldable pub event_type : Event → String
event_type (service_registered b t n r) = "catalog.service.registered"
event_type (service_ownership_changed b p n) = "catalog.service.ownership_changed"
event_type (service_lifecycle_changed b f t) = "catalog.service.lifecycle_changed"
event_type (service_retired b) = "catalog.service.retired"

abbrev pub event_base : Event → EventBase
event_base (service_registered b t n r) = b
event_base (service_ownership_changed b p n) = b
event_base (service_lifecycle_changed b f t) = b
event_base (service_retired b) = b

pub record Service : Type 0 where
  pub id : ℕ
  pub tenant_id : ℕ
  pub name : ServiceName
  pub description : String
  pub tier : Tier
  pub lifecycle : Lifecycle
  pub repository : String
  pub ownership : Ownership
  pub version : ℕ  -- int64
  pub created_at : ℕ
  pub updated_at : ℕ
  pub events : List Event

-- touch
abbrev pub touch : ℕ → Service → Service
touch now s = record s { version = inc64 s.version; updated_at = now }

-- record
abbrev pub record_event : Event → Service → Service
record_event e s = record s { events = s.events ++ e ∷ [] }

-- Register
unfoldable pub register :
    Env → ℕ → ℕ → ServiceName → String → Tier → String → Ownership → ℕ → Service
register env id tenant name description tier repository ownership now =
    record_event
      (service_registered (record { id = env.uuid_print id; at = now }) (env.uuid_print tenant)
        name.v tier.v)
      (record {
        id = id;
        tenant_id = tenant;
        name = name;
        description = description;
        tier = tier;
        lifecycle = experimental;
        repository = repository;
        ownership = ownership;
        version = 1;
        created_at = now;
        updated_at = now;
        events = [];
      })

-- Reconstitute
unfoldable pub reconstitute :
    ℕ → ℕ → ServiceName → String → Tier → Lifecycle → String → Ownership → ℕ → ℕ → ℕ → Service
reconstitute id tenant name description tier lifecycle repository ownership version created
      updated =
    record {
      id = id;
      tenant_id = tenant;
      name = name;
      description = description;
      tier = tier;
      lifecycle = lifecycle;
      repository = repository;
      ownership = ownership;
      version = version;
      created_at = created;
      updated_at = updated;
      events = [];
    }

-- ChangeOwnership
unfoldable pub change_ownership : Env → Ownership → ℕ → Service → Service × Option GoError
change_ownership env o now s =
    if lifecycle_eq s.lifecycle retired
    then (s, some err_already_retired)
    else if lifecycle_eq s.lifecycle production && not (has_on_call o)
    then (s, some err_on_call_required)
    else (
      record_event
          (service_ownership_changed (record { id = env.uuid_print s.id; at = now })
            s.ownership.owning_team o.owning_team)
          (touch now (record s { ownership = o })),
      none,
    )

-- ChangeLifecycle
unfoldable pub change_lifecycle : Env → Lifecycle → ℕ → Service → Service × Option GoError
change_lifecycle env target now s =
    if lifecycle_eq s.lifecycle target
    then (s, none)
    else if not (can_transition_to s.lifecycle target)
    then (s, some err_illegal_transition)
    else if lifecycle_eq target production && not (has_on_call s.ownership)
    then (s, some err_on_call_required)
    else (
      record_event
          (service_lifecycle_changed (record { id = env.uuid_print s.id; at = now })
            (lifecycle_text s.lifecycle) (lifecycle_text target))
          (touch now (record s { lifecycle = target })),
      none,
    )

-- Retire
unfoldable pub retire : Env → ℕ → Service → Service × Option GoError
retire env now s = if lifecycle_eq s.lifecycle retired then (s, none) else (
  record_event (service_retired (record { id = env.uuid_print s.id; at = now }))
      (touch now (record s { lifecycle = retired })),
  none,
)

-- PullEvents
unfoldable pub pull_events : Service → List Event × Service
pull_events s = (s.events, record s { events = [] })

-- A call of one of the three methods, with its arguments.
pub data Change : Type 0 where
  ownership : Ownership → ℕ → Change
  lifecycle : Lifecycle → ℕ → Change
  retirement : ℕ → Change

unfoldable pub change : Env → Change → Service → Service × Option GoError
unfolding change_ownership change_lifecycle retire can_transition_to
change env (ownership o now) s = change_ownership env o now s
change env (lifecycle l now) s = change_lifecycle env l now s
change env (retirement now) s = retire env now s

-- The service after a list of calls, whatever each of them returns.
unfoldable pub changes : Env → List Change → Service → Service
changes env [] s = s
changes env (c ∷ cs) s = changes env cs (change env c s).0
