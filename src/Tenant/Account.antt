-- ===== src/Tenant/Account.antt =====
-- The aggregate root of internal/modules/tenant/domain/tenant.go and its events (events.go, ids.go). A method on
-- *Tenant returns the tenant as it leaves it, and the error.
pub mod Standing
use forge_platform.Base.{ℕ, String, not, if◌then◌else◌, Option, none, some, List, [], ◌∷◌, ◌++◌}
use forge_platform.Base.Words.{inc64}
use forge_platform.Platform.{Env}
use forge_platform.Apperr.{GoError, Result, ok, err}
use forge_platform.Tenant.Values.{
  TenantName, Slug, Plan, plan_text, Status, active, archived, status_text, status_eq,
  status_can_transition_to, Quota, err_illegal_status_transition, err_archived,
  err_invalid_tenant_id,
}

or_invalid_id : Option ℕ → Result ℕ
or_invalid_id none = err err_invalid_tenant_id
or_invalid_id (some u) = ok u

-- TenantIDFromString
unfoldable pub parse_tenant_id : Env → String → Result ℕ
unfolding or_invalid_id
parse_tenant_id env s = or_invalid_id (env.uuid_parse s)

-- The embedded `base`: the aggregate's id as text, and the time.
pub record TenantEventBase : Type 0 where
  pub id : String
  pub at : ℕ

pub data TenantEvent : Type 0 where
  tenant_created : TenantEventBase → String → String → String → TenantEvent
  tenant_status_changed : TenantEventBase → String → String → TenantEvent
  tenant_quota_updated : TenantEventBase → ℕ → TenantEvent

-- EventType
unfoldable pub tenant_event_type : TenantEvent → String
tenant_event_type (tenant_created b n s p) = "tenant.created"
tenant_event_type (tenant_status_changed b f t) = "tenant.status_changed"
tenant_event_type (tenant_quota_updated b m) = "tenant.quota_updated"

abbrev pub tenant_event_base : TenantEvent → TenantEventBase
tenant_event_base (tenant_created b n s p) = b
tenant_event_base (tenant_status_changed b f t) = b
tenant_event_base (tenant_quota_updated b m) = b

pub record Tenant : Type 0 where
  pub id : ℕ
  pub name : TenantName
  pub slug : Slug
  pub plan : Plan
  pub status : Status
  pub quota : Quota
  pub version : ℕ  -- int64
  pub created_at : ℕ
  pub updated_at : ℕ
  pub events : List TenantEvent

-- touch
abbrev pub touch_tenant : ℕ → Tenant → Tenant
touch_tenant now t = record t { version = inc64 t.version; updated_at = now }

-- record
abbrev pub record_tenant_event : TenantEvent → Tenant → Tenant
record_tenant_event e t = record t { events = t.events ++ e ∷ [] }

-- Create
unfoldable pub create : Env → ℕ → TenantName → Slug → Plan → Quota → ℕ → Tenant
create env id name slug plan quota now =
    record_tenant_event
      (tenant_created (record { id = env.uuid_print id; at = now }) name.v slug.v (plan_text plan))
      (record {
        id = id;
        name = name;
        slug = slug;
        plan = plan;
        status = active;
        quota = quota;
        version = 1;
        created_at = now;
        updated_at = now;
        events = [];
      })

-- ChangeStatus
unfoldable pub change_status : Env → Status → ℕ → Tenant → Tenant × Option GoError
change_status env target now t =
    if status_eq t.status target
    then (t, none)
    else if not (status_can_transition_to t.status target)
    then (t, some err_illegal_status_transition)
    else (
      record_tenant_event
          (tenant_status_changed (record { id = env.uuid_print t.id; at = now })
            (status_text t.status) (status_text target))
          (touch_tenant now (record t { status = target })),
      none,
    )

-- UpdateQuota
unfoldable pub update_quota : Env → Quota → ℕ → Tenant → Tenant × Option GoError
update_quota env q now t = if status_eq t.status archived then (t, some err_archived) else (
  record_tenant_event
      (tenant_quota_updated (record { id = env.uuid_print t.id; at = now }) q.max_services)
      (touch_tenant now (record t { quota = q })),
  none,
)

-- PullEvents
unfoldable pub pull_tenant_events : Tenant → List TenantEvent × Tenant
pull_tenant_events t = (t.events, record t { events = [] })

-- A call of one of the two methods, with its arguments.
pub data TenantChange : Type 0 where
  status_change : Status → ℕ → TenantChange
  quota_update : Quota → ℕ → TenantChange

unfoldable pub change_tenant : Env → TenantChange → Tenant → Tenant × Option GoError
unfolding change_status update_quota status_can_transition_to
change_tenant env (status_change target now) t = change_status env target now t
change_tenant env (quota_update q now) t = update_quota env q now t

-- The tenant after a list of calls, whatever each of them returns.
unfoldable pub change_tenant_all : Env → List TenantChange → Tenant → Tenant
change_tenant_all env [] t = t
change_tenant_all env (c ∷ cs) t = change_tenant_all env cs (change_tenant env c t).0
