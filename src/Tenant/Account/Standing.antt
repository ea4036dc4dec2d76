-- ===== src/Tenant/Account/Standing.antt =====
-- What holds of a tenant between two calls of its methods (internal/modules/tenant/domain/tenant.go).
use forge_platform.Base.{
  ℕ, String, ◌≡◌, refl, ◌≢◌, List, [], ◌∷◌, ◌++◌, arith, true, false, Bool-cases, ◌⊎◌, inl, inr,
}
use forge_platform.Platform.{Env}
use forge_platform.Tenant.Values.{
  TenantName, Slug, Plan, Status, active, archived, status_text, status_eq, plan_text,
  status_can_transition_to, Quota,
}
use forge_platform.Tenant.Account.{
  Tenant, TenantEvent, TenantEventBase, TenantChange, tenant_created, tenant_status_changed,
  tenant_quota_updated, status_change, quota_update, change_tenant, change_tenant_all, create,
  change_status, update_quota,
}

-- A history of a tenant: it is created active; its status moves along the permitted transitions;
-- its quota changes while it is not archived. The indices are the events, and the state they lead to.
pub data Standing : List TenantEvent → Status → Quota → Type 0 where
  created :
      (b : TenantEventBase) (n s p : String) (q : Quota)
      → Standing (tenant_created b n s p ∷ []) active q
  moved :
      {es fs : List TenantEvent} {s t : Status} {q : Quota} (b : TenantEventBase)
      → Standing es s q
      → status_can_transition_to s t ≡ true
      → fs ≡ es ++ tenant_status_changed b (status_text s) (status_text t) ∷ []
      → Standing fs t q
  granted :
      {es fs : List TenantEvent} {s : Status} {q r : Quota} (b : TenantEventBase)
      → Standing es s q
      → s ≢ archived
      → fs ≡ es ++ tenant_quota_updated b r.max_services ∷ []
      → Standing fs s r

abbrev Stands : Tenant → Type 0
Stands t = Standing t.events t.status t.quota

eq_or_ne_status : (s t : Status) → (status_eq s t ≡ true) ⊎ ((status_eq s t ≡ false) × (s ≢ t))
eq_or_ne_status s t = ground arith

change_status-Stands :
    (env : Env) (target : Status) (now : ℕ) (t : Tenant)
    → Stands t
    → Stands (change_status env target now t).0
unfolding change_status
change_status-Stands env target now t h = elim (Bool-cases (status_eq t.status target)) [
  | inl same ↦ rw same h
  | inr differs ↦ elim (Bool-cases (status_can_transition_to t.status target)) [
    | inr illegal ↦ rw (differs, illegal) h
    | inl legal ↦
        rw (differs, legal) (moved (record { id = env.uuid_print t.id; at = now }) h legal refl)
  ]
]

update_quota-Stands :
    (env : Env) (q : Quota) (now : ℕ) (t : Tenant) → Stands t → Stands (update_quota env q now t).0
unfolding update_quota
update_quota-Stands env q now t h = elim (eq_or_ne_status t.status archived) [
  | inl old ↦ rw old h
  | inr (live, ne) ↦ rw live (granted (record { id = env.uuid_print t.id; at = now }) h ne refl)
]

change_tenant_all-Stands :
    (env : Env) (cs : List TenantChange) (t : Tenant)
    → Stands t
    → Stands (change_tenant_all env cs t)
unfolding change_tenant_all change_tenant
change_tenant_all-Stands env [] t h = h
change_tenant_all-Stands env (status_change target now ∷ cs) t h =
    change_tenant_all-Stands env cs (change_status env target now t).0
      (change_status-Stands env target now t h)
change_tenant_all-Stands env (quota_update q now ∷ cs) t h =
    change_tenant_all-Stands env cs (update_quota env q now t).0 (update_quota-Stands env q now t h)

-- After any calls, the events of a tenant that was created are a history of it: they begin with its
-- creation, move its status only along permitted transitions, change no quota of an archived tenant,
-- and end in the status and the quota that it has.
pub create-Standing :
    (env : Env) (id : ℕ) (name : TenantName) (slug : Slug) (plan : Plan) (quota : Quota) (now : ℕ)
    (cs : List TenantChange)
    → let t = change_tenant_all env cs (create env id name slug plan quota now) in
      Standing t.events t.status t.quota
unfolding create
create-Standing env id name slug plan quota now cs =
    change_tenant_all-Stands env cs (create env id name slug plan quota now)
      (created (record { id = env.uuid_print id; at = now }) name.v slug.v (plan_text plan) quota)
