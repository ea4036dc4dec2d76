-- ===== src/Tenant/Commands.antt =====
-- The use cases of internal/modules/tenant/app/commands.go: each is one unit of work.
use forge_platform.Base.{ℕ, String, Bool, false, if◌then◌else◌, Option, none, some, str_eq}
use forge_platform.Base.Words.{slt64}
use forge_platform.Platform.{Env}
use forge_platform.Apperr.{
  GoError, app, caused, plain, wrapped, Result, ok, err, ◌>>=◌ as ◌then_ok◌,
}
use forge_platform.Db.{Act, ◌>>=◌, ◌>>◌, pure, raise, lift}
use forge_platform.Db.Tx.{execute}
use forge_platform.Tenant.Values.{
  Slug, new_tenant_name, new_slug, parse_plan, parse_status, new_quota, err_slug_conflict,
}
use forge_platform.Tenant.Account.{
  Tenant, create, TenantChange, status_change, quota_update, change_tenant, pull_tenant_events,
  parse_tenant_id,
}
use forge_platform.Tenant.Repository.{
  insert_tenant, update_tenant, find_tenant_by_id, find_by_slug, append_tenant_events,
}

pub record CreateTenantInput : Type 0 where
  pub name : String
  pub slug : String
  pub plan : String
  pub max_services : ℕ

-- err == domain.ErrTenantNotFound, which is told by its code.
unfoldable pub is_no_tenant : GoError → Bool
is_no_tenant (app k c m d) = str_eq c "TENANT_NOT_FOUND"
is_no_tenant (caused k c m d e) = false
is_no_tenant (plain m) = false
is_no_tenant (wrapped m e) = false

-- The test of the slug: `r` is what FindBySlug returned.
slug_free : Result Tenant → Result (Unit {0})
unfolding is_no_tenant
slug_free (ok t) = err err_slug_conflict
slug_free (err e) = if is_no_tenant e then ok tt else err e

-- outbox.Append(ctx, tenant.PullEvents()...)
append_pulled_tenant : Env → Tenant → Act Tenant
append_pulled_tenant env t =
    let (es, t') = pull_tenant_events t in do append_tenant_events env es; pure t'

check_slug : Env → Slug → Act (Unit {0})
unfolding slug_free
check_slug env slug w = let (r, w') = find_by_slug env slug w in (slug_free r, w')

-- The function that CreateTenant hands to Execute.
unfoldable pub create_body : Env → Slug → Tenant → Act Tenant
unfolding check_slug append_pulled_tenant
create_body env slug t = do check_slug env slug; insert_tenant env t; append_pulled_tenant env t

-- What CreateTenant makes of its input before the transaction: the tenant, with the id and the
-- time that are drawn for it.
unfoldable pub parse_tenant : Env → ℕ → CreateTenantInput → Result Tenant
parse_tenant env n i = new_tenant_name i.name then_ok λ name. new_slug i.slug then_ok λ slug.
    parse_plan i.plan then_ok λ plan. new_quota i.max_services then_ok λ quota.
    ok (create env (env.fresh_uuid n) name slug plan quota (env.now n))

-- CreateTenant
unfoldable pub create_tenant : Env → CreateTenantInput → Act Tenant
unfolding create_body parse_tenant
create_tenant env i w =
    (do t ← lift (parse_tenant env w.calls i); execute env (create_body env t.slug t)) w

-- expectedVersionOr
unfoldable pub tenant_version_or : ℕ → ℕ → ℕ
tenant_version_or provided current = if slt64 0 provided then provided else current

-- The error of a method of the aggregate.
returned_tenant : Tenant × Option GoError → Act Tenant
returned_tenant (t, none) = pure t
returned_tenant (t, some e) = raise e

-- `apply`: a method of the aggregate, at the time that the clock shows.
apply_tenant_change : Env → (ℕ → TenantChange) → Tenant → Act Tenant
unfolding returned_tenant
apply_tenant_change env c t w = returned_tenant (change_tenant env (c (env.now w.calls)) t) w

-- The function that mutate hands to Execute.
unfoldable pub mutate_tenant_body : Env → ℕ → ℕ → (ℕ → TenantChange) → Act Tenant
unfolding apply_tenant_change append_pulled_tenant
mutate_tenant_body env id expected c = do
  t ← find_tenant_by_id env id
  t' ← apply_tenant_change env c t
  update_tenant env t' (tenant_version_or expected t.version)
  append_pulled_tenant env t'

-- mutate
unfoldable pub mutate_tenant : Env → ℕ → ℕ → (ℕ → TenantChange) → Act Tenant
unfolding mutate_tenant_body
mutate_tenant env id expected c = execute env (mutate_tenant_body env id expected c)

pub record ChangeStatusInput : Type 0 where
  pub tenant_id : String
  pub status_name : String
  pub expected_version : ℕ

-- ChangeStatus
unfoldable pub change_status_command : Env → ChangeStatusInput → Act Tenant
unfolding mutate_tenant
change_status_command env i = do
  id ← lift (parse_tenant_id env i.tenant_id)
  target ← lift (parse_status i.status_name)
  mutate_tenant env id i.expected_version (status_change target)

pub record UpdateQuotaInput : Type 0 where
  pub tenant_id : String
  pub max_services : ℕ
  pub expected_version : ℕ

-- UpdateQuota
unfoldable pub update_quota_command : Env → UpdateQuotaInput → Act Tenant
unfolding mutate_tenant
update_quota_command env i = do
  id ← lift (parse_tenant_id env i.tenant_id)
  quota ← lift (new_quota i.max_services)
  mutate_tenant env id i.expected_version (quota_update quota)
