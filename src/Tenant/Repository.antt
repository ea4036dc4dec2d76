-- ===== src/Tenant/Repository.antt =====
-- The Postgres repository and outbox of internal/modules/tenant/adapters/postgres: repository.go and outbox.go.
-- Each statement is what its SQL text does to the tables of migrations/0002_tenant.up.sql.
pub mod Reading
use forge_platform.Base.{
  ℕ, zero, suc, String, Bool, false, not, ◌&&◌, ◌||◌, if◌then◌else◌, Option, none, some, List, [],
  ◌∷◌, ◌++◌, str_eq, ◌==◌, ltb, map, any, find, select, length,
}
use forge_platform.Base.Words.{half32}
use forge_platform.Platform.{column_time, Env}
use forge_platform.Apperr.{
  GoError, app, caused, plain, wrapped, Result, ok, err, ◌>>=◌ as ◌then_ok◌, internal_error,
  with_cause,
}
use forge_platform.Db.{
  TenantRow, Json, text, number, OutboxRow, DbError, unique_violation, other_error, rows, duplicate,
  refused, Statement, to_go, Act, ◌>>=◌, ◌>>◌, pure, lift, query,
}
use forge_platform.Catalog.Repository.{insert_outbox_row}
use forge_platform.Tenant.Values.{
  Slug, new_tenant_name, new_slug, parse_plan, plan_text, parse_status, status_text, new_quota,
  err_tenant_not_found, err_slug_conflict, err_tenant_version_conflict,
}
use forge_platform.Tenant.Account.{
  Tenant, TenantEvent, tenant_created, tenant_status_changed, tenant_quota_updated,
  tenant_event_type, tenant_event_base, parse_tenant_id,
}

-- The parameters of the INSERT: a row for the aggregate.
abbrev pub tenant_row : Tenant → TenantRow
tenant_row t = record {
  id = t.id;
  name = t.name.v;
  slug = t.slug.v;
  plan = plan_text t.plan;
  status = status_text t.status;
  max_services = t.quota.max_services;
  version = t.version;
  created_at = column_time t.created_at;
  updated_at = column_time t.updated_at;
}

-- The column INTEGER of max_services, which no larger number fits.
unfoldable pub quota_fits : ℕ → Bool
quota_fits n = ltb n half32

-- The primary key, and tenants_slug_unique.
unfoldable pub tenant_clashes : TenantRow → TenantRow → Bool
tenant_clashes r q = r.id == q.id || str_eq r.slug q.slug

-- INSERT INTO tenants
unfoldable pub insert_tenant_row : TenantRow → Statement (Unit {0})
unfolding quota_fits tenant_clashes
insert_tenant_row r db =
    if not (quota_fits r.max_services)
    then refused
    else if any (tenant_clashes r) db.tenants
    then duplicate
    else rows tt (record db { tenants = db.tenants ++ r ∷ [] })

insert_tenant_error : DbError → GoError
insert_tenant_error (unique_violation t) = err_slug_conflict
insert_tenant_error (other_error t) = wrapped "insert tenant" (plain t)

-- Repository.Insert
unfoldable pub insert_tenant : Env → Tenant → Act (Unit {0})
unfolding insert_tenant_error
insert_tenant env t = query env insert_tenant_error (insert_tenant_row (tenant_row t))

-- corrupt
corrupt_tenant : {A : Type 0} → Result A → Result A
corrupt_tenant (ok a) = ok a
corrupt_tenant (err e) =
    err (with_cause (internal_error "DATA_CORRUPTION" "stored tenant data is invalid") e)

-- scanTenant, for a row that was read.
unfoldable pub scan_tenant : Env → TenantRow → Result Tenant
unfolding corrupt_tenant
scan_tenant env r = corrupt_tenant (parse_tenant_id env (env.uuid_print r.id)) then_ok λ id.
    corrupt_tenant (new_tenant_name r.name) then_ok λ name.
    corrupt_tenant (new_slug r.slug) then_ok λ slug.
    corrupt_tenant (parse_plan r.plan) then_ok λ plan.
    corrupt_tenant (parse_status r.status) then_ok λ status.
    corrupt_tenant (new_quota r.max_services) then_ok λ quota. ok (record {
      id = id;
      name = name;
      slug = slug;
      plan = plan;
      status = status;
      quota = quota;
      version = r.version;
      created_at = r.created_at;
      updated_at = r.updated_at;
      events = [];
    })

scan_tenant_row : Env → Option TenantRow → Result Tenant
unfolding scan_tenant
scan_tenant_row env none = err err_tenant_not_found
scan_tenant_row env (some r) = scan_tenant env r

select_tenant : (TenantRow → Bool) → Statement (Option TenantRow)
select_tenant p db = rows (find p db.tenants) db

-- Repository.FindByID
unfoldable pub find_tenant_by_id : Env → ℕ → Act Tenant
unfolding scan_tenant_row select_tenant
find_tenant_by_id env id = do
  found ← query env (λ e. wrapped "scan tenant" (to_go e)) (select_tenant (λ r. r.id == id))
  lift (scan_tenant_row env found)

-- Repository.FindBySlug
unfoldable pub find_by_slug : Env → Slug → Act Tenant
unfolding scan_tenant_row select_tenant
find_by_slug env slug = do
  found ←
      query env (λ e. wrapped "scan tenant" (to_go e)) (select_tenant (λ r. str_eq r.slug slug.v))
  lift (scan_tenant_row env found)

-- The SET list of the UPDATE: the id, the slug and the creation time stay.
abbrev pub assign_tenant : Tenant → TenantRow → TenantRow
assign_tenant t r = record r {
  name = t.name.v;
  plan = plan_text t.plan;
  status = status_text t.status;
  max_services = t.quota.max_services;
  version = t.version;
  updated_at = column_time t.updated_at;
}

-- WHERE id = $7 AND version = $8
unfoldable pub is_target_tenant : ℕ → ℕ → TenantRow → Bool
is_target_tenant id expected r = r.id == id && r.version == expected

unfoldable pub update_tenant_rows : Tenant → ℕ → List TenantRow → List TenantRow
unfolding is_target_tenant
update_tenant_rows t expected =
    map (λ r. if is_target_tenant t.id expected r then assign_tenant t r else r)

-- UPDATE tenants; the answer is the number of rows that it changed.
unfoldable pub update_tenant_row : Tenant → ℕ → Statement ℕ
unfolding update_tenant_rows is_target_tenant quota_fits
update_tenant_row t expected db =
    let n = length (select (is_target_tenant t.id expected) db.tenants) in
    if not (quota_fits t.quota.max_services)
    then refused
    else rows n (record db { tenants = update_tenant_rows t expected db.tenants })

-- errors.Is on domain.ErrTenantNotFound, which is the only error with its code.
unfoldable pub is_tenant_not_found : GoError → Bool
is_tenant_not_found (app k c m d) = str_eq c "TENANT_NOT_FOUND"
is_tenant_not_found (caused k c m d e) = is_tenant_not_found e
is_tenant_not_found (plain m) = false
is_tenant_not_found (wrapped m e) = is_tenant_not_found e

missed_tenant : Result Tenant → Result (Unit {0})
unfolding is_tenant_not_found
missed_tenant (ok t) = err err_tenant_version_conflict
missed_tenant (err e) =
    err (if is_tenant_not_found e then err_tenant_not_found else err_tenant_version_conflict)

-- The branch on RowsAffected.
after_tenant_update : Env → Tenant → ℕ → Act (Unit {0})
unfolding missed_tenant
after_tenant_update env t zero w =
    let (r, w') = find_tenant_by_id env t.id w in (missed_tenant r, w')
after_tenant_update env t (suc n) w = (ok tt, w)

-- Repository.Update
unfoldable pub update_tenant : Env → Tenant → ℕ → Act (Unit {0})
unfolding after_tenant_update
update_tenant env t expected = do
  n ← query env (λ e. wrapped "update tenant" (to_go e)) (update_tenant_row t expected)
  after_tenant_update env t n

-- The JSON object of an event: its own exported fields.
unfoldable pub tenant_event_data : TenantEvent → List (String × Json)
tenant_event_data (tenant_created b name slug plan) =
    ("name", text name) ∷ ("slug", text slug) ∷ ("plan", text plan) ∷ []
tenant_event_data (tenant_status_changed b from to) = ("from", text from) ∷ ("to", text to) ∷ []
tenant_event_data (tenant_quota_updated b n) = ("maxServices", number n) ∷ []

-- The row of an event; created_at is the column's default, the start of the transaction.
unfoldable pub tenant_outbox_row : ℕ → ℕ → TenantEvent → OutboxRow
unfolding tenant_event_type tenant_event_data
tenant_outbox_row id started e = record {
  id = id;
  aggregate_id = (tenant_event_base e).id;
  event_type = tenant_event_type e;
  payload = record {
    event_type = tenant_event_type e;
    aggregate_id = (tenant_event_base e).id;
    fields = tenant_event_data e;
  };
  occurred_at = column_time (tenant_event_base e).at;
  published_at = none;
  created_at = column_time started;
}

append_tenant_event : Env → TenantEvent → Act (Unit {0})
append_tenant_event env e w =
    query env (λ x. wrapped "append outbox event" (to_go x))
      (insert_outbox_row (tenant_outbox_row (env.fresh_uuid w.calls) w.started e)) w

-- Outbox.Append
unfoldable pub append_tenant_events : Env → List TenantEvent → Act (Unit {0})
unfolding append_tenant_event
append_tenant_events env [] = pure tt
append_tenant_events env (e ∷ es) =
    let rest = append_tenant_events env es in do append_tenant_event env e; rest
