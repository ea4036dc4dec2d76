-- ===== src/Tenant/Repository/Reading.antt =====
-- Rows of tenants that read back (internal/modules/tenant/adapters/postgres/repository.go).
use forge_platform.Base.{
  ◌+◌, ◌≡◌, refl, ap, ◌∙◌, Bool, false, some, List, [], ◌∷◌, ◌++◌, any, find, str_eq, eq_iff, ◌==◌,
  ==_iff, ==_refl, arith,
}
use forge_platform.Db.{TenantRow, World, Db, rows, query, to_go, lift, ◌>>=◌}
use forge_platform.Db.Steps.{query_ok, step_done}
use forge_platform.Platform.{Env, IsUuidText, done, column_time}
use forge_platform.Apperr.{Result, ok, wrapped}
use forge_platform.Tenant.Values.{
  Plan, free, standard, enterprise, plan_text, parse_plan, Status, active, suspended, archived,
  status_text, parse_status, new_tenant_name, new_slug, new_quota,
}
use forge_platform.Tenant.Account.{Tenant, parse_tenant_id, pull_tenant_events}
use forge_platform.Tenant.Repository.{
  tenant_row, scan_tenant, insert_tenant_row, tenant_clashes, insert_tenant, find_tenant_by_id,
  find_by_slug, select_tenant, scan_tenant_row,
}

-- The value objects of a tenant came out of their constructors.
pub record IsMade (t : Tenant) : Type 0 where
  pub name_valid : new_tenant_name t.name.v ≡ ok t.name
  pub slug_valid : new_slug t.slug.v ≡ ok t.slug
  pub quota_valid : new_quota t.quota.max_services ≡ ok t.quota

parse_plan-plan_text : (p : Plan) → parse_plan (plan_text p) ≡ ok p
unfolding parse_plan
parse_plan-plan_text free = refl
parse_plan-plan_text standard = refl
parse_plan-plan_text enterprise = refl

parse_status-status_text : (s : Status) → parse_status (status_text s) ≡ ok s
unfolding parse_status
parse_status-status_text active = refl
parse_status-status_text suspended = refl
parse_status-status_text archived = refl

-- A tenant with its instants as the columns hold them.
abbrev pub tenant_at_rest : Tenant → Tenant
tenant_at_rest t = record t {
  created_at = column_time t.created_at;
  updated_at = column_time t.updated_at;
}

scan_tenant-tenant_row :
    (env : Env) (t : Tenant)
    → IsUuidText env
    → IsMade t
    → scan_tenant env (tenant_row t) ≡ ok (tenant_at_rest (pull_tenant_events t).1)
unfolding scan_tenant parse_tenant_id pull_tenant_events
scan_tenant-tenant_row env t u h = rw (
  u.parse_print t.id,
  h.name_valid,
  h.slug_valid,
  parse_plan-plan_text t.plan,
  parse_status-status_text t.status,
  h.quota_valid,
)

insert_tenant_row_ok :
    (r : TenantRow) (db db' : Db)
    → insert_tenant_row r db ≡ rows tt db'
    → (any (tenant_clashes r) db.tenants ≡ false)
      × (db' ≡ record db { tenants = db.tenants ++ r ∷ [] })
unfolding insert_tenant_row
insert_tenant_row_ok r db db' h = ground arith

find-id :
    (r : TenantRow) (qs : List TenantRow)
    → any (tenant_clashes r) qs ≡ false
    → find (λ (q : TenantRow). q.id == r.id) (qs ++ r ∷ []) ≡ some r
unfolding tenant_clashes
find-id r [] h = rw (==_refl r.id) refl
find-id r (q ∷ qs) h = ground (arith, find-id r qs, ==_iff q.id r.id, ==_iff r.id q.id)

find-slug :
    (r : TenantRow) (qs : List TenantRow)
    → any (tenant_clashes r) qs ≡ false
    → find (λ (q : TenantRow). str_eq q.slug r.slug) (qs ++ r ∷ []) ≡ some r
unfolding tenant_clashes
find-slug r [] h = rw ((eq_iff r.slug r.slug).1 refl) refl
find-slug r (q ∷ qs) h = ground (arith, find-slug r qs, eq_iff q.slug r.slug, eq_iff r.slug q.slug)

-- What both lookups answer where their SELECT finds the row of a tenant.
reads_back :
    (env : Env) (t : Tenant) (p : TenantRow → Bool) (w : World)
    → IsUuidText env
    → IsMade t
    → env.outcome w.calls ≡ done
    → find p w.db.tenants ≡ some (tenant_row t)
    → (query env (λ e. wrapped "scan tenant" (to_go e)) (select_tenant p) >>= λ found.
          lift (scan_tenant_row env found))
        w
      ≡ (ok (tenant_at_rest (pull_tenant_events t).1), record w { calls = w.calls + 1 })
unfolding select_tenant scan_tenant_row
reads_back env t p w u m up there =
    step_done env _ (select_tenant p) _ w up (ap (λ o. rows o w.db) there)
    ∙ ap (λ r. (r, record w { calls = w.calls + 1 })) (scan_tenant-tenant_row env t u m)

-- Where package uuid parses what it prints: once a tenant whose value objects came out of their
-- constructors has been inserted without an error, a lookup by its id and one by its slug that the
-- server answers both give that tenant back, with its instants rounded down to whole microseconds and no
-- events pending, and change no table.
pub insert_tenant-find :
    (env : Env) (t : Tenant) (w : World)
    → IsUuidText env
    → IsMade t
    → (insert_tenant env t w).0 ≡ ok tt
    → env.outcome (insert_tenant env t w).1.calls ≡ done
    → let after = (insert_tenant env t w).1 in
      let answer : Result Tenant × World =
        (ok (tenant_at_rest (pull_tenant_events t).1), record after { calls = after.calls + 1 }) in
      (find_tenant_by_id env t.id after ≡ answer) × (find_by_slug env t.slug after ≡ answer)
unfolding insert_tenant find_tenant_by_id find_by_slug
insert_tenant-find env t w u m h up =
    let after = (insert_tenant env t w).1 in
    let (db, carried, next) = query_ok env _ (insert_tenant_row (tenant_row t)) w h in
    let (new, is_db) = insert_tenant_row_ok (tenant_row t) w.db db carried in
    let there : after.db.tenants ≡ w.db.tenants ++ tenant_row t ∷ [] =
      ap (λ (v : World). v.db.tenants) next ∙ ap (λ (d : Db). d.tenants) is_db in
    (
      reads_back env t (λ r. r.id == t.id) after u m up
          (ap (find (λ (r : TenantRow). r.id == t.id)) there
            ∙ find-id (tenant_row t) w.db.tenants new),
      reads_back env t (λ r. str_eq r.slug t.slug.v) after u m up
          (ap (find (λ (r : TenantRow). str_eq r.slug t.slug.v)) there
            ∙ find-slug (tenant_row t) w.db.tenants new),
    )
