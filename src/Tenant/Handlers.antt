-- ===== src/Tenant/Handlers.antt =====
-- The HTTP handlers of tenants: internal/modules/tenant/api/handlers.go and dto.go.
use Prim.Native.String.{◌++◌ as ◌⧺◌}
use forge_platform.Base.{ℕ, String, none, List, [], ◌∷◌, map}
use forge_platform.Base.Decimal.{parse_int}
use forge_platform.Platform.{Env}
use forge_platform.Apperr.{Result, ok, ◌>>=◌ as ◌then_ok◌}
use forge_platform.Db.{World, ◌>>=◌, lift}
use forge_platform.Http.{
  Request, Decoded, value, Response, Page, json, answer, decode, if_match, etag,
}
use forge_platform.Catalog.Handlers.Filters.{given, present, limit_of, order_of}
use forge_platform.Tenant.Values.{plan_text, status_text, parse_plan, parse_status}
use forge_platform.Tenant.Account.{Tenant}
use forge_platform.Tenant.Commands.{
  CreateTenantInput, create_tenant, change_status_command, update_quota_command,
}
use forge_platform.Tenant.Listing.{TenantFilter, TenantCodec, list_tenants, get_tenant}

-- TenantResponse
pub record TenantResponse : Type 0 where
  pub id : String
  pub name : String
  pub slug : String
  pub plan : String
  pub status : String
  pub max_services : ℕ
  pub version : ℕ
  pub created_at : ℕ
  pub updated_at : ℕ

-- toResponse
unfoldable pub to_tenant_response : Env → Tenant → TenantResponse
to_tenant_response env t = record {
  id = env.uuid_print t.id;
  name = t.name.v;
  slug = t.slug.v;
  plan = plan_text t.plan;
  status = status_text t.status;
  max_services = t.quota.max_services;
  version = t.version;
  created_at = t.created_at;
  updated_at = t.updated_at;
}

abbrev pub tenant_answer : Env → Tenant → Response TenantResponse
tenant_answer env t = json (etag t.version ∷ []) 200 (value (to_tenant_response env t))

-- Create; the body has the fields of the command's input.
unfoldable pub create_handler :
    Env → Request → Decoded CreateTenantInput → World → Response TenantResponse × World
create_handler env r body = decode r body λ req. answer r (create_tenant env req) λ t.
    json (("Location", "/api/v1/tenants/" ⧺ env.uuid_print t.id) ∷ etag t.version ∷ []) 201
      (value (to_tenant_response env t))

-- Get
unfoldable pub get_tenant_handler : Env → Request → World → Response TenantResponse × World
get_tenant_handler env r = answer r (get_tenant env (r.url_param "id")) (tenant_answer env)

-- ChangeStatus; the body is the status.
unfoldable pub change_status_handler :
    Env → Request → Decoded String → World → Response TenantResponse × World
change_status_handler env r body = decode r body λ status.
    answer r
      (change_status_command env (record {
        tenant_id = r.url_param "id";
        status_name = status;
        expected_version = if_match r;
      }))
      (tenant_answer env)

-- UpdateQuota; the body is the quota.
unfoldable pub update_quota_handler :
    Env → Request → Decoded ℕ → World → Response TenantResponse × World
update_quota_handler env r body = decode r body λ quota.
    answer r
      (update_quota_command env (record {
        tenant_id = r.url_param "id";
        max_services = quota;
        expected_version = if_match r;
      }))
      (tenant_answer env)

-- parseListFilter
unfoldable pub parse_tenant_filter : Request → Result TenantFilter
parse_tenant_filter r =
    given (r.parameter "limit") 50 (limit_of (parse_int (r.parameter "limit"))) then_ok λ limit.
    given (r.parameter "status") none (present (parse_status (r.parameter "status")))
    then_ok λ status.
        given (r.parameter "plan") none (present (parse_plan (r.parameter "plan"))) then_ok λ plan.
        order_of (r.parameter "order") then_ok λ order. ok (record {
          status = status;
          plan = plan;
          order = order;
          limit = limit;
          cursor = r.parameter "cursor";
        })

-- List
unfoldable pub list_tenants_handler :
    Env → TenantCodec → Request → World → Response (Page TenantResponse) × World
list_tenants_handler env codec r =
    answer r (lift (parse_tenant_filter r) >>= list_tenants env codec) λ (p : List Tenant × String).
      json [] 200 (value (record { items = map (to_tenant_response env) p.0; next_cursor = p.1 }))
