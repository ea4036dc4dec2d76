-- ===== src/Tenant/Listing.antt =====
-- Listing tenants: List and its cursors in internal/modules/tenant/adapters/postgres/repository.go, and the
-- queries of app/queries.go over it.
use forge_platform.Base.{
  ℕ, zero, suc, String, Bool, not, ◌&&◌, ◌||◌, if◌then◌else◌, Option, none, some, List, [], ◌∷◌,
  str_eq, ◌==◌, ltb, select, take, length, get_elem?,
}
use forge_platform.Base.Words.{slt64}
use forge_platform.Base.Sorting.{sort_by}
use forge_platform.Platform.{Env}
use forge_platform.Apperr.{plain, wrapped, Result, ok, err, ◌>>=◌ as ◌then_ok◌, validation_error}
use forge_platform.Db.{TenantRow, rows, refused, Statement, to_go, Act, ◌>>=◌, lift, query}
use forge_platform.Catalog.Listing.{SortOrder, no_order, ascending, descending, equals}
use forge_platform.Tenant.Values.{Plan, plan_text, Status, status_text}
use forge_platform.Tenant.Account.{Tenant, parse_tenant_id}
use forge_platform.Tenant.Repository.{scan_tenant, find_tenant_by_id}

-- ListFilter; the limit is an int.
pub record TenantFilter : Type 0 where
  pub status : Option Status
  pub plan : Option Plan
  pub order : SortOrder
  pub limit : ℕ
  pub cursor : String

-- cursor
pub record TenantCursor : Type 0 where
  pub created_at : String
  pub id : String

-- What cursors take from outside: a cursor as JSON in base64, and back; an instant as text; and what
-- the server's casts to timestamptz and uuid read.
pub record TenantCodec : Type 0 where
  pub cursor_text : TenantCursor → String
  pub cursor_read : String → Option TenantCursor
  pub time_text : ℕ → String
  pub time_read : String → Option ℕ
  pub uuid_read : String → Option ℕ

-- encodeCursor
unfoldable pub encode_tenant_cursor : Env → TenantCodec → Tenant → String
encode_tenant_cursor env codec t =
    codec.cursor_text
      (record { created_at = codec.time_text t.created_at; id = env.uuid_print t.id })

read_cursor : Option TenantCursor → Result TenantCursor
read_cursor none = err (validation_error "INVALID_CURSOR" "cursor is malformed")
read_cursor (some c) = ok c

-- decodeCursor, which does not read the order that it is given.
unfoldable pub decode_tenant_cursor : TenantCodec → String → SortOrder → Result TenantCursor
unfolding read_cursor
decode_tenant_cursor codec encoded order = read_cursor (codec.cursor_read encoded)

-- The WHERE clauses of the filter.
unfoldable pub tenant_matches : TenantFilter → TenantRow → Bool
unfolding equals
tenant_matches f r =
    equals (λ (s : Status). str_eq r.status (status_text s)) f.status
    && equals (λ (p : Plan). str_eq r.plan (plan_text p)) f.plan

-- (created_at, id) < (created_at, id)
abbrev pub earlier : ℕ × ℕ → ℕ × ℕ → Bool
earlier a b = ltb a.0 b.0 || (a.0 == b.0 && ltb a.1 b.1)

-- ASC or DESC on both columns.
unfoldable pub tenant_precedes : SortOrder → ℕ × ℕ → ℕ × ℕ → Bool
tenant_precedes descending a b = earlier b a
tenant_precedes ascending a b = earlier a b
tenant_precedes no_order a b = earlier a b

abbrev pub tenant_position : TenantRow → ℕ × ℕ
tenant_position r = (r.created_at, r.id)

-- WHERE …, ORDER BY …, LIMIT limit + 1
abbrev pub tenant_page_rows : TenantFilter → (TenantRow → Bool) → List TenantRow → List TenantRow
tenant_page_rows f p rs =
    take (suc f.limit) (
      sort_by (λ a b. tenant_precedes f.order (tenant_position a) (tenant_position b))
        (select p rs))

-- The position that a cursor names, after the casts; none where a cast fails.
tenant_cursor_position : TenantCodec → TenantCursor → Option (ℕ × ℕ)
tenant_cursor_position codec c = elim (codec.time_read c.created_at) [
  | none ↦ none
  | some t ↦ elim (codec.uuid_read c.id) [ none ↦ none | some u ↦ some (t, u) ]
]

after_tenant_position : TenantFilter → Option (ℕ × ℕ) → Statement (List TenantRow)
unfolding tenant_precedes
after_tenant_position f none db = refused
after_tenant_position f (some p) db =
    rows
      (tenant_page_rows f (λ r. tenant_matches f r && tenant_precedes f.order p (tenant_position r))
        db.tenants)
      db

-- The SELECT, from the start or from a cursor.
unfoldable pub select_tenants :
    TenantCodec → TenantFilter → Option TenantCursor → Statement (List TenantRow)
unfolding after_tenant_position tenant_cursor_position
select_tenants codec f none db = rows (tenant_page_rows f (tenant_matches f) db.tenants) db
select_tenants codec f (some c) db = after_tenant_position f (tenant_cursor_position codec c) db

-- The loop over rows.Next.
unfoldable pub scan_tenants : Env → List TenantRow → Result (List Tenant)
scan_tenants env [] = ok []
scan_tenants env (r ∷ rs) =
    scan_tenant env r then_ok λ t. scan_tenants env rs then_ok λ ts. ok (t ∷ ts)

cut_tenants_at :
    Env → TenantCodec → TenantFilter → List Tenant → Option Tenant → Result (List Tenant × String)
cut_tenants_at env codec f ts none = err (plain "runtime error: index out of range")
cut_tenants_at env codec f ts (some last) =
    ok (take f.limit ts, encode_tenant_cursor env codec last)

-- The page and the cursor of the next one; the index is out of range for a limit of 0, which
-- ListTenants never passes on.
unfoldable pub cut_tenants :
    Env → TenantCodec → TenantFilter → List Tenant → Result (List Tenant × String)
unfolding cut_tenants_at
cut_tenants env codec f ts =
    let more =
      cut_tenants_at env codec f ts (elim f.limit [ zero ↦ none | suc n ↦ get_elem? ts n ]) in
    if ltb f.limit (length ts) then more else ok (ts, "")

tenant_start : TenantCodec → TenantFilter → Result (Option TenantCursor)
unfolding decode_tenant_cursor
tenant_start codec f =
    let given = decode_tenant_cursor codec f.cursor f.order then_ok λ c. ok (some c) in
    if str_eq f.cursor "" then ok none else given

-- Repository.List; an error of the rows that comes after the first is not told from one of the query.
unfoldable pub list_tenant_rows : Env → TenantCodec → TenantFilter → Act (List Tenant × String)
unfolding tenant_start
list_tenant_rows env codec f = do
  start ← lift (tenant_start codec f)
  found ← query env (λ e. wrapped "list tenants" (to_go e)) (select_tenants codec f start)
  tenants ← lift (scan_tenants env found)
  lift (cut_tenants env codec f tenants)

-- The defaults of ListTenants.
unfoldable pub tenant_defaults : TenantFilter → TenantFilter
tenant_defaults f = record f {
  limit = if not (slt64 0 f.limit) || slt64 200 f.limit then 50 else f.limit;
  order = elim f.order [ no_order ↦ descending | ascending ↦ ascending | descending ↦ descending ];
}

-- ListTenants
unfoldable pub list_tenants : Env → TenantCodec → TenantFilter → Act (List Tenant × String)
unfolding tenant_defaults
list_tenants env codec f = list_tenant_rows env codec (tenant_defaults f)

-- GetTenant
unfoldable pub get_tenant : Env → String → Act Tenant
get_tenant env text = do id ← lift (parse_tenant_id env text); find_tenant_by_id env id
