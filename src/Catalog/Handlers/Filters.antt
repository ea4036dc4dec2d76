-- ===== src/Catalog/Handlers/Filters.antt =====
-- The listing of services over HTTP: parseListFilter and List of internal/modules/catalog/api/handlers.go.
pub mod Bounds
use forge_platform.Base.{ℕ, String, ◌||◌, if◌then◌else◌, Option, none, some, List, [], map, str_eq}
use forge_platform.Base.Words.{slt64}
use forge_platform.Base.Decimal.{parse_int}
use forge_platform.Platform.{Env}
use forge_platform.Apperr.{GoError, Result, ok, err, ◌>>=◌ as ◌then_ok◌, validation_error}
use forge_platform.Db.{World, ◌>>=◌, lift}
use forge_platform.Http.{Request, value, Response, Page, json, answer}
use forge_platform.Catalog.Values.{Tier, new_tier, parse_lifecycle}
use forge_platform.Catalog.Service.{Service, tenant_id_from_string}
use forge_platform.Catalog.Listing.{
  Codec, ListFilter, SortField, by_created_at, by_name, SortOrder, ascending, descending,
  list_services,
}
use forge_platform.Catalog.Handlers.{ServiceResponse, to_response}

-- `if v := q.Get(name); v != "" { … }`: a parameter that is absent leaves the default.
abbrev pub given {ℓ} : {A : Type ℓ} → String → A → Result A → Result A
given v default read = if str_eq v "" then ok default else read

abbrev pub present {ℓ} : {A : Type ℓ} → Result A → Result (Option A)
present r = r then_ok λ a. ok (some a)

pub invalid_limit : GoError
invalid_limit = validation_error "INVALID_LIMIT" "limit must be a positive integer"

unfoldable pub limit_of : Option ℕ → Result ℕ
unfolding invalid_limit
limit_of none = err invalid_limit
limit_of (some n) = if slt64 n 1 then err invalid_limit else ok n

-- NewTier on an int that Atoi read.
tier_of : Option ℕ → Result Tier
tier_of none = err (validation_error "INVALID_TIER" "tier must be an integer from 1 to 4")
tier_of (some n) = new_tier n

sort_of : String → Result SortField
sort_of v =
    if str_eq v "" || str_eq v "created_at"
    then ok by_created_at
    else if str_eq v "name"
    then ok by_name
    else err (validation_error "INVALID_SORT" "sort must be created_at or name")

unfoldable pub order_of : String → Result SortOrder
order_of v =
    if str_eq v "" || str_eq v "desc"
    then ok descending
    else if str_eq v "asc"
    then ok ascending
    else err (validation_error "INVALID_ORDER" "order must be asc or desc")

-- parseListFilter
unfoldable pub parse_list_filter : Env → Request → Result ListFilter
unfolding limit_of tier_of sort_of order_of
parse_list_filter env r =
    given (r.parameter "limit") 50 (limit_of (parse_int (r.parameter "limit"))) then_ok λ limit.
    given (r.parameter "tenantId") none
      (present (tenant_id_from_string env (r.parameter "tenantId")))
    then_ok λ tenant.
        given (r.parameter "lifecycle") none (present (parse_lifecycle (r.parameter "lifecycle")))
        then_ok λ lifecycle.
            given (r.parameter "tier") none (present (tier_of (parse_int (r.parameter "tier"))))
            then_ok λ tier. sort_of (r.parameter "sort") then_ok λ sort.
                order_of (r.parameter "order") then_ok λ order. ok (record {
                  tenant_id = tenant;
                  lifecycle = lifecycle;
                  tier = tier;
                  sort = sort;
                  order = order;
                  limit = limit;
                  cursor = r.parameter "cursor";
                })

abbrev pub page_answer : Env → List Service × String → Response (Page ServiceResponse)
page_answer env (ss, next) =
    json [] 200 (value (record { items = map (to_response env) ss; next_cursor = next }))

-- List
unfoldable pub list_handler :
    Env → Codec → Request → World → Response (Page ServiceResponse) × World
list_handler env codec r =
    answer r (lift (parse_list_filter env r) >>= list_services env codec) (page_answer env)
