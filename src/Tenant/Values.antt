-- ===== src/Tenant/Values.antt =====
-- The value objects of internal/modules/tenant/domain/values.go and the errors of errors.go beside it.
use Prim.Native.String.{len}
use forge_platform.Base.{ℕ, String, Bool, true, false, not, ◌||◌, ltb, if◌then◌else◌, str_eq}
use forge_platform.Base.Words.{slt64}
use forge_platform.Base.Text.{trim_space}
use forge_platform.Base.Label.{matches_label}
use forge_platform.Apperr.{
  GoError, Result, ok, err, validation_error, precondition_error, not_found_error, conflict_error,
}

abbrev pub err_invalid_tenant_id : GoError
err_invalid_tenant_id = validation_error "INVALID_TENANT_ID" "tenant id is not a valid identifier"

abbrev pub err_invalid_tenant_name : GoError
err_invalid_tenant_name =
    validation_error "INVALID_TENANT_NAME" "tenant name must be 1 to 100 characters"

abbrev pub err_invalid_slug : GoError
err_invalid_slug =
    validation_error "INVALID_SLUG" "slug must be a DNS-1123 label of 1 to 63 characters"

abbrev pub err_invalid_plan : GoError
err_invalid_plan = validation_error "INVALID_PLAN" "plan must be one of free, standard, enterprise"

abbrev pub err_invalid_status : GoError
err_invalid_status =
    validation_error "INVALID_STATUS" "status must be one of active, suspended, archived"

abbrev pub err_invalid_quota : GoError
err_invalid_quota = validation_error "INVALID_QUOTA" "max services must not be negative"

abbrev pub err_illegal_status_transition : GoError
err_illegal_status_transition =
    precondition_error "ILLEGAL_STATUS_TRANSITION"
      "the requested status transition is not permitted"

abbrev pub err_archived : GoError
err_archived = precondition_error "TENANT_ARCHIVED" "an archived tenant cannot be modified"

abbrev pub err_tenant_not_found : GoError
err_tenant_not_found = not_found_error "TENANT_NOT_FOUND" "tenant not found"

abbrev pub err_slug_conflict : GoError
err_slug_conflict = conflict_error "SLUG_CONFLICT" "a tenant with this slug already exists"

abbrev pub err_tenant_version_conflict : GoError
err_tenant_version_conflict =
    conflict_error "VERSION_CONFLICT"
      "the tenant was modified concurrently; retry with the current version"

pub record TenantName : Type 0 where
  pub v : String

-- NewTenantName; len counts bytes.
unfoldable pub new_tenant_name : String → Result TenantName
new_tenant_name s =
    let t = trim_space s in
    if ltb (len t) 1 || ltb 100 (len t) then err err_invalid_tenant_name else ok (record { v = t })

pub record Slug : Type 0 where
  pub v : String

-- NewSlug
unfoldable pub new_slug : String → Result Slug
new_slug s =
    let t = trim_space s in
    if ltb (len t) 1 || ltb 63 (len t) || not (matches_label t)
    then err err_invalid_slug
    else ok (record { v = t })

-- The constants of the string type Plan.
pub data Plan : Type 0 where
  free standard enterprise : Plan

abbrev pub plan_text : Plan → String
plan_text free = "free"
plan_text standard = "standard"
plan_text enterprise = "enterprise"

-- ParsePlan
unfoldable pub parse_plan : String → Result Plan
parse_plan s =
    if str_eq s "free"
    then ok free
    else if str_eq s "standard"
    then ok standard
    else if str_eq s "enterprise"
    then ok enterprise
    else err err_invalid_plan

-- The constants of the string type Status.
pub data Status : Type 0 where
  active suspended archived : Status

abbrev pub status_text : Status → String
status_text active = "active"
status_text suspended = "suspended"
status_text archived = "archived"

abbrev pub status_eq : Status → Status → Bool
status_eq active active = true
status_eq suspended suspended = true
status_eq archived archived = true
status_eq _ _ = false

-- ParseStatus
unfoldable pub parse_status : String → Result Status
parse_status s =
    if str_eq s "active"
    then ok active
    else if str_eq s "suspended"
    then ok suspended
    else if str_eq s "archived"
    then ok archived
    else err err_invalid_status

-- canTransitionTo: the table statusTransitions.
unfoldable pub status_can_transition_to : Status → Status → Bool
status_can_transition_to active suspended = true
status_can_transition_to active archived = true
status_can_transition_to suspended active = true
status_can_transition_to suspended archived = true
status_can_transition_to _ _ = false

-- An int, as a 64-bit pattern.
pub record Quota : Type 0 where
  pub max_services : ℕ

-- NewQuota
unfoldable pub new_quota : ℕ → Result Quota
new_quota n = if slt64 n 0 then err err_invalid_quota else ok (record { max_services = n })
