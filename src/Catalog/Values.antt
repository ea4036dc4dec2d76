-- ===== src/Catalog/Values.antt =====
-- The value objects of internal/modules/catalog/domain/values.go and the errors of errors.go beside it.
pub mod Parsing
use Prim.Native.String.{len}
use forge_platform.Base.{ℕ, String, Bool, true, false, not, ◌||◌, ltb, if◌then◌else◌, str_eq}
use forge_platform.Base.Words.{slt64}
use forge_platform.Base.Text.{trim_space}
use forge_platform.Base.Label.{matches_label}
use forge_platform.Apperr.{
  GoError, Result, ok, err, validation_error, precondition_error, not_found_error, conflict_error,
}

abbrev pub err_invalid_service_id : GoError
err_invalid_service_id =
    validation_error "INVALID_SERVICE_ID" "service id is not a valid identifier"

abbrev pub err_invalid_tenant_id : GoError
err_invalid_tenant_id = validation_error "INVALID_TENANT_ID" "tenant id is not a valid identifier"

abbrev pub err_invalid_service_name : GoError
err_invalid_service_name =
    validation_error "INVALID_SERVICE_NAME"
      "service name must be a DNS-1123 label of 1 to 63 characters"

abbrev pub err_invalid_tier : GoError
err_invalid_tier = validation_error "INVALID_TIER" "tier must be an integer from 1 to 4"

abbrev pub err_invalid_lifecycle : GoError
err_invalid_lifecycle =
    validation_error "INVALID_LIFECYCLE"
      "lifecycle must be one of experimental, production, deprecated, retired"

abbrev pub err_invalid_ownership : GoError
err_invalid_ownership = validation_error "INVALID_OWNERSHIP" "owning team is required"

abbrev pub err_illegal_transition : GoError
err_illegal_transition =
    precondition_error "ILLEGAL_LIFECYCLE_TRANSITION"
      "the requested lifecycle transition is not permitted"

abbrev pub err_on_call_required : GoError
err_on_call_required =
    precondition_error "ONCALL_REQUIRED"
      "a service cannot enter production without an on-call reference"

abbrev pub err_already_retired : GoError
err_already_retired = precondition_error "SERVICE_RETIRED" "a retired service cannot be modified"

abbrev pub err_service_not_found : GoError
err_service_not_found = not_found_error "SERVICE_NOT_FOUND" "service not found"

abbrev pub err_name_conflict : GoError
err_name_conflict =
    conflict_error "SERVICE_NAME_CONFLICT" "a service with this name already exists in the tenant"

abbrev pub err_version_conflict : GoError
err_version_conflict =
    conflict_error "VERSION_CONFLICT"
      "the service was modified concurrently; retry with the current version"

pub record ServiceName : Type 0 where
  pub v : String

-- NewServiceName
unfoldable pub new_service_name : String → Result ServiceName
new_service_name s =
    let t = trim_space s in
    if ltb (len t) 1 || ltb 63 (len t) || not (matches_label t)
    then err err_invalid_service_name
    else ok (record { v = t })

-- An int, as a 64-bit pattern.
pub record Tier : Type 0 where
  pub v : ℕ

-- NewTier
unfoldable pub new_tier : ℕ → Result Tier
new_tier t = if slt64 t 1 || slt64 4 t then err err_invalid_tier else ok (record { v = t })

-- IsCritical
unfoldable pub is_critical : Tier → Bool
is_critical t = not (slt64 2 t.v)

-- The values of the string type Lifecycle that the package's constants name; no other value is
-- made, since ParseLifecycle refuses it.
pub data Lifecycle : Type 0 where
  experimental production deprecated retired : Lifecycle

abbrev pub lifecycle_text : Lifecycle → String
lifecycle_text experimental = "experimental"
lifecycle_text production = "production"
lifecycle_text deprecated = "deprecated"
lifecycle_text retired = "retired"

abbrev pub lifecycle_eq : Lifecycle → Lifecycle → Bool
lifecycle_eq experimental experimental = true
lifecycle_eq production production = true
lifecycle_eq deprecated deprecated = true
lifecycle_eq retired retired = true
lifecycle_eq _ _ = false

-- ParseLifecycle
unfoldable pub parse_lifecycle : String → Result Lifecycle
parse_lifecycle s =
    if str_eq s "experimental"
    then ok experimental
    else if str_eq s "production"
    then ok production
    else if str_eq s "deprecated"
    then ok deprecated
    else if str_eq s "retired"
    then ok retired
    else err err_invalid_lifecycle

-- canTransitionTo: the table lifecycleTransitions.
unfoldable pub can_transition_to : Lifecycle → Lifecycle → Bool
can_transition_to experimental production = true
can_transition_to experimental deprecated = true
can_transition_to experimental retired = true
can_transition_to production deprecated = true
can_transition_to production retired = true
can_transition_to deprecated production = true
can_transition_to deprecated retired = true
can_transition_to _ _ = false

pub record Ownership : Type 0 where
  pub owning_team : String
  pub on_call_ref : String

-- NewOwnership
unfoldable pub new_ownership : String → String → Result Ownership
new_ownership team on_call =
    let t = trim_space team in
    if str_eq t ""
    then err err_invalid_ownership
    else ok (record { owning_team = t; on_call_ref = trim_space on_call })

-- hasOnCall
abbrev pub has_on_call : Ownership → Bool
has_on_call o = not (str_eq o.on_call_ref "")
