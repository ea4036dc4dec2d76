-- ===== src/Tests/DomainExamples.antt =====
-- Examples of the theorems on the catalog's aggregate, its values and the errors.
use Prim.Native.String.{len}
use forge_platform.Base.Text.{is_space, trim_space}
use forge_platform.Base.Label.{is_alnum, is_dash_alnum, dns1123_label, matches_label}
use forge_platform.Catalog.Values.{
  new_service_name, new_tier, is_critical, parse_lifecycle, can_transition_to, new_ownership,
}
use forge_platform.Catalog.Service.{
  service_id_from_string, tenant_id_from_string, event_type, register, reconstitute,
  change_ownership, change_lifecycle, retire, pull_events, change, changes,
}
use forge_platform.Apperr.{unwrap, as_app, kind_status, http_status}
use forge_platform.Apperr.Status.{error_response}
use forge_platform.Base.{
  ◌+◌, ◌<◌, ◌≤◌, ◌≡◌, refl, ◌↔◌, ◌⊎◌, true, none, some, List, [], ◌∷◌, length, arith,
}
use forge_platform.Base.Words.{inc64}
use forge_platform.Base.Label.{Matches, matches_label_iff}
use forge_platform.Apperr.{wrapped, ok, AppError, internal, unavailable}
use forge_platform.Apperr.Status.{as_app-http_status}
use forge_platform.Catalog.Values.{
  Ownership, ServiceName, Tier, production, retired, err_name_conflict,
}
use forge_platform.Catalog.Values.Parsing.{new_service_name_accepts}
use forge_platform.Catalog.Service.{Service, Change, ownership, lifecycle, retirement}
use forge_platform.Catalog.Service.Invariant.{
  IsSound, register-changes-IsSound, retired_absorbs, change_cases,
}
use forge_platform.Catalog.Service.Replay.{Story, register-changes-Story}
use forge_platform.Tests.{calm}

abbrev payments : Ownership
payments = record { owning_team = "payments"; on_call_ref = "pd/payments" }

abbrev ledger : Ownership
ledger = record { owning_team = "ledger"; on_call_ref = "pd/ledger" }

abbrev billing_name : ServiceName
billing_name = record { v = "billing-api" }

abbrev first_tier : Tier
first_tier = record { v = 1 }

name_made : new_service_name "billing-api" ≡ ok billing_name
unfolding is_space trim_space is_alnum is_dash_alnum dns1123_label matches_label new_service_name
    new_tier is_critical parse_lifecycle can_transition_to new_ownership service_id_from_string
    tenant_id_from_string event_type register reconstitute change_ownership change_lifecycle retire
    pull_events change changes unwrap as_app kind_status http_status error_response
name_made = refl

owner_made : new_ownership "payments" "pd/payments" ≡ ok payments
unfolding is_space trim_space is_alnum is_dash_alnum dns1123_label matches_label new_service_name
    new_tier is_critical parse_lifecycle can_transition_to new_ownership service_id_from_string
    tenant_id_from_string event_type register reconstitute change_ownership change_lifecycle retire
    pull_events change changes unwrap as_app kind_status http_status error_response
owner_made = refl

ledger_made : new_ownership "ledger" "pd/ledger" ≡ ok ledger
unfolding is_space trim_space is_alnum is_dash_alnum dns1123_label matches_label new_service_name
    new_tier is_critical parse_lifecycle can_transition_to new_ownership service_id_from_string
    tenant_id_from_string event_type register reconstitute change_ownership change_lifecycle retire
    pull_events change changes unwrap as_app kind_status http_status error_response
ledger_made = refl

tier_made : new_tier 1 ≡ ok first_tier
unfolding is_space trim_space is_alnum is_dash_alnum dns1123_label matches_label new_service_name
    new_tier is_critical parse_lifecycle can_transition_to new_ownership service_id_from_string
    tenant_id_from_string event_type register reconstitute change_ownership change_lifecycle retire
    pull_events change changes unwrap as_app kind_status http_status error_response
tier_made = refl

abbrev life : List Change
life = ownership ledger 5 ∷ lifecycle production 6 ∷ retirement 7 ∷ lifecycle production 8 ∷ []

register-changes-IsSound_example :
    IsSound (changes calm life (register calm 1 3 billing_name "Bills" first_tier "" payments 4))
register-changes-IsSound_example =
    register-changes-IsSound calm 1 3 billing_name "Bills" first_tier "" payments 4 life name_made
      tier_made owner_made (ledger_made, (tt, (tt, (tt, tt))))

register-changes-Story_example :
    Story "payments"
      (changes calm life (register calm 1 3 billing_name "Bills" first_tier "" payments 4)).events
      (changes calm life
        (register calm 1 3 billing_name "Bills" first_tier "" payments 4)).lifecycle
      (changes calm life
        (register calm 1 3 billing_name "Bills" first_tier "" payments 4)).ownership.owning_team
register-changes-Story_example =
    register-changes-Story calm 1 3 billing_name "Bills" first_tier "" payments 4 life

abbrev gone : Service
gone = record {
  id = 1;
  tenant_id = 3;
  name = billing_name;
  description = "Bills";
  tier = first_tier;
  lifecycle = retired;
  repository = "";
  ownership = payments;
  version = 4;
  created_at = 4;
  updated_at = 7;
  events = [];
}

retired_absorbs_example : changes calm life gone ≡ gone
retired_absorbs_example = retired_absorbs calm life gone refl

change_cases_example :
    ((change calm (ownership ledger 9) gone).0 ≡ gone)
    ⊎ (((change calm (ownership ledger 9) gone).1 ≡ none)
        × (length (change calm (ownership ledger 9) gone).0.events ≡ 0 + 1)
        × ((change calm (ownership ledger 9) gone).0.version ≡ inc64 4))
change_cases_example = change_cases calm (ownership ledger 9) gone

name_trimmed : new_service_name "  billing-api " ≡ ok billing_name
unfolding is_space trim_space is_alnum is_dash_alnum dns1123_label matches_label new_service_name
    new_tier is_critical parse_lifecycle can_transition_to new_ownership service_id_from_string
    tenant_id_from_string event_type register reconstitute change_ownership change_lifecycle retire
    pull_events change changes unwrap as_app kind_status http_status error_response
name_trimmed = refl

new_service_name_accepts_example :
    ("billing-api" ≡ trim_space "  billing-api ")
    × (1 ≤ len "billing-api")
    × (len "billing-api" ≤ 63)
    × Matches dns1123_label "billing-api"
new_service_name_accepts_example =
    new_service_name_accepts "  billing-api " billing_name name_trimmed

matches_label_iff_example : (matches_label "a-1" ≡ true) ↔ Matches dns1123_label "a-1"
matches_label_iff_example = matches_label_iff "a-1"

conflict_status : http_status (wrapped "insert" err_name_conflict) < 500
unfolding is_space trim_space is_alnum is_dash_alnum dns1123_label matches_label new_service_name
    new_tier is_critical parse_lifecycle can_transition_to new_ownership service_id_from_string
    tenant_id_from_string event_type register reconstitute change_ownership change_lifecycle retire
    pull_events change changes unwrap as_app kind_status http_status error_response
conflict_status = omega arith

as_app-http_status_example :
    (a : AppError) × (as_app (wrapped "insert" err_name_conflict) ≡ some a)
    × (a.kind ≡ internal → ⊥)
    × (a.kind ≡ unavailable → ⊥)
    × ((error_response "c-1" (wrapped "insert" err_name_conflict)).1.code ≡ a.code)
as_app-http_status_example =
    as_app-http_status "c-1" (wrapped "insert" err_name_conflict) conflict_status
