-- ===== src/Tests/TenantExamples.antt =====
-- Examples of the theorems on tenants.
use forge_platform.Platform.{column_time}
use forge_platform.Base.Text.{is_space, trim_space}
use forge_platform.Base.Label.{is_alnum, is_dash_alnum, dns1123_label, matches_label}
use forge_platform.Tenant.Values.{
  new_tenant_name, new_slug, parse_plan, parse_status, status_can_transition_to, new_quota,
}
use forge_platform.Tenant.Account.{
  parse_tenant_id, tenant_event_type, create, change_status, update_quota, pull_tenant_events,
  change_tenant, change_tenant_all,
}
use forge_platform.Tenant.Repository.{
  quota_fits, tenant_clashes, insert_tenant_row, insert_tenant, scan_tenant, find_tenant_by_id,
  find_by_slug, is_target_tenant, update_tenant_rows, update_tenant_row, is_tenant_not_found,
  update_tenant, tenant_event_data, tenant_outbox_row, append_tenant_events,
}
use forge_platform.Base.{◌+◌, ◌≡◌, refl, List, [], ◌∷◌}
use forge_platform.Apperr.{Result, ok}
use forge_platform.Db.{World, exec, query}
use forge_platform.Tenant.Values.{TenantName, Slug, standard, suspended, active, Quota}
use forge_platform.Tenant.Account.{Tenant, TenantChange, status_change, quota_update}
use forge_platform.Tenant.Account.Standing.{Standing, create-Standing}
use forge_platform.Tenant.Repository.Reading.{IsMade, tenant_at_rest, insert_tenant-find}
use forge_platform.Tests.{calm, calm-IsUuidText, fresh_world}

abbrev acme : TenantName
acme = record { v = "Acme Ltd" }

abbrev acme_slug : Slug
acme_slug = record { v = "acme" }

abbrev ten : Quota
ten = record { max_services = 10 }

abbrev year : List TenantChange
year =
    quota_update (record { max_services = 20 }) 5
    ∷ status_change suspended 6
    ∷ status_change active 7
    ∷ []

create-Standing_example :
    Standing
      (change_tenant_all calm year (create calm 3 acme acme_slug standard ten 4)).events
      (change_tenant_all calm year (create calm 3 acme acme_slug standard ten 4)).status
      (change_tenant_all calm year (create calm 3 acme acme_slug standard ten 4)).quota
create-Standing_example = create-Standing calm 3 acme acme_slug standard ten 4 year

abbrev acme_tenant : Tenant
acme_tenant = record {
  id = 3;
  name = acme;
  slug = acme_slug;
  plan = standard;
  status = suspended;
  quota = ten;
  version = 2;
  created_at = 4;
  updated_at = 6;
  events = [];
}

acme_tenant-IsMade : IsMade acme_tenant
unfolding column_time is_space trim_space is_alnum is_dash_alnum dns1123_label matches_label
    new_tenant_name new_slug parse_plan parse_status status_can_transition_to new_quota
    parse_tenant_id tenant_event_type create change_status update_quota pull_tenant_events
    change_tenant change_tenant_all quota_fits tenant_clashes insert_tenant_row insert_tenant
    scan_tenant find_tenant_by_id find_by_slug is_target_tenant update_tenant_rows update_tenant_row
    is_tenant_not_found update_tenant tenant_event_data tenant_outbox_row append_tenant_events
acme_tenant-IsMade = record { name_valid = refl; slug_valid = refl; quota_valid = refl }

acme-inserted : (insert_tenant calm acme_tenant fresh_world).0 ≡ ok tt
unfolding column_time is_space trim_space is_alnum is_dash_alnum dns1123_label matches_label
    new_tenant_name new_slug parse_plan parse_status status_can_transition_to new_quota
    parse_tenant_id tenant_event_type create change_status update_quota pull_tenant_events
    change_tenant change_tenant_all quota_fits tenant_clashes insert_tenant_row insert_tenant
    scan_tenant find_tenant_by_id find_by_slug is_target_tenant update_tenant_rows update_tenant_row
    is_tenant_not_found update_tenant tenant_event_data tenant_outbox_row append_tenant_events exec
    query
acme-inserted = refl

abbrev acme_found : Result Tenant × World
acme_found =
    let after = (insert_tenant calm acme_tenant fresh_world).1 in
    (
      ok (tenant_at_rest (pull_tenant_events acme_tenant).1),
      record after { calls = after.calls + 1 },
    )

insert_tenant-find_example :
    (find_tenant_by_id calm acme_tenant.id (insert_tenant calm acme_tenant fresh_world).1
      ≡ acme_found)
    × (find_by_slug calm acme_tenant.slug (insert_tenant calm acme_tenant fresh_world).1
        ≡ acme_found)
insert_tenant-find_example =
    insert_tenant-find calm acme_tenant fresh_world calm-IsUuidText acme_tenant-IsMade acme-inserted
      refl
