-- ===== src/Tests/CatalogExamples.antt =====
-- Examples of the theorems on the catalog, and on the transactions under it.
use forge_platform.Base.Text.{is_space, trim_space}
use forge_platform.Base.Label.{is_alnum, is_dash_alnum, dns1123_label, matches_label}
use forge_platform.Db.{exec, ◌>>=◌, query}
use forge_platform.Db.Tx.{execute}
use forge_platform.Catalog.Values.{
  new_service_name, new_tier, is_critical, parse_lifecycle, can_transition_to, new_ownership,
}
use forge_platform.Catalog.Service.{
  service_id_from_string, tenant_id_from_string, event_type, register, reconstitute,
  change_ownership, change_lifecycle, retire, pull_events, change, changes,
}
use forge_platform.Catalog.Repository.{
  row_checks, row_clashes, insert_service_row, has_service, insert_history_row, insert,
  scan_service, find_by_id, find_by_tenant_and_name, is_target, update_rows, update_service_row,
  is_open, close_row, close_intervals, open_interval, record_ownership, is_service_not_found,
  update, event_data, outbox_row, insert_outbox_row, append,
}
use forge_platform.Catalog.Commands.{
  is_not_found, register_body, parse_registration, register_service, expected_version_or,
  mutate_body, mutate, change_ownership_command, change_lifecycle_command, retire_service_command,
}
use forge_platform.Base.{
  ℕ, ◌≤◌, ◌≡◌, ◌≢◌, refl, ◌⊎◌, false, some, [], ◌∷◌, any, find, select, length, ◌==◌, arith,
}
use forge_platform.Platform.{column_time, Env, failed}
use forge_platform.Apperr.{GoError, plain, wrapped, ok, err}
use forge_platform.Db.{World, ServiceRow, OwnershipRow}
use forge_platform.Db.Tx.{opened}
use forge_platform.Catalog.Values.{experimental, production, err_version_conflict}
use forge_platform.Catalog.Service.{Service, Change, lifecycle}
use forge_platform.Catalog.Service.Invariant.{IsSound}
use forge_platform.Catalog.Commands.{RegisterServiceInput}
use forge_platform.Catalog.Repository.{row_of, interval_of}
use forge_platform.Catalog.Repository.Keys.{UniqueKeys}
use forge_platform.Catalog.Repository.Updates.{recorded}
use forge_platform.Catalog.Repository.History.{recorded_current, recorded_others}
use forge_platform.Catalog.Repository.RoundTrip.{scan-row_of, at_rest}
use forge_platform.Catalog.Commands.Registering.{
  registered, register_service-commits, register_service-fails,
}
use forge_platform.Catalog.Commands.Mutating.{Changed, mutate-commits, mutate-fails}
use forge_platform.Catalog.Commands.Versions.{mutate_version_checked, commands-UniqueKeys}
use forge_platform.Tests.{calm, calm-IsUuidText, fresh_world, no_rows}

abbrev pub billing : RegisterServiceInput
billing = record {
  tenant_id = "iii";
  name = " billing-api ";
  description = "Bills";
  tier = 1;
  repository = "";
  owning_team = "payments";
  on_call_ref = "pd/payments";
}

-- The service that it registers: the name without its blanks, in the first version.
abbrev pub billing_service : Service
billing_service = record {
  id = 1;
  tenant_id = 3;
  name = record { v = "billing-api" };
  description = "Bills";
  tier = record { v = 1 };
  lifecycle = experimental;
  repository = "";
  ownership = record { owning_team = "payments"; on_call_ref = "pd/payments" };
  version = 1;
  created_at = 1000;
  updated_at = 1000;
  events = [];
}

billing-registered : (register_service calm billing fresh_world).0 ≡ ok billing_service
unfolding column_time is_space trim_space is_alnum is_dash_alnum dns1123_label matches_label exec
    ◌>>=◌ query execute new_service_name new_tier is_critical parse_lifecycle can_transition_to
    new_ownership service_id_from_string tenant_id_from_string event_type register reconstitute
    change_ownership change_lifecycle retire pull_events change changes row_checks row_clashes
    insert_service_row has_service insert_history_row insert scan_service find_by_id
    find_by_tenant_and_name is_target update_rows update_service_row is_open close_row
    close_intervals open_interval record_ownership is_service_not_found update event_data outbox_row
    insert_outbox_row append is_not_found register_body parse_registration register_service
    expected_version_or mutate_body mutate change_ownership_command change_lifecycle_command
    retire_service_command
billing-registered = refl

register_service-commits_example :
    (s : Service) × (parse_registration calm 0 billing ≡ ok s)
    × (any (row_clashes (row_of s)) [] ≡ false)
    × (billing_service ≡ (pull_events s).1)
    × ((register_service calm billing fresh_world).1.db ≡ registered calm 2 1000 s no_rows)
register_service-commits_example =
    register_service-commits calm billing fresh_world billing-registered

-- A database server that is down.
abbrev broken : Env
broken = record calm { outcome = λ n. failed }

down : GoError
down = wrapped "begin tx" (plain "")

billing-refused : (register_service broken billing fresh_world).0 ≡ err down
unfolding column_time is_space trim_space is_alnum is_dash_alnum dns1123_label matches_label exec
    ◌>>=◌ query execute new_service_name new_tier is_critical parse_lifecycle can_transition_to
    new_ownership service_id_from_string tenant_id_from_string event_type register reconstitute
    change_ownership change_lifecycle retire pull_events change changes row_checks row_clashes
    insert_service_row has_service insert_history_row insert scan_service find_by_id
    find_by_tenant_and_name is_target update_rows update_service_row is_open close_row
    close_intervals open_interval record_ownership is_service_not_found update event_data outbox_row
    insert_outbox_row append is_not_found register_body parse_registration register_service
    expected_version_or mutate_body mutate change_ownership_command change_lifecycle_command
    retire_service_command down
billing-refused = refl

register_service-fails_example :
    ((register_service broken billing fresh_world).1.db ≡ no_rows)
    ⊎ ((s : Service) × (parse_registration broken 0 billing ≡ ok s)
        × (any (row_clashes (row_of s)) [] ≡ false)
        × ((register_service broken billing fresh_world).1.db ≡ registered broken 2 1000 s no_rows))
register_service-fails_example = register_service-fails broken billing fresh_world billing-refused

-- The world after the registration.
abbrev pub stocked : World
stocked = record {
  db = record no_rows {
    services = row_of billing_service ∷ [];
    history = interval_of 2 1000 billing_service ∷ [];
  };
  calls = 10;
  started = 0;
}

abbrev pub promoted : Service
promoted = record billing_service { lifecycle = production; version = 2; updated_at = 13000 }

billing-promoted : (mutate calm 1 1 (lifecycle production) stocked).0 ≡ ok promoted
unfolding column_time is_space trim_space is_alnum is_dash_alnum dns1123_label matches_label exec
    ◌>>=◌ query execute new_service_name new_tier is_critical parse_lifecycle can_transition_to
    new_ownership service_id_from_string tenant_id_from_string event_type register reconstitute
    change_ownership change_lifecycle retire pull_events change changes row_checks row_clashes
    insert_service_row has_service insert_history_row insert scan_service find_by_id
    find_by_tenant_and_name is_target update_rows update_service_row is_open close_row
    close_intervals open_interval record_ownership is_service_not_found update event_data outbox_row
    insert_outbox_row append is_not_found register_body parse_registration register_service
    expected_version_or mutate_body mutate change_ownership_command change_lifecycle_command
    retire_service_command
billing-promoted = refl

mutate-commits_example :
    (s : Service) × ((find_by_id calm 1 (opened calm stocked)).0 ≡ ok s)
    × Changed calm 1
        (lifecycle production)
        (opened calm stocked)
        s
        promoted
        (mutate calm 1 1 (lifecycle production) stocked).1.db
mutate-commits_example = mutate-commits calm 1 1 (lifecycle production) stocked billing-promoted

stale : GoError
stale = err_version_conflict

-- A client that expects version 7 of a service in version 1.
billing-stale : (mutate calm 1 7 (lifecycle production) stocked).0 ≡ err stale
unfolding column_time is_space trim_space is_alnum is_dash_alnum dns1123_label matches_label exec
    ◌>>=◌ query execute new_service_name new_tier is_critical parse_lifecycle can_transition_to
    new_ownership service_id_from_string tenant_id_from_string event_type register reconstitute
    change_ownership change_lifecycle retire pull_events change changes row_checks row_clashes
    insert_service_row has_service insert_history_row insert scan_service find_by_id
    find_by_tenant_and_name is_target update_rows update_service_row is_open close_row
    close_intervals open_interval record_ownership is_service_not_found update event_data outbox_row
    insert_outbox_row append is_not_found register_body parse_registration register_service
    expected_version_or mutate_body mutate change_ownership_command change_lifecycle_command
    retire_service_command stale
billing-stale = refl

mutate-fails_example :
    ((mutate calm 1 7 (lifecycle production) stocked).1.db ≡ stocked.db)
    ⊎ ((s : Service) × (r : Service) × ((find_by_id calm 1 (opened calm stocked)).0 ≡ ok s)
        × Changed calm 7
            (lifecycle production)
            (opened calm stocked)
            s
            r
            (mutate calm 1 7 (lifecycle production) stocked).1.db)
mutate-fails_example = mutate-fails calm 1 7 (lifecycle production) stocked billing-stale

pub stocked-UniqueKeys : UniqueKeys stocked.db.services
stocked-UniqueKeys = (refl, tt)

mutate_version_checked_example :
    (q : ServiceRow) × (find (λ (p : ServiceRow). p.id == 1) stocked.db.services ≡ some q)
    × (q.version ≡ 1)
mutate_version_checked_example =
    mutate_version_checked calm 1 1 (lifecycle production) stocked calm-IsUuidText
      stocked-UniqueKeys refl billing-promoted

commands-UniqueKeys_example :
    ((i : RegisterServiceInput) → UniqueKeys (register_service calm i stocked).1.db.services)
    × ((id expected : ℕ) (c : ℕ → Change)
        → UniqueKeys (mutate calm id expected c stocked).1.db.services)
commands-UniqueKeys_example = commands-UniqueKeys calm stocked stocked-UniqueKeys

one_open : length (select (is_open 1) stocked.db.history) ≤ 1
unfolding column_time is_space trim_space is_alnum is_dash_alnum dns1123_label matches_label exec
    ◌>>=◌ query execute new_service_name new_tier is_critical parse_lifecycle can_transition_to
    new_ownership service_id_from_string tenant_id_from_string event_type register reconstitute
    change_ownership change_lifecycle retire pull_events change changes row_checks row_clashes
    insert_service_row has_service insert_history_row insert scan_service find_by_id
    find_by_tenant_and_name is_target update_rows update_service_row is_open close_row
    close_intervals open_interval record_ownership is_service_not_found update event_data outbox_row
    insert_outbox_row append is_not_found register_body parse_registration register_service
    expected_version_or mutate_body mutate change_ownership_command change_lifecycle_command
    retire_service_command
one_open = omega arith

recorded_current_example :
    (r : OwnershipRow) × (select (is_open 1) (recorded promoted 20 stocked.db.history) ≡ r ∷ [])
    × (r.owning_team ≡ "payments")
    × (r.on_call_ref ≡ "pd/payments")
recorded_current_example = recorded_current promoted 20 stocked.db.history one_open

other_service : ◌≢◌ {A = ℕ} 5 1
other_service e = absurd (omega (arith, e))

recorded_others_example :
    select (λ r. r.service_id == 5) (recorded promoted 20 stocked.db.history)
    ≡ select (λ r. r.service_id == 5) stocked.db.history
recorded_others_example = recorded_others promoted 20 5 stocked.db.history other_service

billing_name : new_service_name "billing-api" ≡ ok (record { v = "billing-api" })
unfolding column_time is_space trim_space is_alnum is_dash_alnum dns1123_label matches_label exec
    ◌>>=◌ query execute new_service_name new_tier is_critical parse_lifecycle can_transition_to
    new_ownership service_id_from_string tenant_id_from_string event_type register reconstitute
    change_ownership change_lifecycle retire pull_events change changes row_checks row_clashes
    insert_service_row has_service insert_history_row insert scan_service find_by_id
    find_by_tenant_and_name is_target update_rows update_service_row is_open close_row
    close_intervals open_interval record_ownership is_service_not_found update event_data outbox_row
    insert_outbox_row append is_not_found register_body parse_registration register_service
    expected_version_or mutate_body mutate change_ownership_command change_lifecycle_command
    retire_service_command
billing_name = refl

billing_owner :
    new_ownership "payments" "pd/payments"
    ≡ ok (record { owning_team = "payments"; on_call_ref = "pd/payments" })
unfolding column_time is_space trim_space is_alnum is_dash_alnum dns1123_label matches_label exec
    ◌>>=◌ query execute new_service_name new_tier is_critical parse_lifecycle can_transition_to
    new_ownership service_id_from_string tenant_id_from_string event_type register reconstitute
    change_ownership change_lifecycle retire pull_events change changes row_checks row_clashes
    insert_service_row has_service insert_history_row insert scan_service find_by_id
    find_by_tenant_and_name is_target update_rows update_service_row is_open close_row
    close_intervals open_interval record_ownership is_service_not_found update event_data outbox_row
    insert_outbox_row append is_not_found register_body parse_registration register_service
    expected_version_or mutate_body mutate change_ownership_command change_lifecycle_command
    retire_service_command
billing_owner = refl

pub promoted-IsSound : IsSound promoted
unfolding column_time is_space trim_space is_alnum is_dash_alnum dns1123_label matches_label exec
    ◌>>=◌ query execute new_service_name new_tier is_critical parse_lifecycle can_transition_to
    new_ownership service_id_from_string tenant_id_from_string event_type register reconstitute
    change_ownership change_lifecycle retire pull_events change changes row_checks row_clashes
    insert_service_row has_service insert_history_row insert scan_service find_by_id
    find_by_tenant_and_name is_target update_rows update_service_row is_open close_row
    close_intervals open_interval record_ownership is_service_not_found update event_data outbox_row
    insert_outbox_row append is_not_found register_body parse_registration register_service
    expected_version_or mutate_body mutate change_ownership_command change_lifecycle_command
    retire_service_command
promoted-IsSound = record {
  name_valid = billing_name;
  tier_valid = refl;
  owner_valid = billing_owner;
  on_call = λ e. refl;
  version_word = omega arith;
}

scan-row_of_example : scan_service calm (row_of promoted) ≡ ok (at_rest (pull_events promoted).1)
scan-row_of_example = scan-row_of calm promoted calm-IsUuidText promoted-IsSound

billing-committed : (execute calm (update calm promoted 1) stocked).0 ≡ ok tt
unfolding column_time is_space trim_space is_alnum is_dash_alnum dns1123_label matches_label exec
    ◌>>=◌ query execute new_service_name new_tier is_critical parse_lifecycle can_transition_to
    new_ownership service_id_from_string tenant_id_from_string event_type register reconstitute
    change_ownership change_lifecycle retire pull_events change changes row_checks row_clashes
    insert_service_row has_service insert_history_row insert scan_service find_by_id
    find_by_tenant_and_name is_target update_rows update_service_row is_open close_row
    close_intervals open_interval record_ownership is_service_not_found update event_data outbox_row
    insert_outbox_row append is_not_found register_body parse_registration register_service
    expected_version_or mutate_body mutate change_ownership_command change_lifecycle_command
    retire_service_command
billing-committed = refl

billing-not_begun : (execute broken (update broken promoted 1) stocked).0 ≡ err down
unfolding column_time is_space trim_space is_alnum is_dash_alnum dns1123_label matches_label exec
    ◌>>=◌ query execute new_service_name new_tier is_critical parse_lifecycle can_transition_to
    new_ownership service_id_from_string tenant_id_from_string event_type register reconstitute
    change_ownership change_lifecycle retire pull_events change changes row_checks row_clashes
    insert_service_row has_service insert_history_row insert scan_service find_by_id
    find_by_tenant_and_name is_target update_rows update_service_row is_open close_row
    close_intervals open_interval record_ownership is_service_not_found update event_data outbox_row
    insert_outbox_row append is_not_found register_body parse_registration register_service
    expected_version_or mutate_body mutate change_ownership_command change_lifecycle_command
    retire_service_command down
billing-not_begun = refl
