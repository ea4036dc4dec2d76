-- ===== src/Tests/HttpExamples.antt =====
-- Requests for the examples: a version sent back, a registration sent twice, and a listing.
use forge_platform.Platform.{column_time}
use forge_platform.Base.{
  true, ◌+◌, String, ◌≡◌, refl, inr, ◌≤◌, some, [], ◌∷◌, length, str_eq, if◌then◌else◌, arith,
}
use forge_platform.Http.{
  decoded, Request, etag, if_match, value, error_answer, answered, answer, decode, trim_quotes,
}
use forge_platform.Http.ETag.{if_match-etag, quoted}
use forge_platform.Catalog.Handlers.{
  Coding, Patch, to_lifecycle, patch_service, to_response, read, replay, created, register_handler,
  is_keyed, get_handler, change_ownership_handler, change_lifecycle_handler, retire_handler,
}
use forge_platform.Catalog.Handlers.Versions.{HadVersion, patch_service_version}
use forge_platform.Catalog.Handlers.Replay.{register_handler-replay}
use forge_platform.Catalog.Handlers.Filters.{list_handler, parse_list_filter}
use forge_platform.Catalog.Handlers.Filters.Bounds.{list_handler_le}
use forge_platform.Tests.{calm, calm-IsUuidText, fresh_world}
use forge_platform.Tests.Codecs.{marks}
use forge_platform.Tests.CatalogExamples.{
  billing, billing_service, stocked, stocked-UniqueKeys, promoted,
}
use forge_platform.Base.Text.{is_space, trim_space}
use forge_platform.Base.Label.{is_alnum, is_dash_alnum, dns1123_label, matches_label}
use forge_platform.Base.Sorting.{insert_by, sort_by}
use forge_platform.Base.Decimal.{emit, format_int, scan, parse_int}
use forge_platform.Db.{exec, ◌>>=◌, query}
use forge_platform.Db.Tx.{execute}
use forge_platform.Apperr.{unwrap, as_app, kind_status, http_status}
use forge_platform.Apperr.Status.{error_response}
use forge_platform.Idempotency.{lookup_response, insert_cast, insert_response, save_response}
use forge_platform.Catalog.Values.{
  new_service_name, new_tier, is_critical, parse_lifecycle, can_transition_to, new_ownership,
}
use forge_platform.Catalog.Service.{
  Service, service_id_from_string, tenant_id_from_string, event_type, register, reconstitute,
  change_ownership, change_lifecycle, retire, pull_events, change, changes,
}
use forge_platform.Catalog.Repository.{
  row_checks, row_clashes, insert_service_row, has_service, insert_history_row, insert,
  scan_service, find_by_id, find_by_tenant_and_name, is_target, update_rows, update_service_row,
  is_open, close_row, close_intervals, open_interval, record_ownership, is_service_not_found,
  update, event_data, outbox_row, insert_outbox_row, append,
}
use forge_platform.Catalog.Commands.{
  is_not_found, register_body, parse_registration, register_service, expected_version_or,
  mutate_body, mutate, change_ownership_command, change_lifecycle_command, retire_service_command,
}
use forge_platform.Catalog.Listing.{
  encode_cursor, decode_cursor, equals, matches, less, precedes, cursor_position, select_page,
  scan_all, cut, start_of, list, with_defaults, list_services, get_service,
}

abbrev sample : String → Request
sample tag = record {
  header = λ name.
      if str_eq name "If-Match" then tag else if str_eq name "Idempotency-Key" then "k1" else "";
  parameter = λ name. if str_eq name "limit" then "20" else "";
  url_param = λ name. "i";
  correlation_id = "c";
}

twelve : (sample (quoted "12")).header "If-Match" ≡ quoted (etag 12).1
unfolding column_time is_space trim_space is_alnum is_dash_alnum dns1123_label matches_label
    insert_by sort_by emit format_int scan parse_int exec ◌>>=◌ query execute unwrap as_app
    kind_status http_status error_response error_answer answered answer decode trim_quotes if_match
    etag lookup_response insert_cast insert_response save_response new_service_name new_tier
    is_critical parse_lifecycle can_transition_to new_ownership service_id_from_string
    tenant_id_from_string event_type register reconstitute change_ownership change_lifecycle retire
    pull_events change changes row_checks row_clashes insert_service_row has_service
    insert_history_row insert scan_service find_by_id find_by_tenant_and_name is_target update_rows
    update_service_row is_open close_row close_intervals open_interval record_ownership
    is_service_not_found update event_data outbox_row insert_outbox_row append is_not_found
    register_body parse_registration register_service expected_version_or mutate_body mutate
    change_ownership_command change_lifecycle_command retire_service_command encode_cursor
    decode_cursor equals matches less precedes cursor_position select_page scan_all cut start_of
    list with_defaults list_services get_service to_response is_keyed register_handler get_handler
    change_ownership_handler change_lifecycle_handler retire_handler parse_list_filter list_handler
twelve = refl

if_match-etag_example : if_match (sample (quoted "12")) ≡ 12
if_match-etag_example = if_match-etag (sample (quoted "12")) 12 (omega arith) (inr twelve)

abbrev plain_coding : Coding
plain_coding = record { json_text = λ s. s.id; jsonb = λ t. some t; sha256 = λ t. t }

abbrev second_service : Service
second_service = record billing_service { id = 2; created_at = 2000; updated_at = 2000 }

first_answer :
    (register_handler calm plain_coding true (sample "") (read "{}" (some billing)) fresh_world).0
    ≡ created calm second_service
unfolding column_time is_space trim_space is_alnum is_dash_alnum dns1123_label matches_label
    insert_by sort_by emit format_int scan parse_int exec ◌>>=◌ query execute unwrap as_app
    kind_status http_status error_response error_answer answered answer decode trim_quotes if_match
    etag lookup_response insert_cast insert_response save_response new_service_name new_tier
    is_critical parse_lifecycle can_transition_to new_ownership service_id_from_string
    tenant_id_from_string event_type register reconstitute change_ownership change_lifecycle retire
    pull_events change changes row_checks row_clashes insert_service_row has_service
    insert_history_row insert scan_service find_by_id find_by_tenant_and_name is_target update_rows
    update_service_row is_open close_row close_intervals open_interval record_ownership
    is_service_not_found update event_data outbox_row insert_outbox_row append is_not_found
    register_body parse_registration register_service expected_version_or mutate_body mutate
    change_ownership_command change_lifecycle_command retire_service_command encode_cursor
    decode_cursor equals matches less precedes cursor_position select_page scan_all cut start_of
    list with_defaults list_services get_service to_response is_keyed register_handler get_handler
    change_ownership_handler change_lifecycle_handler retire_handler parse_list_filter list_handler
first_answer = refl

register_handler-replay_example :
    let after =
      (register_handler calm plain_coding true
        (sample "")
        (read "{}" (some billing))
        fresh_world).1 in
    register_handler calm plain_coding true (sample "\"3\"") (read "[]" (some billing)) after ≡ (
      replay (record {
        status = 201;
        body = plain_coding.json_text (to_response calm second_service);
      }),
      record after { calls = after.calls + 1 },
    )
register_handler-replay_example =
    register_handler-replay calm plain_coding (sample "") (sample "\"3\"") "{}" "[]" _ billing
      billing fresh_world second_service (λ n. refl) (λ n. refl) refl refl first_answer refl

listed_one :
    (list_handler calm marks (sample "") stocked).0.content
    ≡ value (record { items = to_response calm billing_service ∷ []; next_cursor = "" })
unfolding column_time is_space trim_space is_alnum is_dash_alnum dns1123_label matches_label
    insert_by sort_by emit format_int scan parse_int exec ◌>>=◌ query execute unwrap as_app
    kind_status http_status error_response error_answer answered answer decode trim_quotes if_match
    etag lookup_response insert_cast insert_response save_response new_service_name new_tier
    is_critical parse_lifecycle can_transition_to new_ownership service_id_from_string
    tenant_id_from_string event_type register reconstitute change_ownership change_lifecycle retire
    pull_events change changes row_checks row_clashes insert_service_row has_service
    insert_history_row insert scan_service find_by_id find_by_tenant_and_name is_target update_rows
    update_service_row is_open close_row close_intervals open_interval record_ownership
    is_service_not_found update event_data outbox_row insert_outbox_row append is_not_found
    register_body parse_registration register_service expected_version_or mutate_body mutate
    change_ownership_command change_lifecycle_command retire_service_command encode_cursor
    decode_cursor equals matches less precedes cursor_position select_page scan_all cut start_of
    list with_defaults list_services get_service to_response is_keyed register_handler get_handler
    change_ownership_handler change_lifecycle_handler retire_handler parse_list_filter list_handler
listed_one = refl

list_handler_le_example : length (to_response calm billing_service ∷ []) ≤ 200
list_handler_le_example = list_handler_le calm marks (sample "") stocked listed_one

abbrev to_production : Patch
to_production = to_lifecycle (decoded (record { lifecycle_name = "production" }))

one_quoted : (sample (quoted "1")).header "If-Match" ≡ quoted (etag 1).1
unfolding column_time is_space trim_space is_alnum is_dash_alnum dns1123_label matches_label
    insert_by sort_by emit format_int scan parse_int exec ◌>>=◌ query execute unwrap as_app
    kind_status http_status error_response error_answer answered answer decode trim_quotes if_match
    etag lookup_response insert_cast insert_response save_response new_service_name new_tier
    is_critical parse_lifecycle can_transition_to new_ownership service_id_from_string
    tenant_id_from_string event_type register reconstitute change_ownership change_lifecycle retire
    pull_events change changes row_checks row_clashes insert_service_row has_service
    insert_history_row insert scan_service find_by_id find_by_tenant_and_name is_target update_rows
    update_service_row is_open close_row close_intervals open_interval record_ownership
    is_service_not_found update event_data outbox_row insert_outbox_row append is_not_found
    register_body parse_registration register_service expected_version_or mutate_body mutate
    change_ownership_command change_lifecycle_command retire_service_command encode_cursor
    decode_cursor equals matches less precedes cursor_position select_page scan_all cut start_of
    list with_defaults list_services get_service to_response is_keyed register_handler get_handler
    change_ownership_handler change_lifecycle_handler retire_handler parse_list_filter list_handler
    patch_service
one_quoted = refl

patched :
    (patch_service calm (sample (quoted "1")) to_production stocked).0.content
    ≡ value (to_response calm (record promoted { updated_at = 13000 }))
unfolding column_time is_space trim_space is_alnum is_dash_alnum dns1123_label matches_label
    insert_by sort_by emit format_int scan parse_int exec ◌>>=◌ query execute unwrap as_app
    kind_status http_status error_response error_answer answered answer decode trim_quotes if_match
    etag lookup_response insert_cast insert_response save_response new_service_name new_tier
    is_critical parse_lifecycle can_transition_to new_ownership service_id_from_string
    tenant_id_from_string event_type register reconstitute change_ownership change_lifecycle retire
    pull_events change changes row_checks row_clashes insert_service_row has_service
    insert_history_row insert scan_service find_by_id find_by_tenant_and_name is_target update_rows
    update_service_row is_open close_row close_intervals open_interval record_ownership
    is_service_not_found update event_data outbox_row insert_outbox_row append is_not_found
    register_body parse_registration register_service expected_version_or mutate_body mutate
    change_ownership_command change_lifecycle_command retire_service_command encode_cursor
    decode_cursor equals matches less precedes cursor_position select_page scan_all cut start_of
    list with_defaults list_services get_service to_response is_keyed register_handler get_handler
    change_ownership_handler change_lifecycle_handler retire_handler parse_list_filter list_handler
    patch_service
patched = refl

patch_service_version_example : HadVersion calm "i" 1 stocked
patch_service_version_example =
    patch_service_version calm (sample (quoted "1")) to_production 1 stocked calm-IsUuidText
      stocked-UniqueKeys (omega arith) refl (inr one_quoted) patched
