-- ===== src/Tests/ListingExamples.antt =====
-- A listing of three services, two to a page.
use forge_platform.Platform.{column_time}
use forge_platform.Base.{ℕ, ◌≡◌, refl, List, [], ◌∷◌, none, some, map, select, All, arith}
use forge_platform.Base.Sorting.{sort_by, Chain, insert_by}
use forge_platform.Apperr.{ok}
use forge_platform.Db.{World, exec, ◌>>=◌, query}
use forge_platform.Catalog.Service.{
  Service, service_id_from_string, tenant_id_from_string, event_type, register, reconstitute,
  change_ownership, change_lifecycle, retire, pull_events, change, changes,
}
use forge_platform.Catalog.Repository.{
  row_of, row_clashes, row_checks, insert_service_row, has_service, insert_history_row, insert,
  scan_service, find_by_id, find_by_tenant_and_name, is_target, update_rows, update_service_row,
  is_open, close_row, close_intervals, open_interval, record_ownership, is_service_not_found,
  update, event_data, outbox_row, insert_outbox_row, append,
}
use forge_platform.Catalog.Service.Invariant.{IsSound}
use forge_platform.Catalog.Repository.Keys.{UniqueKeys}
use forge_platform.Catalog.Listing.{
  ListFilter, by_name, ascending, matches, row_precedes, with_defaults, encode_cursor,
  decode_cursor, equals, less, precedes, cursor_position, select_page, scan_all, cut, start_of,
  list, list_services, get_service,
}
use forge_platform.Catalog.Listing.Pages.{IsStored}
use forge_platform.Catalog.Listing.Follow.{follow, follow-matching}
use forge_platform.Tests.{calm, calm-IsUuidText, fresh_world, no_rows}
use forge_platform.Tests.Codecs.{marks, marks-IsCodec}
use forge_platform.Tests.CatalogExamples.{promoted, promoted-IsSound}
use forge_platform.Base.Text.{is_space, trim_space}
use forge_platform.Base.Label.{is_alnum, is_dash_alnum, dns1123_label, matches_label}
use forge_platform.Catalog.Values.{
  new_service_name, new_tier, is_critical, parse_lifecycle, can_transition_to, new_ownership,
}

abbrev by_pairs : ListFilter
by_pairs = record {
  tenant_id = none;
  lifecycle = none;
  tier = none;
  sort = by_name;
  order = ascending;
  limit = 2;
  cursor = "";
}

abbrev second : Service
second = record promoted { id = 7; tenant_id = 8 }

abbrev third : Service
third = record promoted { id = 9; tenant_id = 2 }

abbrev shelf : World
shelf = record fresh_world {
  db = record no_rows { services = row_of second ∷ row_of third ∷ row_of promoted ∷ [] };
}

-- The same value objects under other identifiers.
moved-IsSound : (id tenant : ℕ) → IsSound (record promoted { id = id; tenant_id = tenant })
moved-IsSound id tenant = record {
  name_valid = promoted-IsSound.name_valid;
  tier_valid = promoted-IsSound.tier_valid;
  owner_valid = promoted-IsSound.owner_valid;
  on_call = promoted-IsSound.on_call;
  version_word = promoted-IsSound.version_word;
}

shelf-IsStored : All IsStored shelf.db.services
shelf-IsStored = (
  (second, refl, moved-IsSound 7 8, refl),
  ((third, refl, moved-IsSound 9 2, refl), ((promoted, refl, promoted-IsSound, refl), tt)),
)

shelf-UniqueKeys : UniqueKeys shelf.db.services
unfolding row_clashes
shelf-UniqueKeys = (refl, (refl, (refl, tt)))

follow-matching_example :
    (ss : List Service) × (follow 4 calm marks by_pairs shelf ≡ some (ok ss))
    × (map row_of ss
        ≡ sort_by
            (row_precedes marks (with_defaults by_pairs))
            (select (matches by_pairs) shelf.db.services))
    × Chain (row_precedes marks (with_defaults by_pairs)) (map row_of ss)
follow-matching_example =
    follow-matching calm marks by_pairs 4 shelf marks-IsCodec (λ i. refl) calm-IsUuidText
      shelf-UniqueKeys shelf-IsStored refl (omega arith)

-- Two pages: the third identifier comes after the others' in the order of the identifiers.
follow-shelf : follow 4 calm marks by_pairs shelf ≡ some (ok (promoted ∷ second ∷ third ∷ []))
unfolding column_time is_space trim_space is_alnum is_dash_alnum dns1123_label matches_label
    insert_by sort_by exec ◌>>=◌ query new_service_name new_tier is_critical parse_lifecycle
    can_transition_to new_ownership service_id_from_string tenant_id_from_string event_type register
    reconstitute change_ownership change_lifecycle retire pull_events change changes row_checks
    row_clashes insert_service_row has_service insert_history_row insert scan_service find_by_id
    find_by_tenant_and_name is_target update_rows update_service_row is_open close_row
    close_intervals open_interval record_ownership is_service_not_found update event_data outbox_row
    insert_outbox_row append encode_cursor decode_cursor equals matches less precedes
    cursor_position select_page scan_all cut start_of list with_defaults list_services get_service
    follow
follow-shelf = refl
