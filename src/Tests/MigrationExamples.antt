-- ===== src/Tests/MigrationExamples.antt =====
-- The migrations of the repository on a database that has the first of them.
use forge_platform.Base.{String, ◌≡◌, refl, ◌⊎◌, List, [], ◌∷◌, take}
use forge_platform.Apperr.{ok}
use forge_platform.Migrations.{
  Migration, Journal, migrate, in_order, pending_of, has_suffix, before_underscore, parse_version,
  call, apply_one, apply_all,
}
use forge_platform.Migrations.Prefix.{Failed, Prefix, migrate-Prefix}
use forge_platform.Tests.{calm}
use forge_platform.Base.Sorting.{insert_by, sort_by}
use forge_platform.Base.Decimal.{emit, format_int, scan, parse_int}

abbrev directory : List String
directory =
    "0001_catalog.down.sql" ∷ "0001_catalog.up.sql" ∷ "0002_tenant.down.sql" ∷ "0002_tenant.up.sql"
    ∷ "migrations.go" ∷ []

abbrev catalog_file : Migration
catalog_file = record { version = 1; name = "0001_catalog.up.sql" }

abbrev tenant_file : Migration
tenant_file = record { version = 2; name = "0002_tenant.up.sql" }

abbrev half_way : Journal
half_way = record { schema = record { versions = 1 ∷ []; applied = catalog_file ∷ [] }; calls = 0 }

migrate-Prefix_example :
    (Failed (migrate calm (λ s. s) 1 directory half_way).0
      × ((migrate calm (λ s. s) 1 directory half_way).1.schema ≡ half_way.schema))
    ⊎ ((ms : List Migration) × (pending_of (λ s. s) (take 1 half_way.schema.versions) directory
          ≡ ok ms)
        × Prefix (in_order ms) half_way.schema (migrate calm (λ s. s) 1 directory half_way))
migrate-Prefix_example = migrate-Prefix calm (λ s. s) 1 directory half_way (refl, tt)

migrate_rest : migrate calm (λ s. s) 1 directory half_way ≡ (
  ok tt,
  record {
    schema = record { versions = 1 ∷ 2 ∷ []; applied = catalog_file ∷ tenant_file ∷ [] };
    calls = 6;
  },
)
unfolding insert_by sort_by emit format_int scan parse_int has_suffix before_underscore
    parse_version pending_of call apply_one apply_all migrate
migrate_rest = refl
