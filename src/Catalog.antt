-- ===== src/Catalog.antt =====
-- The catalog module, internal/modules/catalog: value objects, the Service aggregate, its
-- repository, commands, listing and HTTP handlers.
pub mod Values
pub mod Service
pub mod Repository
pub mod Commands
pub mod Listing
pub mod Handlers
