-- ===== src/Tenant.antt =====
-- The tenant module: internal/modules/tenant (domain, app, adapters/postgres and api).
pub mod Values
pub mod Account
pub mod Repository
pub mod Commands
pub mod Listing
pub mod Handlers
