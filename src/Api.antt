-- ===== src/Api.antt =====
-- What the requests of the HTTP API do to the tables (internal/infrastructure/httpapi).
pub mod Handlers
pub mod Reads
pub mod Routes
pub mod Balance
pub mod Entitlement
