-- ===== src/Adapters/Http.antt =====
-- The HTTP API (internal/infrastructure/httpapi).
mod Content
mod Wallets
mod Wagers
mod Api
unfoldable pub use Content.*
unfoldable pub use Wallets.*
unfoldable pub use Wagers.*
unfoldable pub use Api.*
