-- ===== src/Postgres.antt =====
-- The PostgreSQL repositories: internal/infrastructure/postgres over the tables of migrations.
mod Tables
mod UnitOfWork
mod Wallets
mod Wagers
mod References
mod Ledger
mod Inbox
mod Outbox
mod Publisher
unfoldable pub use Tables.*
unfoldable pub use UnitOfWork.*
unfoldable pub use Wallets.*
unfoldable pub use Wagers.*
unfoldable pub use References.*
unfoldable pub use Ledger.*
unfoldable pub use Inbox.*
unfoldable pub use Outbox.*
unfoldable pub use Publisher.*
