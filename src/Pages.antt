-- ===== src/Pages.antt =====
-- The pages of a wallet's ledger: their order, and that each goes on where the last one ended
-- (`ListLedger`, internal/infrastructure/postgres/wallet_queries.go).
pub mod Order
pub mod Continuation
pub mod Cursor
