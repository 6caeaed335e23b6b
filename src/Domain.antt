-- ===== src/Domain.antt =====
-- The domain of wallets and wagers: internal/domain. Pointers to domain objects are values here,
-- never nil; a method that mutates its receiver returns the new value. What the code takes from
-- `uuid.New` and `time.Now` is an argument.
pub mod Money
pub mod Wallet
pub mod Ledger
pub mod Wager
pub mod Events
