-- ===== src/Domain/Wager.antt =====
-- Wager transactions (internal/domain/wager_transaction.go and wager_transaction_state.go).
mod Data
mod Rules
mod Steps
mod State
pub mod Validity
pub mod Transitions
pub mod Reference
pub mod Lifecycle
pub mod Edges
unfoldable pub use Data.*
unfoldable pub use Rules.*
unfoldable pub use Steps.*
unfoldable pub use State.*
