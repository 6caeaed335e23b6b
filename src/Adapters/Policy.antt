-- ===== src/Adapters/Policy.antt =====
-- The checks of a queue's policies (internal/infrastructure/messaging/iam_policy.go).
mod Checks
pub mod Grants
pub mod LeastPrivilege
unfoldable pub use Checks.*
