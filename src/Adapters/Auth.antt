-- ===== src/Adapters/Auth.antt =====
-- Authentication and the access of the routes (internal/infrastructure/auth).
mod Tokens
mod Discovery
pub mod Admission
unfoldable pub use Tokens.*
unfoldable pub use Discovery.*
