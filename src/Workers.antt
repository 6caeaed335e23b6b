-- ===== src/Workers.antt =====
-- The workers and their settings (internal/infrastructure/workers).
mod Settings
mod Loop
mod Turns
pub mod Safety
pub mod Balance
pub mod Ending
unfoldable pub use Settings.*
unfoldable pub use Loop.*
unfoldable pub use Turns.*
