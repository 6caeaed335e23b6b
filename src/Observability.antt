-- ===== src/Observability.antt =====
-- The counters and durations that the program exports (internal/observability/metrics.go).
mod Label
mod State
mod Render
pub mod Labels
pub mod Durations
unfoldable pub use Label.*
unfoldable pub use State.*
unfoldable pub use Render.*
