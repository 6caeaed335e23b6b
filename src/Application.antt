-- ===== src/Application.antt =====
-- The use cases: internal/application.
mod Payload
mod Process
mod Execute
mod Retry
mod Open
mod Reconcile
mod Publish
mod Pages
pub mod Delays
unfoldable pub use Payload.*
unfoldable pub use Process.*
unfoldable pub use Execute.*
unfoldable pub use Retry.*
unfoldable pub use Open.*
unfoldable pub use Reconcile.*
unfoldable pub use Publish.*
unfoldable pub use Pages.*
