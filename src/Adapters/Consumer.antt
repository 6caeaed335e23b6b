-- ===== src/Adapters/Consumer.antt =====
-- The queue's consumer (internal/infrastructure/messaging/sqs_consumer.go).
mod Handle
mod Receive
pub mod Requests
pub mod Refusals
unfoldable pub use Handle.*
unfoldable pub use Receive.*
