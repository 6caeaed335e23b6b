-- ===== src/Adapters.antt =====
-- The adapters around the use cases: the HTTP API, the authentication, the queue's consumer and its
-- policies, and the settings (internal/infrastructure/httpapi, auth and messaging).
pub mod Responses
pub mod Messages
pub mod Policy
pub mod Auth
pub mod Settings
pub mod Publisher
pub mod Machine
pub mod Tasks
pub mod Consumer
pub mod Http
