-- ===== src/Replay.antt =====
-- Idempotency: a request whose operation is stored is answered from the store
-- (`Execute` and `findWagerReplay`, internal/application/process_wager.go).
pub mod Reads
pub mod Stored
pub mod Execute
pub mod Message
