-- ===== src/Publishing.antt =====
-- The publication of the outbox: its reservations, and what becomes of an event
-- (internal/infrastructure/postgres/outbox_publisher_repository.go).
pub mod Rows
pub mod Reservation
pub mod Open
pub mod Lasting
pub mod Published
pub mod Outcome
