-- ===== src/Tests.antt =====
-- Tests and concrete instances: a runtime, a request and the tables that they lead to.
mod Scenario
mod Books
mod Replay
mod Domain
mod Wagers
mod Policies
mod Outbox
mod Pages
mod Observability
mod Policy
mod Auth
mod Consumer
mod Http
mod Workers
