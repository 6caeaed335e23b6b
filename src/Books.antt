-- ===== src/Books.antt =====
-- The books of the program: that every wallet's balance is the sum of its ledger entries, through
-- every use case and fault (internal/application and internal/infrastructure/postgres).
pub mod Logic
pub mod Statements
pub mod Balance
pub mod Halfway
pub mod Frames
pub mod Outcomes
pub mod Movement
pub mod Settlement
pub mod Process
pub mod Stored
pub mod Request
pub mod Execute
pub mod Opening
pub mod Reconcile
pub mod Consumer
pub mod Claims
pub mod Retry
pub mod Columns
pub mod ProcessColumns
pub mod RetryColumns
