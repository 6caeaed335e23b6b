-- ===== src/Postgres/Tables.antt =====
-- The rows and tables (migrations/000001_initial_schema.up.sql and
-- 000002_transactional_storage.up.sql). A table is a list of rows, the latest insert first.
use backend_challenge.Base.{ℕ, Bool, false, Option, none, some, List, [], ◌∷◌, if◌then◌else◌}
use backend_challenge.Text.{Text, str_eq, is_empty}
use backend_challenge.Domain.Wallet.{Uuid, Time, Wallet}
use backend_challenge.Domain.Ledger.{WalletLedgerEntry}
use backend_challenge.Domain.Wager.{WagerTransaction}
use backend_challenge.Domain.Events.{IntegrationEvent}

-- The columns that the domain object has, and those of the reference retry. An empty text stands
-- for NULL (`NULLIF` on the way in, `COALESCE` on the way out).
pub record WagerRow : Type 0 where
  pub columns : WagerTransaction
  pub reference_attempts : ℕ
  pub next_reference_attempt_at : Time

pub record InboxRow : Type 0 where
  pub consumer_name : Text
  pub message_id : Text
  pub payload_hash : Text
  pub completed : Bool

pub record OutboxRow : Type 0 where
  pub event : IntegrationEvent
  pub attempts : ℕ
  pub next_attempt_at : Time
  pub published_at : Option Time
  pub locked_until : Option Time
  pub lock_token : Option Uuid

pub record Db : Type 0 where
  pub wallets : List Wallet
  pub wagers : List WagerRow
  pub ledger : List WalletLedgerEntry
  pub inbox : List InboxRow
  pub outbox : List OutboxRow

-- The first row that satisfies a condition, and the rows with it replaced.
module _ {ℓ} {A : Type ℓ} where
  unfoldable pub first : (A → Bool) → List A → Option A
  first p [] = none
  first p (x ∷ xs) = if p x then some x else first p xs

  unfoldable pub update_first : (A → Bool) → (A → A) → List A → List A
  update_first p f [] = []
  update_first p f (x ∷ xs) = if p x then f x ∷ xs else x ∷ update_first p f xs

-- `column = $n` on a text column: NULL equals nothing.
unfoldable pub sql_eq : Text → Text → Bool
sql_eq column value = if is_empty column then false else str_eq column value
