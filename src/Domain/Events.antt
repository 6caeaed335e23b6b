-- ===== src/Domain/Events.antt =====
-- Integration events (internal/domain/events.go). An event is the value that its JSON encodes.
use backend_challenge.Base.{
  ℕ, ◌<◌, Bool, true, false, not, ◌&&◌, ◌||◌, Option, none, some, ltb, ◌==◌, pos, ltb_ℤ,
}
use backend_challenge.Text.{Text, is_blank}
use backend_challenge.Errors
use backend_challenge.Errors.{Result, ok, err, fail, fail_if, ◌>>=◌, ◌>>◌, invalid_event}
use backend_challenge.Domain.Money
use backend_challenge.Domain.Money.{Money, money_eq}
use backend_challenge.Domain.Wallet.{Uuid, Time, is_nil, is_zero_time}
use backend_challenge.Domain.Ledger.{
  LedgerDirection, WalletLedgerEntry, debit, credit, validate_ledger_balance,
}
use backend_challenge.Domain.Wager.{
  WagerKind, WagerTransaction, opening, bet, win, loss, refund, is_opening, is_processed,
  is_rejected, is_pending_reference, validate,
}

-- The strings that name the events.
pub data EventType : Type 0 where
  wager_transaction_processed wager_transaction_rejected : EventType
  wager_transaction_pending_reference wallet_balance_changed : EventType

pub record EventMetadata : Type 0 where
  pub event_id : Uuid
  pub event_type : EventType
  pub aggregate_id : Uuid
  pub correlation_id : Text
  pub causation_id : Text
  pub occurred_at : Time
  pub version : ℕ

-- With the value of `uuid.New`.
unfoldable pub new_event_metadata :
    Uuid → EventType → Uuid → Time → Text → Text → Result EventMetadata
new_event_metadata id event_type aggregate_id occurred_at correlation_id causation_id = do
  fail_if (is_nil aggregate_id || is_zero_time occurred_at || is_blank correlation_id) invalid_event
  ok (record {
    event_id = id;
    event_type = event_type;
    aggregate_id = aggregate_id;
    correlation_id = correlation_id;
    causation_id = causation_id;
    occurred_at = occurred_at;
    version = 1;
  })

pub record WagerEventData : Type 0 where
  pub transaction_id : Uuid
  pub wallet_id : Uuid
  pub player_id : Uuid
  pub provider_id : Text
  pub external_transaction_id : Text
  pub round_id : Text
  pub game_id : Text
  pub kind : WagerKind
  pub money : Money
  pub reference_external_transaction_id : Text

abbrev or_empty : Option Text → Text
or_empty none = backend_challenge.Base.[]
or_empty (some s) = s

unfoldable pub new_wager_event_data : WagerTransaction → WagerEventData
new_wager_event_data transaction = record {
  transaction_id = transaction.id;
  wallet_id = transaction.wallet_id;
  player_id = transaction.player_id;
  provider_id = transaction.provider_id;
  external_transaction_id = transaction.external_transaction_id;
  round_id = transaction.round_id;
  game_id = transaction.game_id;
  kind = transaction.kind;
  money = transaction.money;
  reference_external_transaction_id = or_empty transaction.reference_external_transaction_id;
}

pub record BalanceChange : Type 0 where
  pub wallet_id : Uuid
  pub transaction_id : Uuid
  pub direction : LedgerDirection
  pub money : Money
  pub balance_before : Money
  pub balance_after : Money
  pub wallet_version : ℕ

-- The four types of events with their payloads.
pub data IntegrationEvent : Type 0 where
  processed_event : EventMetadata → WagerEventData → Money → IntegrationEvent
  rejected_event : EventMetadata → WagerEventData → Text → IntegrationEvent
  pending_reference_event : EventMetadata → WagerEventData → IntegrationEvent
  balance_changed_event : EventMetadata → BalanceChange → IntegrationEvent

abbrev pub event_metadata : IntegrationEvent → EventMetadata
event_metadata (processed_event m d b) = m
event_metadata (rejected_event m d c) = m
event_metadata (pending_reference_event m d) = m
event_metadata (balance_changed_event m d) = m

-- `*transaction.resultBalance` and `*transaction.failureCode`: the status guarantees them.
deref {ℓ} : {A : Type ℓ} → Option A → Result A
deref none = fail invalid_event
deref (some a) = ok a

unfoldable pub new_wager_transaction_processed :
    Uuid → WagerTransaction → Text → Text → Result IntegrationEvent
unfolding deref
new_wager_transaction_processed id transaction correlation_id causation_id = do
  fail_if (Errors.failed (validate transaction) || not (is_processed transaction.status))
      invalid_event
  metadata ←
      new_event_metadata id wager_transaction_processed transaction.wallet_id transaction.updated_at
        correlation_id causation_id
  balance ← deref transaction.result_balance
  ok (processed_event metadata (new_wager_event_data transaction) balance)

unfoldable pub new_wager_transaction_rejected :
    Uuid → WagerTransaction → Text → Text → Result IntegrationEvent
unfolding deref
new_wager_transaction_rejected id transaction correlation_id causation_id = do
  fail_if (Errors.failed (validate transaction) || not (is_rejected transaction.status))
      invalid_event
  metadata ←
      new_event_metadata id wager_transaction_rejected transaction.wallet_id transaction.updated_at
        correlation_id causation_id
  code ← deref transaction.failure_code
  ok (rejected_event metadata (new_wager_event_data transaction) code)

unfoldable pub new_wager_transaction_pending_reference :
    Uuid → WagerTransaction → Text → Text → Result IntegrationEvent
new_wager_transaction_pending_reference id transaction correlation_id causation_id = do
  fail_if (Errors.failed (validate transaction) || not (is_pending_reference transaction.status))
      invalid_event
  metadata ←
      new_event_metadata id wager_transaction_pending_reference transaction.wallet_id
        transaction.updated_at correlation_id causation_id
  ok (pending_reference_event metadata (new_wager_event_data transaction))

abbrev is_debit : LedgerDirection → Bool
is_debit debit = true
is_debit direction = false

abbrev is_credit : LedgerDirection → Bool
is_credit credit = true
is_credit direction = false

-- The `switch` over the kinds in `NewWalletBalanceChanged`.
unfoldable pub kind_allows : WagerKind → WalletLedgerEntry → ℕ → Bool
kind_allows opening entry wallet_version =
    wallet_version == 1 && Money.is_zero entry.balance_before && is_credit entry.direction
kind_allows bet entry wallet_version = is_debit entry.direction
kind_allows win entry wallet_version = is_credit entry.direction
kind_allows refund entry wallet_version = is_credit entry.direction
kind_allows loss entry wallet_version = false
kind_allows kind entry wallet_version = true

-- `entry.balanceAfter != *transaction.resultBalance`
abbrev result_differs : Option Money → Money → Bool
result_differs none balance = true
result_differs (some result) balance = not (money_eq balance result)

unfoldable pub new_wallet_balance_changed :
    Uuid → WagerTransaction → WalletLedgerEntry → ℕ → Text → Text → Result IntegrationEvent
unfolding kind_allows
new_wallet_balance_changed id transaction entry wallet_version correlation_id causation_id = do
  fail_if (Errors.failed (validate transaction) || not (is_processed transaction.status))
      invalid_event
  fail_if (is_nil entry.id || is_zero_time entry.created_at || not (Money.is_positive entry.money))
      invalid_event
  fail_if
      (not (entry.wallet_id == transaction.wallet_id)
        || not (entry.transaction_id == transaction.id)
        || not (money_eq entry.money transaction.money))
      invalid_event
  fail_if (result_differs transaction.result_balance entry.balance_after) invalid_event
  fail_if
      (Errors.failed (Money.validate entry.balance_before)
        || Errors.failed (Money.validate entry.balance_after))
      invalid_event
  fail_if (ltb_ℤ entry.balance_before.amount (pos 0) || ltb_ℤ entry.balance_after.amount (pos 0))
      invalid_event
  fail_if
      (Errors.failed (
        validate_ledger_balance entry.direction entry.money entry.balance_before
          entry.balance_after))
      invalid_event
  fail_if (not (kind_allows transaction.kind entry wallet_version)) invalid_event
  fail_if (ltb wallet_version 1 || not (is_opening transaction.kind) && ltb wallet_version 2)
      invalid_event
  metadata ←
      new_event_metadata id wallet_balance_changed transaction.wallet_id transaction.updated_at
        correlation_id causation_id
  ok (
      balance_changed_event metadata (record {
        wallet_id = entry.wallet_id;
        transaction_id = entry.transaction_id;
        direction = entry.direction;
        money = entry.money;
        balance_before = entry.balance_before;
        balance_after = entry.balance_after;
        wallet_version = wallet_version;
      }))
