-- ===== src/Application/Process.antt =====
-- `processWager`, `rejectWager` and `waitForReference` (internal/application/process_wager.go).
-- The transaction that the program mutates is passed on and returned.
use backend_challenge.Base.{
  ℕ, Bool, true, false, not, ◌&&◌, ◌||◌, Option, none, some, if◌then◌else◌,
}
use backend_challenge.Text.{Text, text}
use backend_challenge.Errors.{
  Result, ok, err, Error, is_error, wager_not_found, reference_not_processed,
  invalid_wager_reference, insufficient_balance, money_overflow,
}
use backend_challenge.Domain.Money.{Money}
use backend_challenge.Domain.Wallet.{Uuid, Time, Wallet}
use backend_challenge.Domain.Wallet
use backend_challenge.Domain.Ledger.{LedgerDirection, debit, credit, new_wallet_ledger_entry}
use backend_challenge.Domain.Wager.{
  WagerTransaction, is_bet, is_win, is_loss, is_refund, is_rollback, is_pending_reference,
  is_terminal, present, mark_pending_reference, resolve_reference, mark_processed, reject,
}
use backend_challenge.Domain.Events.{
  new_wager_transaction_processed, new_wager_transaction_rejected,
  new_wager_transaction_pending_reference, new_wallet_balance_changed,
}
use backend_challenge.Postgres.{
  Runtime, Action, pure, lift, clock, fresh_id, ◌>>=◌, ◌>>◌, find_by_external_id,
  has_successful_reversal, update_wager, update_wallet, create_entry, create_event,
}

abbrev pub failure_insufficient_balance : Text
failure_insufficient_balance = text "INSUFFICIENT_BALANCE"

abbrev pub failure_reversal_insufficient_balance : Text
failure_reversal_insufficient_balance = text "REVERSAL_INSUFFICIENT_BALANCE"

abbrev pub failure_invalid_reference : Text
failure_invalid_reference = text "INVALID_REFERENCE"

abbrev pub failure_reference_unsuccessful : Text
failure_reference_unsuccessful = text "REFERENCE_UNSUCCESSFUL"

abbrev pub failure_already_reversed : Text
failure_already_reversed = text "ALREADY_REVERSED"

abbrev pub failure_money_overflow : Text
failure_money_overflow = text "MONEY_OVERFLOW"

abbrev pub failure_reference_not_found : Text
failure_reference_not_found = text "REFERENCE_NOT_FOUND"

-- The correlation and causation of the events.
pub record Trace : Type 0 where
  pub correlation_id : Text
  pub causation_id : Text

-- A result by cases: the value, or the error.
abbrev pub attempt : {A : Type 0} → Action A → Action (Result A)
attempt m w = let (r, w') = m w in (ok r, w')

unfoldable pub wager_needs_reference : WagerTransaction → Bool
wager_needs_reference t =
    is_refund t.kind
    || is_rollback t.kind
    || is_win t.kind && present t.reference_external_transaction_id

-- `*transaction.ReferenceExternalTransactionID()`, which is there where a reference is needed.
abbrev reference_name : Option Text → Text
reference_name none = backend_challenge.Base.[]
reference_name (some name) = name

-- The direction of the movement; a loss has none.
unfoldable pub direction_of : WagerTransaction → Option WagerTransaction → LedgerDirection
direction_of t none = if is_bet t.kind then debit else credit
direction_of t (some reference) =
    if is_rollback t.kind && not (is_bet reference.kind)
    then debit
    else if is_bet t.kind
    then debit
    else credit

-- `wallet.Debit` or `wallet.Credit`
unfoldable pub move : LedgerDirection → Time → Wallet → Money → Result Wallet
move debit now wallet money = Wallet.debit now wallet money
move direction now wallet money = Wallet.credit now wallet money

unfoldable pub insufficient_code : WagerTransaction → Text
insufficient_code t =
    if is_rollback t.kind
    then failure_reversal_insufficient_balance
    else failure_insufficient_balance

module _ (rt : Runtime) (trace : Trace) where
  -- `rejectWager`
  unfoldable pub reject_wager : WagerTransaction → Text → Action WagerTransaction
  reject_wager t code = do
    now ← clock rt
    rejected ← lift (reject now t code)
    update_wager rt rejected
    id ← fresh_id rt
    event ←
        lift (new_wager_transaction_rejected id rejected trace.correlation_id trace.causation_id)
    create_event rt event
    pure rejected

  unfoldable pub wait_first : WagerTransaction → Action WagerTransaction
  wait_first t = do
    now ← clock rt
    waiting ← lift (mark_pending_reference now t)
    update_wager rt waiting
    id ← fresh_id rt
    event ←
        lift (
          new_wager_transaction_pending_reference id waiting trace.correlation_id
            trace.causation_id)
    create_event rt event
    pure waiting

  -- `waitForReference`
  unfoldable pub wait_for_reference : WagerTransaction → Action WagerTransaction
  unfolding wait_first
  wait_for_reference t = if is_pending_reference t.status then pure t else wait_first t

  -- The ledger entry and the event of a movement.
  unfoldable pub record_movement :
      WagerTransaction → LedgerDirection → Wallet → Wallet → Action WagerTransaction
  record_movement processed direction before wallet = do
    now ← clock rt
    entry_id ← fresh_id rt
    entry ← lift (
        new_wallet_ledger_entry now entry_id wallet.id processed.id direction processed.money
          before.balance wallet.balance)
    create_entry rt entry
    id ← fresh_id rt
    changed ← lift (
        new_wallet_balance_changed id processed entry wallet.version trace.correlation_id
          trace.causation_id)
    create_event rt changed
    pure processed

  -- `MarkProcessed` with the wallet's balance, the update of the row and the event.
  unfoldable pub settle : WagerTransaction → Wallet → Action WagerTransaction
  settle t wallet = do
    now ← clock rt
    processed ← lift (mark_processed now t wallet.balance)
    update_wager rt processed
    id ← fresh_id rt
    event ←
        lift (new_wager_transaction_processed id processed trace.correlation_id trace.causation_id)
    create_event rt event
    pure processed

  -- The errors of a movement that reject the operation.
  unfoldable pub refuse_movement : WagerTransaction → Error → Action WagerTransaction
  unfolding reject_wager
  refuse_movement t e =
      if is_error e insufficient_balance
      then reject_wager t (insufficient_code t)
      else if is_error e money_overflow
      then reject_wager t failure_money_overflow
      else lift (err e)

  unfoldable pub after_movement :
      WagerTransaction → LedgerDirection → Wallet → Result Wallet → Action WagerTransaction
  unfolding refuse_movement settle record_movement
  after_movement t direction before (err e) = refuse_movement t e
  after_movement t direction before (ok wallet) = do
    update_wallet rt wallet
    processed ← settle t wallet
    record_movement processed direction before wallet

  -- From `direction := …` on.
  unfoldable pub apply_movement :
      WagerTransaction → Option WagerTransaction → Wallet → Action WagerTransaction
  unfolding after_movement settle
  apply_movement t reference wallet = if is_loss t.kind then settle t wallet else (do
    now ← clock rt
    after_movement t (direction_of t reference) wallet
        (move (direction_of t reference) now wallet t.money))

  -- The check for an earlier reversal.
  unfoldable pub check_reversal :
      WagerTransaction → WagerTransaction → Wallet → Action WagerTransaction
  unfolding apply_movement reject_wager
  check_reversal t reference wallet =
      if is_refund t.kind || is_rollback t.kind
      then (do
        reversed ← has_successful_reversal rt reference.id
        if reversed
            then reject_wager t failure_already_reversed
            else apply_movement t (some reference) wallet)
      else apply_movement t (some reference) wallet

  -- The outcomes of `ResolveReference`.
  unfoldable pub resolved_by :
      WagerTransaction
      → WagerTransaction
      → Wallet
      → Result WagerTransaction
      → Action WagerTransaction
  unfolding check_reversal reject_wager wait_for_reference
  resolved_by t reference wallet (ok resolved) = check_reversal resolved reference wallet
  resolved_by t reference wallet (err e) =
      if is_error e reference_not_processed
      then if is_terminal reference
        then reject_wager t failure_reference_unsuccessful
        else wait_for_reference t
      else if is_error e invalid_wager_reference
      then reject_wager t failure_invalid_reference
      else lift (err e)

  -- The outcomes of the lookup of the reference.
  unfoldable pub found_reference :
      WagerTransaction → Wallet → Result WagerTransaction → Action WagerTransaction
  unfolding resolved_by wait_for_reference
  found_reference t wallet (err e) =
      if is_error e wager_not_found then wait_for_reference t else lift (err e)
  found_reference t wallet (ok reference) = do
    now ← clock rt
    resolved_by t reference wallet (resolve_reference now t reference)

  -- `processWager`
  unfoldable pub process_wager : Wallet → WagerTransaction → Action WagerTransaction
  unfolding found_reference apply_movement
  process_wager wallet t =
      if wager_needs_reference t
      then (do
        looked_up ← attempt (
            find_by_external_id rt t.provider_id
              (reference_name t.reference_external_transaction_id))
        found_reference t wallet looked_up)
      else apply_movement t none wallet
