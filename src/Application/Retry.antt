-- ===== src/Application/Retry.antt =====
-- `RetryReferences.Execute` (internal/application/retry_references.go).
use backend_challenge.Base.{ℕ, ◌+◌, ◌&&◌, Option, none, some, leb, if◌then◌else◌}
use backend_challenge.Text.{Text}
use backend_challenge.Domain.Wallet.{Uuid, Wallet}
use backend_challenge.Domain.Wager.{WagerStatus, WagerTransaction, is_pending_reference}
use backend_challenge.Postgres.{
  Runtime, Action, pure, lift, within_transaction, ◌>>=◌, ◌>>◌, find_wallet, PendingReference,
  claim_pending_reference, schedule_reference_retry,
}
use backend_challenge.Application.Process.{
  Trace, process_wager, reject_wager, failure_reference_not_found,
}
use backend_challenge.Application.Delays.{ReferenceRetryPolicy, validate_retry, reference_delay}

pub record ReferenceRetryResult : Type 0 where
  pub transaction_id : Uuid
  pub wallet_id : Uuid
  pub provider_id : Text
  pub correlation_id : Text
  pub status : WagerStatus
  pub attempts : ℕ

unfoldable pub retry_result : PendingReference → WagerTransaction → ℕ → ReferenceRetryResult
retry_result pending transaction attempts = record {
  transaction_id = transaction.id;
  wallet_id = transaction.wallet_id;
  provider_id = transaction.provider_id;
  correlation_id = pending.correlation_id;
  status = transaction.status;
  attempts = attempts;
}

abbrev trace_of : PendingReference → Trace
trace_of pending = record {
  correlation_id = pending.correlation_id;
  causation_id = pending.causation_id;
}

module _ (rt : Runtime) (policy : ReferenceRetryPolicy) where
  -- The last attempt rejects an operation that still waits.
  unfoldable pub last_attempt : Trace → ℕ → WagerTransaction → Action WagerTransaction
  last_attempt trace attempts transaction =
      if is_pending_reference transaction.status && leb policy.max_attempts attempts
      then reject_wager rt trace transaction failure_reference_not_found
      else pure transaction

  unfoldable pub next_attempt : Trace → ℕ → Wallet → WagerTransaction → Action WagerTransaction
  unfolding last_attempt
  next_attempt trace attempts wallet transaction = do
    schedule_reference_retry rt transaction.id attempts (reference_delay policy attempts)
    processed ← process_wager rt trace wallet transaction
    last_attempt trace attempts processed

  -- The steps for a claimed operation.
  unfoldable pub retry_claimed : PendingReference → Action ReferenceRetryResult
  unfolding next_attempt retry_result
  retry_claimed pending = do
    wallet ← find_wallet rt pending.transaction.wallet_id
    (if leb policy.max_attempts pending.attempts
        then (do
          rejected ←
              reject_wager rt (trace_of pending) pending.transaction failure_reference_not_found
          pure (retry_result pending rejected pending.attempts))
        else (do
          processed ←
              next_attempt (trace_of pending) (pending.attempts + 1) wallet pending.transaction
          pure (retry_result pending processed (pending.attempts + 1))))

  unfoldable pub retry_if : Option PendingReference → Action (Option ReferenceRetryResult)
  unfolding retry_claimed
  retry_if none = pure none
  retry_if (some pending) = do result ← retry_claimed pending; pure (some result)

  -- `Execute`: nothing where no operation is due.
  unfoldable pub retry_references : Action (Option ReferenceRetryResult)
  unfolding retry_if
  retry_references = do
    lift (validate_retry policy)
    within_transaction rt (do pending ← claim_pending_reference rt; retry_if pending)
